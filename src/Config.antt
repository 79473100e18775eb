-- ===== src/Config.antt =====
-- types/config.go and types/read_config.go: the provider's configuration, its defaults, and how it
-- is read from the environment.
pub mod Reading
mod Tests
use faas_provider.Prelude.{
  ℕ, ◌-◌, ◌*◌, ◌^◌, ◌%◌, ltb, Bool, true, false, not, ◌&&◌, Option, none, some, String, str_eq,
  if◌then◌else◌, ℤ, pos, negsuc, pos_part, leb_ℤ, ltb_ℤ, Result, ok, err, Error, errorf, concat,
}
use faas_provider.Float.{Float}

-- An int or a `time.Duration` in nanoseconds is an integer; `tcp_port` is a pointer.
pub record FaasConfig (F : Type 0) : Type 0 where
  pub tcp_port : Option ℤ
  pub read_timeout : ℤ
  pub write_timeout : ℤ
  pub enable_health : Bool
  pub enable_basic_auth : Bool
  pub secret_mount_path : String
  pub max_idle_conns : ℤ
  pub max_idle_conns_per_host : ℤ
  pub enable_caching : Bool
  pub enable_intelligent_orchestrator : Bool
  pub orchestrator_eval_interval : ℕ
  pub orchestrator_stability_period : ℕ
  pub orchestrator_switch_threshold : F
  pub orchestrator_max_memory : ℕ

-- What `strconv.ParseInt` returns: a number, the nearest bound with `ErrRange`, or another error.
pub data Parsed : Type 0 where
  number : ℤ → Parsed
  out_of_range : ℤ → Error → Parsed
  malformed : Error → Parsed

-- The parsers of the standard library: `strconv.Atoi`, `strconv.ParseInt` at base 10,
-- `time.ParseDuration`, and `int(d.Seconds())` of a duration.
pub record Parsers : Type 0 where
  pub atoi : String → Result ℤ
  pub parse_int : String → Parsed
  pub parse_duration : String → Result ℤ
  pub whole_seconds : ℤ → ℤ

abbrev pub second : ℕ
second = 10 ^ 9

-- The int64 that `n` wraps around to.
abbrev pub wrap_int64 : ℕ → ℤ
wrap_int64 n = let r = n % 2 ^ 64 in if ltb r (2 ^ 63) then pos r else negsuc (2 ^ 64 - 1 - r)

abbrev pub default_read_timeout : ℤ
default_read_timeout = pos (10 * second)

abbrev pub default_max_idle_conns : ℤ
default_max_idle_conns = pos 1024

module _ {F : Type 0} where
  unfoldable pub get_read_timeout : FaasConfig F → ℤ
  get_read_timeout c = if leb_ℤ c.read_timeout (pos 0) then default_read_timeout else c.read_timeout

  unfoldable pub get_max_idle_conns : FaasConfig F → ℤ
  get_max_idle_conns c =
      if ltb_ℤ c.max_idle_conns (pos 1) then default_max_idle_conns else c.max_idle_conns

  unfoldable pub get_max_idle_conns_per_host : FaasConfig F → ℤ
  unfolding get_max_idle_conns
  get_max_idle_conns_per_host c =
      if ltb_ℤ c.max_idle_conns_per_host (pos 1)
      then get_max_idle_conns c
      else c.max_idle_conns_per_host

unfoldable pub parse_bool_value : String → Bool → Bool
parse_bool_value val fallback = if str_eq val "" then fallback else str_eq val "true"

unfoldable pub parse_string : String → String → String
parse_string val fallback = if str_eq val "" then fallback else val

module _ (p : Parsers) where
  unfoldable pub parse_int_value : String → ℤ → ℤ
  parse_int_value val fallback =
      let parsed : ℤ = elim (p.atoi val) [
        | err e ↦ fallback
        | ok n ↦ if leb_ℤ (pos 0) n then n else fallback
      ] in
      if str_eq val "" then fallback else parsed

  unfoldable pub parse_duration_value : String → ℤ → ℤ
  parse_duration_value val fallback = elim (p.parse_duration val) [ err e ↦ fallback | ok d ↦ d ]

  unfoldable pub parse_int_or_duration_value : String → ℤ → ℤ
  unfolding parse_duration_value
  parse_int_or_duration_value val fallback =
      let parsed : ℤ = elim (p.atoi val) [
        | err e ↦ parse_duration_value val fallback
        | ok n ↦
            if leb_ℤ (pos 0) n
            then wrap_int64 (pos_part n * second)
            else parse_duration_value val fallback
      ] in
      if str_eq val "" then parse_duration_value val fallback else parsed

  -- The number that is returned and the error beside it.
  unfoldable pub parse_int_or_duration : String → ℤ × Option Error
  parse_int_or_duration val = elim (p.parse_int val) [
    | number n ↦ (n, none)
    | out_of_range n e ↦ (n, some e)
    | malformed e ↦ elim (p.parse_duration val) [
      | err e' ↦ (pos 0, some e')
      | ok d ↦ (p.whole_seconds d, none)
    ]
  ]

  -- The block that reads one of the two limits, of which `message` begins the error.
  unfoldable pub read_limit : String → String → Result ℤ
  read_limit message val =
      let parsed : Result ℤ = elim (p.atoi val) [
        | err e ↦ err (errorf (concat message val))
        | ok n ↦ ok n
      ] in
      if str_eq val "" then ok (pos 1024) else parsed

  module _ (F : Type 0) ⦃fl : Float F⦄ where
    open fl use {decimal}

    -- The configuration that `Read` fills, with the two limits that it has read. `hasEnv.Getenv` is
    -- the argument `env`.
    unfoldable pub read_with : (String → String) → ℤ → ℤ → FaasConfig F
    unfolding parse_int_value parse_int_or_duration_value parse_bool_value parse_string
    read_with env conns per_host = record {
      tcp_port = some (parse_int_value (env "port") (pos 8080));
      read_timeout = parse_int_or_duration_value (env "read_timeout") (pos (10 * second));
      write_timeout = parse_int_or_duration_value (env "write_timeout") (pos (10 * second));
      enable_health = false;
      enable_basic_auth = parse_bool_value (env "basic_auth") false;
      secret_mount_path = parse_string (env "secret_mount_path") "/run/secrets/";
      max_idle_conns = conns;
      max_idle_conns_per_host = per_host;
      enable_caching = false;
      enable_intelligent_orchestrator = false;
      orchestrator_eval_interval = 0;
      orchestrator_stability_period = 0;
      orchestrator_switch_threshold = decimal 0 0;
      orchestrator_max_memory = 0;
    }

    unfoldable pub read : (String → String) → Result (FaasConfig F)
    unfolding read_with read_limit
    read env = elim (read_limit "invalid value for max_idle_conns: " (env "max_idle_conns")) [
      | err e ↦ err e
      | ok conns ↦
          elim (read_limit "invalid value for max_idle_conns_per_host: "
            (env "max_idle_conns_per_host")) [
              | err e ↦ err e
              | ok per_host ↦ ok (read_with env conns per_host)
            ]
    ]
