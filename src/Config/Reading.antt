-- ===== src/Config/Reading.antt =====
-- What a configuration that was read holds, and what the getters and the parsers return.
use faas_provider.Prelude.{
  ℕ, ◌≡◌, ◌⊎◌, inl, inr, refl, Bool, true, false, ◌&&◌, ◌||◌, some, String, str_eq, ℤ, pos, leb_ℤ,
  Result, ok, err, Error, arith, Bool-cases, Result-cases,
}
use faas_provider.Float.{Float}
use faas_provider.Config.{
  FaasConfig, Parsers, get_read_timeout, get_max_idle_conns, get_max_idle_conns_per_host,
  parse_int_value, parse_string, read_limit, read, read_with,
}

-- A timeout above zero, and limits of at least one.
pub record HasLimits {F : Type 0} (c : FaasConfig F) : Type 0 where
  pub timeout : leb_ℤ (pos 1) (get_read_timeout c) ≡ true
  pub conns : leb_ℤ (pos 1) (get_max_idle_conns c) ≡ true
  pub per_host : leb_ℤ (pos 1) (get_max_idle_conns_per_host c) ≡ true

-- Whatever a configuration holds, the getters return a timeout above zero, and limits of at least
-- one connection.
pub getters-HasLimits : {F : Type 0} (c : FaasConfig F) → HasLimits c
unfolding get_read_timeout get_max_idle_conns get_max_idle_conns_per_host
getters-HasLimits c = record {
  timeout = ground arith;
  conns = ground arith;
  per_host = ground arith;
}

abbrev pub is_ok {ℓ} : {A : Type ℓ} → Result A → Bool
is_ok (ok a) = true
is_ok (err e) = false

parse_string_lem : (val : String) → str_eq (parse_string val "/run/secrets/") "" ≡ false
unfolding parse_string
parse_string_lem val = elim (Bool-cases (str_eq val "")) [
  | inl unset ↦ rw (unset, parse_string) refl
  | inr given ↦ rw (given, parse_string) given
]

module _ (p : Parsers) where
  -- A limit is accepted if it is not set, or is a number.
  abbrev pub accepts : String → Bool
  accepts val = str_eq val "" || is_ok (p.atoi val)

  parse_int_value_lem :
      (val : String) (n : ℕ) → leb_ℤ (pos 0) (parse_int_value p val (pos n)) ≡ true
  unfolding parse_int_value
  parse_int_value_lem val n = ground arith

  read_limit_lem : (message val : String) → is_ok (read_limit p message val) ≡ accepts val
  unfolding read_limit
  read_limit_lem message val = ground arith

  module _ (F : Type 0) ⦃fl : Float F⦄ where
    -- The port is not below zero, and there is a path to the secrets.
    pub record IsRead (c : FaasConfig F) : Type 0 where
      pub port : ℤ
      pub port_set : c.tcp_port ≡ some port
      pub port_not_negative : leb_ℤ (pos 0) port ≡ true
      pub path : str_eq c.secret_mount_path "" ≡ false

    -- The configuration is read exactly where each of the two limits is unset or a number, and then
    -- its port is set and not below zero, and its path to the secrets is not empty.
    pub read_lem :
        (env : String → String)
        → (is_ok (read p F env)
            ≡ (accepts (env "max_idle_conns") && accepts (env "max_idle_conns_per_host")))
          × (((c : FaasConfig F) × (read p F env ≡ ok c) × IsRead c)
              ⊎ ((e : Error) × (read p F env ≡ err e)))
    unfolding read read_with
    read_lem env =
        let m1 : String = "invalid value for max_idle_conns: " in
        let m2 : String = "invalid value for max_idle_conns_per_host: " in
        let k1 = read_limit_lem m1 (env "max_idle_conns") in
        let k2 = read_limit_lem m2 (env "max_idle_conns_per_host") in
        elim (Result-cases (read_limit p m1 (env "max_idle_conns"))) [
          | inr (e, failed) ↦ (ground (arith, failed, k1), inr (e, rw (failed, read) refl))
          | inl (conns, first) ↦
              elim (Result-cases (read_limit p m2 (env "max_idle_conns_per_host"))) [
                | inr (e, failed) ↦
                    (ground (arith, first, failed, k1, k2), inr (e, rw (first, failed, read) refl))
                | inl (per_host, both) ↦ (
                  ground (arith, first, both, k1, k2),
                  inl (
                    read_with p F env conns per_host,
                    rw (first, both, read) refl,
                    record {
                      port = parse_int_value p (env "port") (pos 8080);
                      port_set = refl;
                      port_not_negative = parse_int_value_lem (env "port") 8080;
                      path = parse_string_lem (env "secret_mount_path");
                    },
                  ),
                )
              ]
        ]
