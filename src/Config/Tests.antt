-- ===== src/Config/Tests.antt =====
-- Configurations read from small environments, with parsers that know a few texts.
use faas_provider.Prelude.{
  ◌*◌, ◌≡◌, ◌⊎◌, refl, false, some, String, str_eq, if◌then◌else◌, pos, negsuc, ok, err, Error,
  errorf, ◌&&◌,
}
use faas_provider.Float.{Decimal, decimal_float, operations}
use faas_provider.Config.{
  FaasConfig, Parsers, number, malformed, second, get_read_timeout, get_max_idle_conns,
  get_max_idle_conns_per_host, parse_int_value, parse_duration_value, parse_int_or_duration_value,
  parse_int_or_duration, parse_bool_value, parse_string, read_limit, read, read_with,
}
use faas_provider.Config.Reading.{is_ok, accepts, IsRead, read_lem}

program : Unit {0}
unfolding get_read_timeout get_max_idle_conns get_max_idle_conns_per_host parse_int_value
    parse_duration_value parse_int_or_duration_value parse_int_or_duration parse_bool_value
    parse_string read_limit read_with read operations
program = tt

abbrev unknown : Error
unknown = errorf "unknown"

abbrev parsers : Parsers
parsers = record {
  atoi = λ s.
      if str_eq s "30" then ok (pos 30) else if str_eq s "-5" then ok (negsuc 4) else err unknown;
  parse_int = λ s. if str_eq s "30" then number (pos 30) else malformed unknown;
  parse_duration = λ s. if str_eq s "1m" then ok (pos (60 * second)) else err unknown;
  whole_seconds = λ d. pos 60;
}

abbrev env : String → String
env name =
    if str_eq name "read_timeout"
    then "1m"
    else if str_eq name "write_timeout"
    then "30"
    else if str_eq name "max_idle_conns"
    then "-5"
    else if str_eq name "port"
    then "-5"
    else ""

abbrev expected : FaasConfig Decimal
expected = record {
  tcp_port = some (pos 8080);
  read_timeout = pos (60 * second);
  write_timeout = pos (30 * second);
  enable_health = false;
  enable_basic_auth = false;
  secret_mount_path = "/run/secrets/";
  max_idle_conns = negsuc 4;
  max_idle_conns_per_host = pos 1024;
  enable_caching = false;
  enable_intelligent_orchestrator = false;
  orchestrator_eval_interval = 0;
  orchestrator_stability_period = 0;
  orchestrator_switch_threshold = decimal_float.decimal 0 0;
  orchestrator_max_memory = 0;
}

reads : read parsers Decimal env ≡ ok expected
unfolding program
reads = refl

falls_back : get_max_idle_conns expected ≡ pos 1024
unfolding program
falls_back = refl

read_lem_example :
    (is_ok (read parsers Decimal env)
      ≡ (accepts parsers (env "max_idle_conns") && accepts parsers (env "max_idle_conns_per_host")))
    × (((c : FaasConfig Decimal) × (read parsers Decimal env ≡ ok c) × IsRead parsers Decimal c)
        ⊎ ((e : Error) × (read parsers Decimal env ≡ err e)))
read_lem_example = read_lem parsers Decimal env
