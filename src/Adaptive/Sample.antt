-- ===== src/Adaptive/Sample.antt =====
-- A small cache server and clock, for the tests: it takes every policy, reports a miss ratio for
-- each, and the clock moves on by a second at each reading.
use faas_provider.Prelude.{ℕ, ◌+◌, ◌^◌, String, [], ◌∷◌, none, str_eq, if◌then◌else◌, ok}
use faas_provider.Float.{Decimal, decimal_float}
use faas_provider.Adaptive.Client.{PaperStatus, World}

pub record Server : Type 0 where
  pub current : String
  pub time : ℕ
  pub lru_misses : Decimal

abbrev pub report : Server → PaperStatus Decimal
report s = record {
  policies = "lfu" ∷ "lru" ∷ [];
  policy = s.current;
  miss_ratio = if str_eq s.current "lru" then s.lru_misses else decimal_float.decimal 3 1;
  max_size = 10 ^ 6;
  used_size = 1000;
  num_objects = 10;
  total_gets = 100;
  total_sets = 20;
}

instance abbrev pub server_world : World Decimal Server
server_world = record {
  status = λ s. (ok (report s), s);
  set_policy = λ name s. (none, record s { current = name });
  now = λ s. (s.time, record s { time = s.time + 10 ^ 9 });
  sleep = λ n s. record s { time = s.time + n };
}

abbrev pub server : Server
server = record { current = "lru"; time = 0; lru_misses = decimal_float.decimal 5 1 }
