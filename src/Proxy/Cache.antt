-- ===== src/Proxy/Cache.antt =====
-- types/cache.go: the two clients that a cached flow's answers may be stored with. Contexts are
-- left out.
pub mod Expiry
use faas_provider.Prelude.{ℕ, ℤ, Bool, Option, none, some, String, Result, ok, err, Error}
use faas_provider.Proxy.Flow.{Reply, Services}

-- `*redis.Client`: `Get(...).Bytes()`, whose nil bytes are none, and `SetEx(...).Err()`.
pub record RedisClient (S : Type 0) : Type 0 where
  pub get : String → S → Result (Option String) × S
  pub set_ex : String → String → ℤ → S → Option Error × S

-- `*paperClient.PaperClient`, whose times to live are seconds, and `uint32(ttl.Seconds())`.
pub record PaperClient (S : Type 0) : Type 0 where
  pub get : String → S → Result String × S
  pub set : String → String → ℕ → S → Option Error × S
  pub seconds : ℤ → ℕ

-- The bytes of a value are not nil.
abbrev pub present : Result String → Result (Option String)
present (err e) = err e
present (ok bytes) = ok (some bytes)

module _ {S : Type 0} where
  unfoldable pub redis_get : RedisClient S → String → S → Result (Option String) × S
  redis_get client key s = client.get key s

  unfoldable pub redis_set_ex : RedisClient S → String → String → ℤ → S → Option Error × S
  redis_set_ex client key bytes ttl s = client.set_ex key bytes ttl s

  unfoldable pub paper_get : PaperClient S → String → S → Result (Option String) × S
  paper_get client key s = let (found, s') = client.get key s in (present found, s')

  unfoldable pub paper_set_ex : PaperClient S → String → String → ℤ → S → Option Error × S
  paper_set_ex client key bytes ttl s = client.set key bytes (client.seconds ttl) s

  module _ (is_url : String → Bool) (post : String → String → S → Option Reply × S) where
    -- What a handler uses with the one client or the other.
    unfoldable pub redis_services : RedisClient S → Services S
    unfolding redis_get redis_set_ex
    redis_services client = record {
      get = redis_get client;
      set_ex = redis_set_ex client;
      is_url = is_url;
      post = post;
    }

    unfoldable pub paper_services : PaperClient S → Services S
    unfolding paper_get paper_set_ex
    paper_services client = record {
      get = paper_get client;
      set_ex = paper_set_ex client;
      is_url = is_url;
      post = post;
    }
