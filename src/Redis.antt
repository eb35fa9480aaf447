-- ===== src/Redis.antt =====
-- What the program uses of go-redis, on a server with the state `S`: the transaction of an INCR and an
-- EXPIRE (the counter, or 0 if it fails), TTL (none if it fails) and SETEX. Durations are seconds.
use go_notes_api.Base.{Bool, String, Option}
use go_notes_api.Config.{Config}
use go_notes_api.Base.Int.{ℤ}

pub record Redis (S : Type 0) : Type 0 where
  pub incr_expire : String → ℤ → S → ℤ × S
  pub ttl : String → S → Option ℤ × S
  pub set_ex : String → String → ℤ → S → Bool × S

-- The fields of redis.Options that redisx.New sets; `tls` stands for a TLSConfig with at least TLS 1.2.
pub record Options : Type 0 where
  pub addr : String
  pub password : String
  pub db : ℤ
  pub tls : Bool

-- redisx.New, before NewClient
unfoldable pub options : {F : Type 0} → Config F → Options
options cfg = record {
  addr = cfg.redis_addr;
  password = cfg.redis_pass;
  db = cfg.redis_db;
  tls = cfg.redis_tls;
}
