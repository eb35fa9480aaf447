-- ===== src/Middleware/RedisLimit.antt =====
-- internal/middleware/rlredis.go: a counter of requests in Redis, with a window that EXPIRE sets.
pub mod Window
mod Tests
use Prim.Native.String.{◌++◌}
use go_notes_api.Base.{
  Bool, none, some, Option, List, [], ◌∷◌, String, ℕ, Call, pure, ◌>>=◌, ◌==◌, eq_of_text,
  if◌then◌else◌,
}
use go_notes_api.Base.Int.{ℤ, int_lt}
use go_notes_api.Base.Text.{before_char}
use go_notes_api.Http.{Request, Response, Handler, http_error, set_header}
use go_notes_api.Redis.{Redis}
use go_notes_api.Net.{Net}
use go_notes_api.World.{World, on_store}

-- type RedisLimiter: `allow_net` is none for nil
pub record RedisLimiter : Type 0 where
  pub limit : ℤ
  pub window : ℤ
  pub key_fn : Request → String
  pub allow_net : Option (List ℕ → Bool)

module _ (net : Net) where
  open net use {split_host, parse_ip, parse_cidr}

  -- NewRedisLimiter
  unfoldable pub new_redis_limiter : ℤ → ℤ → (Request → String) → String → RedisLimiter
  new_redis_limiter limit window key_fn allow_cidr = record {
    limit = limit;
    window = window;
    key_fn = key_fn;
    allow_net = if allow_cidr == "" then none else parse_cidr allow_cidr;
  }

  -- X-Real-IP, or the first of X-Forwarded-For (44 is ','), or the host of the connection
  unfoldable pub ip_text : Request → String
  ip_text r =
      let real = r.header "X-Real-IP" in
      let forwarded = r.header "X-Forwarded-For" in
      let first = if forwarded == "" then "" else before_char 44 forwarded in
      let h = if real == "" then first else real in if h == "" then split_host r.remote_addr else h

  -- clientIP
  unfoldable pub client_ip : Request → Option (List ℕ)
  client_ip r = parse_ip (ip_text r)

  -- IPKey
  unfoldable pub ip_key : Request → String
  ip_key r = "ip:" ++ ip_text r

  -- Whether the client stands in the network that is not limited.
  unfoldable pub is_allowed : RedisLimiter → Request → Bool
  is_allowed l r = elim l.allow_net [
    | none ↦ Bool.false
    | some network ↦ elim (client_ip r) [ none ↦ Bool.false | some ip ↦ network ip ]
  ]

  -- RedisLimiter.Middleware
  unfoldable pub redis_limit :
      {S : Type 0} → Redis S → RedisLimiter → Handler (World S) → Handler (World S)
  redis_limit redis l next_handler r = if is_allowed l r then next_handler r else do
    v ← on_store (redis.incr_expire ("rl:" ++ l.key_fn r) l.window)
    if int_lt l.limit v
        then pure (set_header "Retry-After" "1" (http_error "rate_limited" 429))
        else next_handler r
