-- ===== src/Middleware/RedisLimit/Window.antt =====
-- internal/middleware/rlredis.go, Middleware: how many requests a counter lets through.
use Prim.Native.String.{◌++◌}
use go_notes_api.Base.{
  ◌≡◌, ◌≢◌, refl, Bool, true, false, some, List, [], ◌∷◌, String, ℕ, suc, ◌+◌, ◌-◌, min, arith,
  length, All, ◌==◌, eq_of_text, eq_iff, eq_of_nat, if◌then◌else◌, Bool-cases, inl, inr, ◌⊎◌,
}
use go_notes_api.Base.Int.{ℤ, pos, int_lt}
use go_notes_api.Http.{Request, Handler}
use go_notes_api.Redis.{Redis}
use go_notes_api.Net.{Net}
use go_notes_api.World.{World}
use go_notes_api.Middleware.RedisLimit.{
  RedisLimiter, new_redis_limiter, ip_text, client_ip, is_allowed, redis_limit,
}

-- INCR in Redis: it answers the counter, which is one above what it was, while the key does not expire.
abbrev pub IsCounter : {S : Type 0} → Redis S → (String → S → ℕ) → Type 0
IsCounter {S} redis count =
    (k : String) (window : ℤ) (s : S)
    → ((redis.incr_expire k window s).0 ≡ pos (count k s + 1))
      × (count k (redis.incr_expire k window s).1 ≡ count k s + 1)

-- The number of requests, one after another, that are not answered with 429.
unfoldable pub let_in : {S : Type 0} → Handler S → List Request → S → ℕ
let_in handler [] s = 0
let_in handler (r ∷ rs) s =
    let (res, s') = handler r s in
    let later = let_in handler rs s' in if res.status == 429 then later else suc later

module _ (net : Net) {S : Type 0} (redis : Redis S) (count : String → S → ℕ)
    (counter : IsCounter redis count) (l : RedisLimiter) (limit : ℕ) (limited : l.limit ≡ pos limit)
    (k : String) (next_handler : Handler (World S))
    (answers : (r : Request) (w : World S) → ((next_handler r w).0.status == 429) ≡ false)
    (spares : (r : Request) (w : World S)
      → count ("rl:" ++ k) (next_handler r w).1.store ≡ count ("rl:" ++ k) w.store) where
  -- If INCR counts each request of a key, which does not expire meanwhile, and the handler answers
  -- no 429 and leaves the counter alone: of a list of requests with that key, none from the network
  -- that is let through, the number that is not answered with 429 is the smaller of their number
  -- and what the counter leaves of the limit.
  pub let_in-redis_limit :
      (rs : List Request) (w : World S)
      → All (λ r. (is_allowed net l r ≡ false) × (l.key_fn r ≡ k)) rs
      → let_in (redis_limit net redis l next_handler) rs w
        ≡ min (length rs) (limit - count ("rl:" ++ k) w.store)
  unfolding let_in redis_limit int_lt
  let_in-redis_limit [] w h = ground arith
  let_in-redis_limit (r ∷ rs) w ((outside, keyed), hs) =
      let (answered, counted) = counter ("rl:" ++ k) l.window w.store in
      let s = (redis.incr_expire ("rl:" ++ k) l.window w.store).1 in
      elim (Bool-cases (int_lt (pos limit) (pos (count ("rl:" ++ k) w.store + 1)))) [
        | inl over ↦ let later = let_in-redis_limit rs (record w { store = s }) hs in ground arith
        | inr under ↦
            let later = let_in-redis_limit rs (next_handler r (record w { store = s })).1 hs in
            let kept = spares r (record w { store = s }) in
            let other = answers r (record w { store = s }) in ground arith
      ]

-- The address that a request claims in X-Real-IP.
module _ (net : Net) {S : Type 0} (redis : Redis S) (next_handler : Handler (World S)) where
  -- If a network that is let through is given and parses, a request whose X-Real-IP header names an
  -- address in it is passed on without being counted, whatever its connection and the counter are.
  pub redis_limit-claimed_ip :
      (limit window : ℤ) (key_fn : Request → String) (allow_cidr : String) (network : List ℕ → Bool)
      (ip : List ℕ) (r : Request) (w : World S)
      → allow_cidr ≢ ""
      → net.parse_cidr allow_cidr ≡ some network
      → r.header "X-Real-IP" ≢ ""
      → net.parse_ip (r.header "X-Real-IP") ≡ some ip
      → network ip ≡ true
      → redis_limit net redis
          (new_redis_limiter net limit window key_fn allow_cidr)
          next_handler
          r
          w
        ≡ next_handler r w
  unfolding redis_limit new_redis_limiter is_allowed client_ip ip_text
  redis_limit-claimed_ip limit window key_fn allow_cidr network ip r w set parsed claimed read
        inside =
      ground (arith, eq_iff allow_cidr "", eq_iff (r.header "X-Real-IP") "")

  -- A request is answered with 429, or passed on, with the database and the metrics as they were.
  pub redis_limit-cases :
      (l : RedisLimiter) (r : Request) (w : World S)
      → (((redis_limit net redis l next_handler r w).0.status ≡ 429)
          × ((redis_limit net redis l next_handler r w).1.db ≡ w.db)
          × ((redis_limit net redis l next_handler r w).1.observed ≡ w.observed))
        ⊎ ((reached : World S) × (reached.db ≡ w.db)
            × (reached.observed ≡ w.observed)
            × (redis_limit net redis l next_handler r w ≡ next_handler r reached))
  unfolding redis_limit
  redis_limit-cases l r w = elim (Bool-cases (is_allowed net l r)) [
    | inl allowed ↦ inr (w, refl, refl, ground arith)
    | inr other ↦
        let counted = redis.incr_expire ("rl:" ++ l.key_fn r) l.window w.store in
        elim (Bool-cases (int_lt l.limit counted.0)) [
          | inl over ↦ inl (ground arith, ground arith, ground arith)
          | inr under ↦ inr (record w { store = counted.1 }, refl, refl, ground arith)
        ]
  ]
