-- ===== src/Middleware/Limiter.antt =====
-- internal/middleware/ratelimit.go: a token bucket (golang.org/x/time/rate) for each client, in a map.
-- `now` is time.Now() in nanoseconds.
pub mod Buckets
mod Tests
use go_notes_api.Base.{
  Bool, not, true, false, none, some, Option, List, [], ◌∷◌, String, Call, pure, ◌>>=◌, ◌==◌,
  eq_of_text, if◌then◌else◌, first_where, update_where, delete_where,
}
use go_notes_api.Base.Int.{ℤ, int_lt, ◌-ℤ◌}
use go_notes_api.Http.{Request, Response, Handler, http_error, set_header}

-- rate.NewLimiter(r, burst) as `fresh`, and Allow at a time
pub record Bucket (L : Type 0) : Type 0 where
  pub fresh : L
  pub allow : ℤ → L → Bool × L

-- type entry, with its key
pub record Entry (L : Type 0) : Type 0 where
  pub key : String
  pub lim : L
  pub ts : ℤ

module _ {L : Type 0} (bucket : Bucket L) where
  open bucket use {fresh, allow}

  -- Limiter.get: the bucket of the key, which is marked as used or new
  unfoldable pub get : String → ℤ → List (Entry L) → L × List (Entry L)
  get k now entries = elim (first_where (λ e. e.key == k) entries) [
    | none ↦ (fresh, record { key = k; lim = fresh; ts = now } ∷ entries)
    | some e ↦ (e.lim, update_where (λ e. e.key == k) (λ e. record e { ts = now }) entries)
  ]

  -- l.get(host).Allow(): the map holds the bucket by reference
  unfoldable pub allow_at : String → ℤ → Call (List (Entry L)) Bool
  allow_at k now entries =
      let (lim, marked) = get k now entries in
      let (passed, lim') = allow now lim in
      (passed, update_where (λ e. e.key == k) (λ e. record e { lim = lim' }) marked)

  -- Limiter.Cleanup
  unfoldable pub cleanup : ℤ → ℤ → List (Entry L) → List (Entry L)
  cleanup ttl now entries = delete_where (λ e. int_lt e.ts (now -ℤ ttl)) entries

  -- The host of net.SplitHostPort, or the whole address
  unfoldable pub host_of : (String → String) → Request → String
  host_of split_host r =
      if split_host r.remote_addr == "" then r.remote_addr else split_host r.remote_addr

  -- Limiter.Middleware, over a state that holds the map
  unfoldable pub limit : (String → String) → ℤ → Handler (List (Entry L)) → Handler (List (Entry L))
  limit split_host now next_handler r = do
    passed ← allow_at (host_of split_host r) now
    if passed
        then next_handler r
        else pure (set_header "Retry-After" "1" (http_error "rate limit" 429))
