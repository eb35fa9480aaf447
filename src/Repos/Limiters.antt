-- ===== src/Repos/Limiters.antt =====
-- internal/repos/limiters.go: a token bucket for each email address, in a map that only grows.
use go_notes_api.Base.{
  Bool, none, some, List, ◌∷◌, String, Call, ◌==◌, eq_of_text, first_where, update_where,
}
use go_notes_api.Base.Int.{ℤ}
use go_notes_api.Middleware.Limiter.{Bucket}

-- The function of NewEmailLimiter; `fresh` is rate.NewLimiter(rate.Every(2*time.Second), 3)
unfoldable pub email_limiter : {L : Type 0} → Bucket L → String → ℤ → Call (List (String × L)) Bool
email_limiter bucket key now entries = elim (first_where (λ e. e.0 == key) entries) [
  | none ↦ let (passed, lim) = bucket.allow now bucket.fresh in (passed, (key, lim) ∷ entries)
  | some e ↦
      let (passed, lim) = bucket.allow now e.1 in
      (passed, update_where (λ e. e.0 == key) (λ e. (e.0, lim)) entries)
]
