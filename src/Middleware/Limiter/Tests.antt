-- ===== src/Middleware/Limiter/Tests.antt =====
-- Two clients of a bucket that holds two tokens.
use go_notes_api.Base.{
  ◌≡◌, refl, ℕ, ◌-◌, ltb, true, false, List, [], ◌∷◌, String, eq_of_text, first_where, update_where,
}
use go_notes_api.Base.Int.{ℤ, pos}
use go_notes_api.Middleware.Limiter.{Bucket, get, allow_at}
use go_notes_api.Middleware.Limiter.Buckets.{
  bucket_of, answers, answers_alone, answers-answers_alone,
}

abbrev two_tokens : Bucket ℕ
two_tokens = record { fresh = 2; allow = λ now n. (ltb 0 n, n - 1) }

abbrev calls : List (String × ℤ)
calls = ("a", pos 1) ∷ ("b", pos 2) ∷ ("a", pos 3) ∷ ("a", pos 4) ∷ []

limited : answers two_tokens "a" calls [] ≡ true ∷ true ∷ false ∷ []
unfolding answers get allow_at first_where update_where
limited = refl

answers-answers_alone_example :
    answers two_tokens "a" calls []
    ≡ answers_alone two_tokens "a" calls (bucket_of two_tokens "a" [])
answers-answers_alone_example = answers-answers_alone two_tokens "a" calls []
