-- ===== src/Handlers/Auth/Limits.antt =====
-- internal/handlers/auth.go, Login: the email limiter and the attempt counter before the sign-in.
use go_notes_api.Base.{
  ◌≡◌, true, false, Bool, some, List, ℕ, String, arith, Bool-cases, ◌⊎◌, inl, inr,
}
use go_notes_api.Base.Int.{ℤ, pos, int_lt}
use go_notes_api.Http.{Request}
use go_notes_api.Errors
use go_notes_api.Sql.{Mysql}
use go_notes_api.Redis.{Redis}
use go_notes_api.Jwt.{Jwt}
use go_notes_api.Jwt.Keys.{Keys}
use go_notes_api.Brute.{key, allow}
use go_notes_api.World.{World}
use go_notes_api.Handlers.Auth.{AuthCodec, AuthConfig, Creds, login, sign_in}

module _ (codec : AuthCodec) (mysql : Mysql) (cfg : AuthConfig) (jwt : Jwt) (keys : Keys)
    {S : Type 0} (redis : Redis S) (email_limiter : String → Bool) (r : Request) (input : Creds)
    (now : ℤ) (jti b : List ℕ) (w : World S)
    (decoded : codec.decode_creds r.body ≡ some input) where
  -- If the credentials of a login decode and it is answered with 200, the email limiter has let it
  -- pass, the counter of its address and email is not above 10, and the answer is the one of the
  -- sign-in.
  pub login_within_limits :
      (login codec mysql cfg jwt keys redis email_limiter r now jti b w).0.status ≡ 200
      → (email_limiter input.email ≡ true)
        × (int_lt
              (pos 10)
              (redis.incr_expire (key redis codec.to_lower r input.email) (pos 300) w.store).0
            ≡ false)
        × ((login codec mysql cfg jwt keys redis email_limiter r now jti b w).0
            ≡ (sign_in codec mysql cfg jwt keys input now jti b w.db).0)
  unfolding login allow Errors.write
  login_within_limits h = (ground arith, ground arith, ground arith)

  -- If the credentials of a login decode, and the email limiter refuses it or the counter of its
  -- address and email is above 10, it is answered with 429 and the database stays as it is.
  pub login_over_limit :
      (email_limiter input.email ≡ false)
        ⊎ (int_lt
              (pos 10)
              (redis.incr_expire (key redis codec.to_lower r input.email) (pos 300) w.store).0
            ≡ true)
      → ((login codec mysql cfg jwt keys redis email_limiter r now jti b w).0.status ≡ 429)
        × ((login codec mysql cfg jwt keys redis email_limiter r now jti b w).1.db ≡ w.db)
  unfolding login allow Errors.write
  login_over_limit (inl refused) = (ground arith, ground arith)
  login_over_limit (inr over) = elim (Bool-cases (email_limiter input.email)) [
    | inl passed ↦ (ground arith, ground arith)
    | inr refused ↦ (ground arith, ground arith)
  ]
