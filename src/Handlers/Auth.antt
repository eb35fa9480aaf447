-- ===== src/Handlers/Auth.antt =====
-- internal/handlers/auth.go: register, login, refresh and logout. `now` is the time of the request,
-- `jti` are the 16 bytes of randID, `b` the 32 bytes of a new refresh token.
pub mod Sessions
pub mod Accounts
pub mod Keeping
pub mod Limits
mod Tests
use Prim.Native.String.{◌++◌}
use go_notes_api.Base.{
  ◌≡◌, ◌<◌, length, ◌&&◌, Bool, true, false, not, ℕ, none, some, Option, List, [], ◌∷◌, String,
  Result, ok, err, Call, pure, ◌>>=◌, ◌>>◌, on_result, ◌==◌, eq_of_text, if◌then◌else◌,
}
use go_notes_api.Base.Int.{ℤ, pos, int_lt, ◌-ℤ◌, ◌+ℤ◌}
use go_notes_api.Base.Text.{hex, format_int, utf8}
use go_notes_api.Schema.{Db}
use go_notes_api.Http.{encoded, Request, Response, empty_response, set_header, http_error, bearer}
use go_notes_api.Errors.{app, unauthorized, too_many, write, ErrorJson}
use go_notes_api.Sql.{Mysql, SqlError, no_rows}
use go_notes_api.Redis.{Redis}
use go_notes_api.World.{World, on_db, on_store}
use go_notes_api.Brute
use go_notes_api.Jti
use go_notes_api.Jwt.{Claims, Jwt}
use go_notes_api.Jwt.Keys.{Keys, secret_for, signing_secret}
use go_notes_api.Repos.RefreshTokens
use go_notes_api.Repos.RefreshTokens.{Rotation}
use go_notes_api.Repos.Users
use go_notes_api.Repos.Roles

-- type creds
pub record Creds : Type 0 where
  pub email : String
  pub password : String

-- What the handlers use of encoding/json, go-playground/validator and bcrypt, and of the tables of
-- Unicode. `left_refresh` is what Decode leaves in the field Refresh, whether it answers an error or not. `valid` is the check of the tags; `salt` is what bcrypt draws at random. bcrypt hashes 72
-- bytes at most, and answers an error for a longer password; no password matches an empty hash.
pub record AuthCodec : Type 0 where
  pub decode_creds : List ℕ → Option Creds
  pub decode_refresh : List ℕ → Option String
  pub left_refresh : List ℕ → String
  pub left_decoded :
      (bytes : List ℕ) (token : String)
      → decode_refresh bytes ≡ some token
      → left_refresh bytes ≡ token
  pub valid : Creds → Bool
  pub hash_password : List ℕ → String → Option String
  pub same_password : String → String → Bool
  pub same_hashed :
      (salt : List ℕ) (password hash : String)
      → hash_password salt password ≡ some hash
      → same_password hash password ≡ true
  pub too_long :
      (salt : List ℕ) (password : String)
      → 72 < length (utf8 password)
      → hash_password salt password ≡ none
  pub empty_hash : (password : String) → same_password "" password ≡ false
  pub to_lower : String → String
  pub id_json : ℤ → String
  pub tokens_json : String → String → String
  pub error_json : ErrorJson

-- config.Config, the fields that the handlers read; durations are seconds.
pub record AuthConfig : Type 0 where
  pub jwt_ttl : ℤ
  pub jwt_issuer : String
  pub jwt_audience : String
  pub refresh_ttl : ℤ

-- The claims that Login and Refresh put into an access token.
abbrev pub access_claims : AuthConfig → ℤ → ℤ → List ℕ → Claims
access_claims cfg uid now jti = record {
  sub = some uid;
  exp = some (now +ℤ cfg.jwt_ttl);
  iat = now;
  iss = cfg.jwt_issuer;
  aud = cfg.jwt_audience;
  jti = hex jti;
}

module _ (codec : AuthCodec) (mysql : Mysql) where
  open codec use {
    decode_creds, decode_refresh, left_refresh, valid, hash_password, same_password, to_lower,
    id_json, tokens_json, error_json,
  }

  -- `hash, _ := bcrypt.GenerateFromPassword(…)`: nil for an error, which is not looked at
  unfoldable pub stored_hash : List ℕ → String → String
  stored_hash salt password = elim (hash_password salt password) [ none ↦ "" | some hash ↦ hash ]

  unfoldable pub register : List ℕ → Request → Call Db Response
  register salt r = elim (decode_creds r.body) [
    | none ↦ pure (http_error "bad json" 400)
    | some input ↦ if not (valid input) then pure (http_error "invalid" 422) else do
      created ← Users.create mysql input.email (stored_hash salt input.password)
      on_result created (λ _. pure (http_error "conflict" 409))
          λ id. do Roles.assign mysql id "user"; pure (encoded (id_json id))
  ]

  module _ (cfg : AuthConfig) (jwt : Jwt) (keys : Keys) where
    -- The signature of an access token.
    unfoldable pub access_token : ℤ → ℤ → List ℕ → String
    access_token uid now jti =
        jwt.sign keys.current (signing_secret keys) (access_claims cfg uid now jti)

    -- From `h.Users.FindByEmail` on.
    unfoldable pub sign_in : Creds → ℤ → List ℕ → List ℕ → Call Db Response
    sign_in input now jti b = do
      found ← Users.find_by_email mysql input.email
      on_result found (λ _. pure (http_error "unauthorized" 401))
          λ u.
            if not (same_password u.password_hash input.password)
            then pure (http_error "unauthorized" 401)
            else do
              issued ← RefreshTokens.issue mysql b u.id (now +ℤ cfg.refresh_ttl)
              pure (
                  on_result issued (λ _. http_error "server" 500)
                    (λ rt. encoded (tokens_json (access_token u.id now jti) rt)))

    -- `email_limiter` is what the limiter of NewEmailLimiter answers to this request.
    unfoldable pub login :
        {S : Type 0}
        → Redis S
        → (String → Bool)
        → Request
        → ℤ
        → List ℕ
        → List ℕ
        → Call (World S) Response
    login redis email_limiter r now jti b = elim (decode_creds r.body) [
      | none ↦ pure (http_error "bad json" 400)
      | some input ↦
          if not (email_limiter input.email) then pure (http_error "rate limit" 429) else do
            verdict ← on_store (Brute.allow redis to_lower (pos 10) (pos 300) r input.email)
            if verdict.allowed
                then on_db (sign_in input now jti b)
                else pure (
                    set_header "Retry-After" (format_int verdict.ttl)
                      (write error_json r (app too_many)))
    ]

    -- What Refresh makes of the result of UseAndRotate.
    unfoldable pub rotated : ℤ → List ℕ → Result SqlError Rotation → Response
    rotated now jti (err no_rows) = http_error "invalid" 401
    rotated now jti (err _) = http_error "server" 500
    rotated now jti (ok rot) =
        if rot.reused
        then http_error "token_reused_detected" 401
        else encoded (tokens_json (access_token rot.uid now jti) rot.new_tok)

    unfoldable pub refresh : Request → ℤ → List ℕ → List ℕ → Call Db Response
    refresh r now jti b = elim (decode_refresh r.body) [
      | none ↦ pure (http_error "bad json" 400)
      | some token ↦ do
        res ← RefreshTokens.use_and_rotate mysql token (now +ℤ cfg.refresh_ttl) b now
        pure (rotated now jti res)
    ]

    -- keyFn: the secret for the `kid` of a token, if it is there, else the current one
    unfoldable pub key_fn : String → Option String
    key_fn kid = if kid == "" then secret_for keys keys.current else elim (secret_for keys kid) [
      | some sec ↦ some sec
      | none ↦ secret_for keys keys.current
    ]

    -- `_ = json.NewDecoder(r.Body).Decode(&in); if in.Refresh != "" { _ = h.Tokens.Revoke(…) }`; Redis has kept the id of the access token by then.
    unfoldable pub revoke_refresh : Request → Call Db Response
    revoke_refresh r =
        if left_refresh r.body == ""
        then pure (empty_response 204)
        else do RefreshTokens.revoke mysql (left_refresh r.body); pure (empty_response 204)

    -- The claims that Logout reads: without audience and issuer checks.
    unfoldable pub logout : {S : Type 0} → Redis S → String → Request → ℤ → Call (World S) Response
    logout redis prefix r now = elim (bearer r) [
      | none ↦ pure (write error_json r (app unauthorized))
      | some raw ↦ elim (jwt.parse key_fn none none now raw) [
        | none ↦ pure (write error_json r (app unauthorized))
        | some claims ↦
            let left = elim claims.exp [ none ↦ pos 0 | some exp ↦ exp ] -ℤ now in
            let ttl = if int_lt left (pos 0) then pos 0 else left in
            if claims.jti == ""
            then on_db (revoke_refresh r)
            else do on_store (Jti.revoke redis prefix claims.jti ttl); on_db (revoke_refresh r)
      ]
    ]
