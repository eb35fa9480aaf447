-- ===== src/Middleware.antt =====
-- internal/middleware/auth.go and roles.go: who may call a handler. A handler that is wrapped is a
-- function of the request, since AuthWith puts the user into it. `S` is the state it works on.
pub mod Access
pub mod Headers
pub mod Allow
pub mod Audit
pub mod Metrics
pub mod Logger
pub mod RedisLimit
pub mod Limiter
pub mod Signing
mod Tests
use go_notes_api.Base.{
  Bool, true, false, none, some, Option, List, [], ◌∷◌, String, Call, pure, ◌>>=◌, on_result, ◌==◌,
  eq_of_text, if◌then◌else◌,
}
use go_notes_api.Base.Int.{ℤ, int_lt}
use go_notes_api.Schema.{Db}
use go_notes_api.Http.{Handler, Request, Response, http_error, bearer}
use go_notes_api.Sql.{Mysql}
use go_notes_api.Jwt.{Jwt, Claims}
use go_notes_api.Jwt.Keys.{Keys, AnyOf, secret_for}
use go_notes_api.Repos.Roles
use go_notes_api.Handlers.Auth.{AuthConfig}

-- `exp, ok := claims["exp"].(float64); ok && time.Now().Unix() > int64(exp)`
abbrev pub is_late : ℤ → Claims → Bool
is_late now claims = elim claims.exp [ none ↦ false | some exp ↦ int_lt exp now ]

module _ (jwt : Jwt) (any_of : AnyOf) (keys : Keys) (cfg : AuthConfig) where
  abbrev pub any_secret : Option String
  any_secret = elim (any_of keys.set) [ none ↦ none | some entry ↦ some entry.1 ]

  -- The key function: the secret for the kid, if it is there, else any
  unfoldable pub key_fn : String → Option String
  key_fn kid =
      if kid == ""
      then any_secret
      else elim (secret_for keys kid) [ none ↦ any_secret | some sec ↦ some sec ]

  -- From the claims on.
  unfoldable pub admit : {S : Type 0} → ℤ → Handler S → Request → Claims → Call S Response
  admit now next_handler r claims =
      if is_late now claims then pure (http_error "expired" 401) else elim claims.sub [
        | none ↦ pure (http_error "unauthorized" 401)
        | some uid ↦ next_handler (record r { user = some uid })
      ]

  -- AuthWith, where `keys` is what Load answered
  unfoldable pub auth_with : {S : Type 0} → ℤ → Handler S → Handler S
  auth_with now next_handler r = elim (bearer r) [
    | none ↦ pure (http_error "unauthorized" 401)
    | some raw ↦ elim (jwt.parse key_fn (some cfg.jwt_audience) (some cfg.jwt_issuer) now raw) [
      | none ↦ pure (http_error "unauthorized" 401)
      | some claims ↦ admit now next_handler r claims
    ]
  ]

module _ (mysql : Mysql) where
  -- The loop of RequireRole; an error of Has counts as a no.
  unfoldable pub any_role : ℤ → List String → Call Db Bool
  any_role uid [] = pure false
  any_role uid (role ∷ roles) = do
    let rest = any_role uid roles
    found ← Roles.has mysql uid role
    on_result found (λ _. rest) (λ yes. if yes then pure true else rest)

  -- RequireRole, on a state that holds the database: `run` runs a query on it
  unfoldable pub require_role_on :
      {T : Type 0} → (Call Db Bool → Call T Bool) → List String → Handler T → Handler T
  require_role_on run roles next_handler r = elim r.user [
    | none ↦ pure (http_error "unauthorized" 401)
    | some uid ↦ do
      allowed ← run (any_role uid roles)
      if allowed then next_handler r else pure (http_error "forbidden" 403)
  ]

  abbrev pub require_role : List String → Handler Db → Handler Db
  require_role = require_role_on (λ m. m)
