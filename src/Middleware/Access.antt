-- ===== src/Middleware/Access.antt =====
-- internal/middleware/auth.go and roles.go: which requests reach the handler.
use go_notes_api.Base.{
  ◌≡◌, ◌≢◌, refl, ap, true, false, ℕ, ◌<◌, ◌^◌, ◌⊎◌, inl, inr, some, List, [], ◌∷◌, String, ok,
  arith, Option-cases, Bool-cases, eq_of_text, eq_iff,
}
use go_notes_api.Base.Int.{int_lt-asym, ℤ, pos, int_lt, ◌+ℤ◌}
use go_notes_api.Base.Keys.{IsKeyed}
use go_notes_api.Schema.{Db}
use go_notes_api.Http.{Handler, Request, http_error, bearer}
use go_notes_api.Sql.{Mysql, called}
use go_notes_api.Jwt.{Jwt, Claims, IsVerified}
use go_notes_api.Jwt.Keys.{Keys, AnyOf, secret_for, signing_secret}
use go_notes_api.Repos.Roles
use go_notes_api.Repos.Roles.Grants.{clash, assign-has, unassign-has}
use go_notes_api.Handlers.Auth.{AuthCodec, AuthConfig, access_claims, access_token}
use go_notes_api.Middleware.{
  key_fn, is_late, admit, auth_with, any_role, require_role_on, require_role,
}

module _ (jwt : Jwt) (any_of : AnyOf) (keys : Keys) (cfg : AuthConfig) {S : Type 0}
    (next_handler : Handler S) where
  -- The access token that login and refresh sign for a user, sent as a Bearer token before it
  -- expires, lets the request through as that user's, if AuthWith knows the secret under the kid
  -- that the token was signed with, which is not empty, and Parse verifies such a token. (The id
  -- and the time of expiry are below 2^53.)
  pub access_token-auth_with :
      (codec : AuthCodec) (mysql : Mysql) (signer : Keys) (uid exp : ℕ) (made now : ℤ)
      (jti : List ℕ) (r : Request) (s : S)
      → IsVerified jwt signer.current (signing_secret signer) (access_claims cfg (pos uid) made jti)
      → bearer r ≡ some (access_token codec mysql cfg jwt signer (pos uid) made jti)
      → secret_for keys signer.current ≡ some (signing_secret signer)
      → signer.current ≢ ""
      → uid < 2 ^ 53
      → made +ℤ cfg.jwt_ttl ≡ pos exp
      → exp < 2 ^ 53
      → int_lt now (pos exp) ≡ true
      → auth_with jwt any_of keys cfg now next_handler r s
        ≡ next_handler (record r { user = some (pos uid) }) s
  unfolding auth_with admit access_token key_fn
  access_token-auth_with codec mysql signer uid exp made now jti r s verified borne known named
        small expires near live =
      let keyed : key_fn jwt any_of keys cfg signer.current ≡ some (signing_secret signer) =
        ground (arith, eq_iff signer.current "") in
      let parsed =
        verified (key_fn jwt any_of keys cfg) now uid exp refl small (ap some expires) near keyed
          live in
      ground (arith, int_lt-asym now (pos exp) live)

  -- AuthWith either answers 401 and leaves the state as it was, or calls the handler as the user
  -- whose id is the `sub` of a token in the request that Parse accepts at that time.
  pub auth_with-cases :
      (now : ℤ) (r : Request) (s : S)
      → (((auth_with jwt any_of keys cfg now next_handler r s).0.status ≡ 401)
          × ((auth_with jwt any_of keys cfg now next_handler r s).1 ≡ s))
        ⊎ ((raw : String) × (claims : Claims) × (uid : ℤ) × (bearer r ≡ some raw)
            × (jwt.parse
                  (key_fn jwt any_of keys cfg)
                  (some cfg.jwt_audience)
                  (some cfg.jwt_issuer)
                  now
                  raw
                ≡ some claims)
            × (claims.sub ≡ some uid)
            × (auth_with jwt any_of keys cfg now next_handler r s
                ≡ next_handler (record r { user = some uid }) s))
  unfolding auth_with admit
  auth_with-cases now r s = elim (Option-cases (bearer r)) [
    | inl missing ↦ inl (ground arith, ground arith)
    | inr (raw, borne) ↦
        elim (Option-cases (
          jwt.parse (key_fn jwt any_of keys cfg) (some cfg.jwt_audience) (some cfg.jwt_issuer) now
            raw)) [
              | inl refused ↦ inl (ground arith, ground arith)
              | inr (claims, parsed) ↦ elim (Bool-cases (is_late now claims)) [
                | inl late ↦ inl (ground arith, ground arith)
                | inr live ↦ elim (Option-cases claims.sub) [
                  | inl nobody ↦ inl (ground arith, ground arith)
                  | inr (uid, named) ↦ inr (raw, claims, uid, borne, parsed, named, ground arith)
                ]
              ]
            ]
  ]

module _ (mysql : Mysql) (uid : ℤ) (role : String) (next_handler : Handler Db) (r : Request)
    (db : Db) (user : r.user ≡ some uid) (healthy : (n : ℕ) → db.fails n ≡ false) where
  -- While no statement fails, RequireRole calls the handler for a user to whom the role was
  -- assigned, on the tables as the assignment left them.
  pub assign-require_role :
      (Roles.assign mysql uid role db).0 ≡ ok tt
      → (after : Db) × (after.tables ≡ (Roles.assign mysql uid role db).1.tables)
        × (require_role mysql (role ∷ []) next_handler r (Roles.assign mysql uid role db).1
            ≡ next_handler r after)
  unfolding require_role_on any_role Roles.has
  assign-require_role done =
      let granted = assign-has mysql uid role db healthy done in
      (called (Roles.assign mysql uid role db).1, refl, ground arith)

  -- While no statement fails and role names are unique, RequireRole answers 403 to a user from whom
  -- the role was taken, and the tables stay as they are.
  pub unassign-require_role :
      IsKeyed (clash mysql) db.roles
      → (Roles.unassign mysql uid role db).0 ≡ ok tt
      → ((require_role mysql (role ∷ []) next_handler r (Roles.unassign mysql uid role db).1).0
          ≡ http_error "forbidden" 403)
        × ((require_role mysql
              (role ∷ [])
              next_handler
              r
              (Roles.unassign mysql uid role db).1).1.tables
            ≡ (Roles.unassign mysql uid role db).1.tables)
  unfolding require_role_on any_role Roles.has
  unassign-require_role keyed done =
      let lost = unassign-has mysql uid role db healthy keyed done in (ground arith, ground arith)
