-- ===== src/Router/Admin.antt =====
-- internal/server/server.go, router: who reaches the handlers under /admin and /notes.
use go_notes_api.Base.{
  ◌≡◌, ◌<◌, refl, subst, Bool, true, false, none, some, Option, [], ◌∷◌, String, ok, err, Result,
  arith, ◌⊎◌, inl, inr, on_result,
}
use go_notes_api.Base.Int.{ℤ}
use go_notes_api.Schema.{Db}
use go_notes_api.Http.{Request, Response, Handler, bearer}
use go_notes_api.Jwt.{Claims}
use go_notes_api.World.{World, on_db}
use go_notes_api.Sql.{SqlError, query}
use go_notes_api.Repos.Roles
use go_notes_api.Middleware.{key_fn, any_role, require_role_on}
use go_notes_api.Middleware.Access.{auth_with-cases}
use go_notes_api.Router.{
  Route, Site, Moment, guarded, handle, healthz, readyz, info, metrics, openapi_yaml, docs,
  auth_register, auth_login, auth_refresh, auth_logout, admin_ping, admin_users, admin_roles,
  admin_audit, admin_jti, notes_list, notes_create, notes_get, notes_update, notes_delete,
}

-- The role that the group of a route asks for.
unfoldable pub role_of : Route → Option String
role_of admin_ping = some "admin"
role_of admin_users = some "admin"
role_of admin_roles = some "admin"
role_of admin_audit = some "admin"
role_of admin_jti = some "admin"
role_of notes_list = some "user"
role_of notes_create = some "user"
role_of notes_get = some "user"
role_of notes_update = some "user"
role_of notes_delete = some "user"
role_of _ = none

module _ {F S : Type 0} (site : Site F S) (at : Moment) where
  open site use {mysql, jwt, loaded, any_of, auth_cfg}

  -- A request that is turned away: 401 or 403, with the tables and Redis as they were.
  abbrev pub IsRefused : World S → Response × World S → Type 0
  IsRefused w answer =
      ((answer.0.status ≡ 401) ⊎ (answer.0.status ≡ 403))
      × (answer.1.db.tables ≡ w.db.tables)
      × (answer.1.store ≡ w.store)

  -- A request with a token that Parse accepts, of a user who has a role.
  abbrev pub IsEntitled : String → Request → World S → Type 0
  IsEntitled role r w =
      (raw : String) × (claims : Claims) × (uid : ℤ) × (bearer r ≡ some raw)
      × (jwt.parse (key_fn jwt any_of loaded auth_cfg) (some auth_cfg.jwt_audience)
            (some auth_cfg.jwt_issuer) at.now raw
          ≡ some claims)
      × (claims.sub ≡ some uid)
      × ((Roles.has mysql uid role w.db).0 ≡ ok true)

  found-cases :
      (res : Result SqlError Bool)
      → (res ≡ ok true) ⊎ (on_result res (λ _. false) (λ found. found) ≡ false)
  found-cases (ok true) = inl refl
  found-cases (ok false) = inr refl
  found-cases (err e) = inr refl

  any_role-cases :
      (role : String) (uid : ℤ) (db : Db)
      → ((Roles.has mysql uid role db).0 ≡ ok true)
        ⊎ ((any_role mysql uid (role ∷ []) db).0 ≡ false)
  unfolding any_role
  any_role-cases role uid db = elim (found-cases (Roles.has mysql uid role db).0) [
    | inl found ↦ inl found
    | inr missing ↦ inr (ground arith)
  ]

  pub any_role-tables :
      (role : String) (uid : ℤ) (db : Db) → (any_role mysql uid (role ∷ []) db).1.tables ≡ db.tables
  unfolding any_role Roles.has query
  any_role-tables role uid db = ground arith

  pub any_role-joined :
      (role : String) (uid : ℤ) (db : Db)
      → (any_role mysql uid (role ∷ []) db).0 ≡ true
      → 0 < Roles.joined mysql uid role db.roles db.user_roles
  unfolding any_role Roles.has query Roles.count_grants
  any_role-joined role uid db h = ground arith

  guarded-cases :
      (role : String) (next_handler : Handler (World S)) (r : Request) (w : World S)
      → IsRefused w (guarded site at role next_handler r w) ⊎ IsEntitled role r w
  unfolding guarded require_role_on
  guarded-cases role next_handler r w =
      elim (auth_with-cases jwt any_of loaded auth_cfg
        (require_role_on mysql on_db (role ∷ []) next_handler) at.now r w) [
          | inl (refused, same) ↦ inl (inl (ground arith), ground arith, ground arith)
          | inr (raw, claims, uid, borne, parsed, named, admitted) ↦
              elim (any_role-cases role uid w.db) [
                | inl found ↦ inr (raw, claims, uid, borne, parsed, named, found)
                | inr missing ↦
                    let kept = any_role-tables role uid w.db in
                    inl (inr (ground arith), ground arith, ground arith)
              ]
        ]

  entitled :
      {asked : String} (next_handler : Handler (World S)) (role : String) (r : Request)
      (w : World S)
      → some asked ≡ some role
      → IsRefused w (guarded site at asked next_handler r w) ⊎ IsEntitled role r w
  entitled {asked} next_handler role r w h =
      let same : asked ≡ role = ground arith in
      subst (λ x. IsRefused w (guarded site at asked next_handler r w) ⊎ IsEntitled x r w) same
        (guarded-cases asked next_handler r w)

  -- A request to a route under /admin or /notes is answered with 401 or 403 and leaves the tables
  -- and Redis as they were, or it carries a token that Parse accepts, of a user for whom Has finds
  -- the role of the route's group.
  pub handle-role :
      (route : Route) (role : String) (r : Request) (w : World S)
      → role_of route ≡ some role
      → IsRefused w (handle site at route r w) ⊎ IsEntitled role r w
  unfolding handle role_of
  handle-role admin_ping role r w h = entitled _ role r w h
  handle-role admin_users role r w h = entitled _ role r w h
  handle-role admin_roles role r w h = entitled _ role r w h
  handle-role admin_audit role r w h = entitled _ role r w h
  handle-role admin_jti role r w h = entitled _ role r w h
  handle-role notes_list role r w h = entitled _ role r w h
  handle-role notes_create role r w h = entitled _ role r w h
  handle-role notes_get role r w h = entitled _ role r w h
  handle-role notes_update role r w h = entitled _ role r w h
  handle-role notes_delete role r w h = entitled _ role r w h
  handle-role healthz role r w h = ground arith
  handle-role readyz role r w h = ground arith
  handle-role info role r w h = ground arith
  handle-role metrics role r w h = ground arith
  handle-role openapi_yaml role r w h = ground arith
  handle-role docs role r w h = ground arith
  handle-role auth_register role r w h = ground arith
  handle-role auth_login role r w h = ground arith
  handle-role auth_refresh role r w h = ground arith
  handle-role auth_logout role r w h = ground arith
