-- ===== src/Handlers/Admin/Grants.antt =====
-- internal/handlers/admin_roles.go with internal/middleware/roles.go.
use go_notes_api.Base.{
  ◌≡◌, refl, false, some, [], ◌∷◌, String, ℕ, ok, err, Result, arith, eq_of_text,
}
use go_notes_api.Base.Int.{ℤ}
use go_notes_api.Base.Keys.{IsKeyed}
use go_notes_api.Base.Text.{parse_int, number}
use go_notes_api.Schema.{Db}
use go_notes_api.Http.{Request, Handler, http_error}
use go_notes_api.Sql.{Mysql}
use go_notes_api.Repos.Roles
use go_notes_api.Repos.Roles.Grants.{clash}
use go_notes_api.Handlers.Admin.{AdminCodec, done, post_role}
use go_notes_api.Middleware.{require_role}
use go_notes_api.Middleware.Access.{assign-require_role, unassign-require_role}

ok_of_done : {E : Type 0} (res : Result E (Unit {0})) → (done res).status ≡ 204 → res ≡ ok tt
ok_of_done (ok u) h = refl
ok_of_done (err e) h = ground arith

module _ (codec : AdminCodec) (mysql : Mysql) (uid : ℤ) (role : String) (asked : Request) (db : Db)
    (next_handler : Handler Db) (r : Request) (healthy : (n : ℕ) → db.fails n ≡ false)
    (user : r.user ≡ some uid) (named : parse_int (asked.param "id") ≡ number uid) where
  -- While no statement fails, a user to whom Post of AdminRoles adds a role, answering 204, is let
  -- through by RequireRole for it, on the tables as Post left them.
  pub post_role-adds :
      codec.decode_action asked.body ≡ some ("add", role)
      → (post_role codec mysql asked db).0.status ≡ 204
      → (after : Db) × (after.tables ≡ (post_role codec mysql asked db).1.tables)
        × (require_role mysql (role ∷ []) next_handler r (post_role codec mysql asked db).1
            ≡ next_handler r after)
  unfolding post_role
  post_role-adds decoded done =
      let assigned = ok_of_done (Roles.assign mysql uid role db).0 (ground arith) in
      let (after, same, reached) =
        assign-require_role mysql uid role next_handler r db user healthy assigned in
      (after, ground arith, ground arith)

  -- While no statement fails and role names are unique, a user from whom Post of AdminRoles removes
  -- a role, answering 204, is answered with 403 by RequireRole for it, and the tables stay as Post
  -- left them.
  pub post_role-removes :
      codec.decode_action asked.body ≡ some ("remove", role)
      → IsKeyed (clash mysql) db.roles
      → (post_role codec mysql asked db).0.status ≡ 204
      → ((require_role mysql (role ∷ []) next_handler r (post_role codec mysql asked db).1).0
          ≡ http_error "forbidden" 403)
        × ((require_role mysql
              (role ∷ [])
              next_handler
              r
              (post_role codec mysql asked db).1).1.tables
            ≡ (post_role codec mysql asked db).1.tables)
  unfolding post_role
  post_role-removes decoded keyed done =
      let taken = ok_of_done (Roles.unassign mysql uid role db).0 (ground arith) in
      let refused =
        unassign-require_role mysql uid role next_handler r db user healthy keyed taken in
      (ground arith, ground arith)
