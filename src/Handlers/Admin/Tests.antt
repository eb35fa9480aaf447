-- ===== src/Handlers/Admin/Tests.antt =====
-- Requests of an administrator on small tables.
use go_notes_api.Base.{
  ◌≡◌, ◌≢◌, refl, true, some, [], ◌∷◌, String, exists_where, first_where, delete_where, eq_of_text,
  eq_iff, arith,
}
use go_notes_api.Base.Int.{pos, int_lt, ◌*ℤ◌}
use go_notes_api.Base.Keys.{IsKeyed}
use go_notes_api.Base.Text.{parse_int, number, format_int}
use go_notes_api.Schema.{Db}
use go_notes_api.Http.{Request, Handler, encoded, http_error, user_id}
use go_notes_api.Sql.{exec, query}
use go_notes_api.Jti
use go_notes_api.Fixtures.{
  plain_mysql, plain_request, admin_codec, two_roles, plain_redis, blank_memory,
}
use go_notes_api.Repos.Roles
use go_notes_api.Repos.Roles.{insert_grant, delete_grant, select_role}
use go_notes_api.Repos.Roles.Grants.{clash}
use go_notes_api.Handlers.Admin.{post_role, revoke_jti, revocation_ttl}
use go_notes_api.Handlers.Admin.Grants.{post_role-adds, post_role-removes}
use go_notes_api.Handlers.Admin.Revocation.{IsExpiring, revoke_jti-is_revoked}
use go_notes_api.Middleware.{require_role}

-- A handler that answers the id of its user.
abbrev greet : Handler Db
greet r s = (encoded (format_int (user_id r)), s)

abbrev asked : Request
asked = record plain_request { param = λ name. "7" }

seven : parse_int "7" ≡ number (pos 7)
unfolding parse_int
seven = refl

added : (post_role (admin_codec "add") plain_mysql asked two_roles).0.status ≡ 204
unfolding post_role parse_int Roles.assign insert_grant select_role exec query first_where
    exists_where
added = refl

removed : (post_role (admin_codec "remove") plain_mysql asked two_roles).0.status ≡ 204
unfolding post_role parse_int Roles.unassign delete_grant select_role exec query first_where
    delete_where
removed = refl

post_role-adds_example :
    (after : Db) × (after.tables
      ≡ (post_role (admin_codec "add") plain_mysql asked two_roles).1.tables)
    × (require_role plain_mysql
          ("admin" ∷ [])
          greet
          plain_request
          (post_role (admin_codec "add") plain_mysql asked two_roles).1
        ≡ greet plain_request after)
post_role-adds_example =
    post_role-adds (admin_codec "add") plain_mysql (pos 7) "admin" asked two_roles greet
      plain_request (λ n. refl) refl seven refl added

two_roles-IsKeyed : IsKeyed (clash plain_mysql) two_roles.roles
unfolding exists_where
two_roles-IsKeyed = (refl, (refl, tt))

post_role-removes_example :
    ((require_role plain_mysql
        ("admin" ∷ [])
        greet
        plain_request
        (post_role (admin_codec "remove") plain_mysql asked two_roles).1).0
      ≡ http_error "forbidden" 403)
    × ((require_role plain_mysql
          ("admin" ∷ [])
          greet
          plain_request
          (post_role (admin_codec "remove") plain_mysql asked two_roles).1).1.tables
        ≡ (post_role (admin_codec "remove") plain_mysql asked two_roles).1.tables)
post_role-removes_example =
    post_role-removes (admin_codec "remove") plain_mysql (pos 7) "admin" asked two_roles greet
      plain_request (λ n. refl) refl seven refl two_roles-IsKeyed removed

plain_redis-IsExpiring : IsExpiring plain_redis
plain_redis-IsExpiring k v n s positive done = ground (arith, eq_iff k k)

abbrev some_id : String
some_id = "id"

given : some_id ≢ ""
given e = ground (arith, eq_iff "id" "")

revoked :
    (revoke_jti (admin_codec "add") plain_redis "jti:" plain_request blank_memory).0.status ≡ 204
unfolding revoke_jti Jti.revoke
revoked = refl

revoke_jti-is_revoked_example :
    (Jti.is_revoked plain_redis "jti:" "id"
      (revoke_jti (admin_codec "add") plain_redis "jti:" plain_request blank_memory).1).0
    ≡ some true
revoke_jti-is_revoked_example =
    revoke_jti-is_revoked plain_redis plain_redis-IsExpiring (admin_codec "add") "jti:" "id"
      (pos 60) plain_request blank_memory refl given revoked

-- 18446744074 seconds are 290448384 nanoseconds in 64 bits.
brief : revocation_ttl (pos 18446744074) ≡ pos 290448384
unfolding revocation_ttl ◌*ℤ◌ int_lt
brief = refl
