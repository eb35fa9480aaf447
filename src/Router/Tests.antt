-- ===== src/Router/Tests.antt =====
-- Requests of user 7 to a small site.
mod Members
mod Runs
mod Lasting
mod Sessions
use go_notes_api.Base.{
  ◌⊎◌, refl, false, true, none, some, [], eq_of_text, ◌==◌, arith, rows_where, if◌then◌else◌,
  eq_iff, ok, ◌≢◌,
}
use go_notes_api.Base.Int.{int_eq, int_lt, ◌+ℤ◌}
use go_notes_api.Base.Text.{trim_space, after_prefix}
use go_notes_api.Config.{Config}
use go_notes_api.Fixtures.{
  plain_jwt, two_roles, blank_memory, plain_mysql, plain_redis, plain_codec, plain_creds,
  auth_codec, admin_codec, plain_config, plain_keys, plain_request, empty_db,
}
use go_notes_api.Handlers.Auth.{access_token, access_claims}
use go_notes_api.Jwt.{IsVerified, Jwt, Claims}
use go_notes_api.Jwt.Keys.{lookup}
use go_notes_api.Repos.Notes.{get, insert_note, create}
use go_notes_api.Repos.Sound.{IsSound}
use go_notes_api.Repos.Roles
use go_notes_api.Repos.Roles.{count_grants, joined}
use go_notes_api.Router.{notes_create, serve_all, Site, Moment, handle, admin_jti, notes_delete}
use go_notes_api.Router.Members.{handle-create}
use go_notes_api.Sql.{query, exec_id}
use go_notes_api.Http.{Request, http_error, bearer}
use go_notes_api.World.{World}
use go_notes_api.Repos.Notes.Isolation.{of_user}
use go_notes_api.Router.Admin.{role_of, IsRefused, IsEntitled, handle-role}
use go_notes_api.Router.Isolation.{IsForeign, serve_all-others_notes}
use go_notes_api.Fixtures.Site.{
  config, claims, sevens, site, at, deleting, world, members, adding, roles_world,
}

handle-role_example :
    IsRefused site at world (handle site at admin_jti deleting world)
    ⊎ IsEntitled site at "admin" deleting world
unfolding role_of
handle-role_example = handle-role site at admin_jti "admin" deleting world refl
