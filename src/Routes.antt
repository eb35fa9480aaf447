-- ===== src/Routes.antt =====
-- internal/server/server.go, router, and handlers/notes.go, Routes: what is registered with chi.
mod Tests
use Prim.Native.String.{◌++◌}
use go_notes_api.Base.{
  Bool, List, [], ◌∷◌, Option, none, some, String, ◌==◌, eq_of_text, if◌then◌else◌,
}

-- The handlers that router registers.
pub data Route : Type 0 where
  healthz readyz info metrics openapi_yaml docs : Route
  auth_register auth_login auth_refresh auth_logout : Route
  admin_ping admin_users admin_roles admin_audit admin_jti : Route
  notes_list notes_create notes_get notes_update notes_delete : Route

-- The method, `none` where Handle takes any, and the pattern of the path.
pub record Entry : Type 0 where
  pub method : Option String
  pub pattern : String
  pub route : Route

abbrev entry : String → String → Route → Entry
entry method pattern route = record { method = some method; pattern = pattern; route = route }

-- r.Handle
abbrev handled : String → Route → Entry
handled pattern route = record { method = none; pattern = pattern; route = route }

-- r.Route, before the entries of `rest`
unfoldable pub mounted : String → List Entry → List Entry → List Entry
mounted prefix [] rest = rest
mounted prefix (e ∷ es) rest = record e { pattern = prefix ++ e.pattern } ∷ mounted prefix es rest

-- Notes.Routes
unfoldable pub notes_routes : List Entry
unfolding mounted
notes_routes =
    entry "GET" "/" notes_list
    ∷ entry "POST" "/" notes_create
    ∷ mounted "/{id}"
        (entry "GET" "/" notes_get
          ∷ entry "PUT" "/" notes_update
          ∷ entry "DELETE" "/" notes_delete
          ∷ [])
        []

auth_routes : List Entry
auth_routes =
    entry "POST" "/register" auth_register
    ∷ entry "POST" "/login" auth_login
    ∷ entry "POST" "/refresh" auth_refresh
    ∷ entry "POST" "/logout" auth_logout
    ∷ []

admin_routes : List Entry → List Entry
admin_routes rest =
    entry "GET" "/admin/ping" admin_ping
    ∷ entry "GET" "/admin/users" admin_users
    ∷ entry "POST" "/admin/users/{id}/roles" admin_roles
    ∷ entry "GET" "/admin/audit" admin_audit
    ∷ entry "POST" "/admin/jti/revoke" admin_jti
    ∷ rest

-- `if s.cfg.Env != "prod"`
doc_routes : String → List Entry → List Entry
doc_routes app_env rest =
    if app_env == "prod"
    then rest
    else handled "/openapi.yaml" openapi_yaml ∷ handled "/docs" docs ∷ rest

unfoldable pub routes : String → List Entry
unfolding auth_routes admin_routes doc_routes
routes app_env =
    entry "GET" "/healthz" healthz
    ∷ entry "GET" "/readyz" readyz
    ∷ entry "GET" "/info" info
    ∷ handled "/metrics" metrics
    ∷ doc_routes app_env
        (mounted "/auth" auth_routes (admin_routes (mounted "/notes" notes_routes [])))
