-- ===== src/Router.antt =====
-- internal/server/server.go: the handlers of the routes, and what stands before them; handlers/health.go
-- and openapi/server.go. How chi matches a path, and its RealIP, are parameters.
pub mod Admin
pub mod Invariant
pub mod Lasting
pub mod Escalation
pub mod Sessions
pub mod Deletion
pub mod Isolation
pub mod Keeping
mod Metrics
pub mod Runs
pub mod Members
pub mod Newcomer
pub mod Trail
mod Tests
use go_notes_api.Base.{
  Bool, none, some, Option, List, [], ◌∷◌, String, ℕ, Result, ok, err, Call, pure, ◌>>=◌, on_result,
  ◌==◌, eq_of_text, if◌then◌else◌,
}
use Prim.Native.String.{◌++◌}
use go_notes_api.Base.Int.{ℤ, pos}
use go_notes_api.Config.{Config}
use go_notes_api.Errors
use go_notes_api.Schema.{Db}
use go_notes_api.Http.{Request, Response, Handler, empty_response, set_header, http_error, encoded}
use go_notes_api.Jwt.{Jwt}
use go_notes_api.Jwt.Keys.{Keys, AnyOf}
use go_notes_api.Net.{Net}
use go_notes_api.Redis.{Redis}
use go_notes_api.Sql.{Mysql, called}
use go_notes_api.World.{World, on_db, on_store}
use go_notes_api.Handlers.Admin.{AdminCodec, list_users, post_role, list_audit, revoke_jti}
use go_notes_api.Handlers.Auth
use go_notes_api.Handlers.Auth.{AuthCodec, AuthConfig}
use go_notes_api.Handlers.Notes
use go_notes_api.Handlers.Notes.{Codec}
use go_notes_api.Middleware.{auth_with, require_role_on}
use go_notes_api.Middleware.Allow.{allow_cidr}
use go_notes_api.Middleware.Audit.{audit}
use go_notes_api.Middleware.Headers.{
  security_headers, cors, body_limit, clip, request_id, request_id_of, with_request_id,
}
use go_notes_api.Middleware.Metrics.{observe}
use go_notes_api.Middleware.Logger.{log_request}
pub use go_notes_api.Routes.{
  Route, healthz, readyz, info, metrics, openapi_yaml, docs, auth_register, auth_login,
  auth_refresh, auth_logout, admin_ping, admin_users, admin_roles, admin_audit, admin_jti,
  notes_list, notes_create, notes_get, notes_update, notes_delete,
}
use go_notes_api.Routes.{Entry, routes}
use go_notes_api.Middleware.RedisLimit.{new_redis_limiter, ip_key, redis_limit}

-- What router wires together: `provider` holds the keys of jwtauth's provider, `loaded` those that
-- AuthWith loads. `chi` finds the route of a request with its parameters, `unmatched` the answer of
-- chi to one without a route (404 or 405).
pub record Site (F S : Type 0) : Type 0 where
  pub cfg : Config F
  pub auth_cfg : AuthConfig
  pub mysql : Mysql
  pub jwt : Jwt
  pub provider : Keys
  pub loaded : Keys
  pub any_of : AnyOf
  pub net : Net
  pub redis : Redis S
  pub codec : Codec
  pub auth_codec : AuthCodec
  pub admin_codec : AdminCodec
  pub equal_fold : String → String → Bool
  pub real_ip : Request → Request
  pub chi : List Entry → Request → Option (Route × (String → String))
  pub unmatched : Request → Response
  pub metrics_page : Response

-- The time of a request and how long it takes, the random bytes that it draws, and what the email limiter answers to it.
pub record Moment : Type 0 where
  pub now : ℤ
  pub took : ℤ
  pub lasted : ℤ
  pub rid : List ℕ
  pub jti : List ℕ
  pub token : List ℕ
  pub salt : List ℕ
  pub email_limiter : String → Bool

-- Health.Ready, with PingContext
unfoldable pub ready : Handler Db
ready r db = (if db.fails db.calls then http_error "db down" 503 else empty_response 204, called db)

-- openapi.Spec: the file is embedded as "openapi.yaml", so ReadFile finds none and answers no bytes
abbrev pub spec : Response
spec = set_header "Content-Type" "application/yaml; charset=utf-8" (empty_response 200)

-- openapi.UI
abbrev pub ui : Response
ui = record {
  status = 200;
  headers = ("Content-Type", "text/html; charset=utf-8") ∷ [];
  body =
      "<!doctype html><html><head>\n<meta charset=\"utf-8\"/>\n<title>OpenAPI</title>\n"
      ++ ("<link rel=\"stylesheet\" href=\"https://unpkg.com/swagger-ui-dist/swagger-ui.css\">\n"
          ++ ("</head><body>\n<div id=\"swagger\"></div>\n"
              ++ ("<script src=\"https://unpkg.com/swagger-ui-dist/swagger-ui-bundle.js\"></script>\n<script>\n"
                  ++ ("window.ui = SwaggerUIBundle({ url: \"/openapi.yaml\", dom_id: \"#swagger\" });\n"
                      ++ "</script></body></html>"))));
}

-- The answer of /admin/ping.
abbrev pub pong : Response
pong = record {
  status = 200;
  headers = ("Content-Type", "application/json") ∷ [];
  body = "{\"ok\":true}";
}

module _ {F S : Type 0} (site : Site F S) (at : Moment) where
  open site use {
    cfg, auth_cfg, mysql, jwt, provider, loaded, any_of, net, redis, codec, auth_codec, admin_codec,
    equal_fold, real_ip, chi, unmatched, metrics_page,
  }

  -- The limiter of the routes under /auth.
  unfoldable pub auth_limited : Handler (World S) → Handler (World S)
  auth_limited = redis_limit net redis (
      new_redis_limiter net cfg.rate_auth_burst (pos 60) (λ r. "auth:" ++ ip_key net r)
        cfg.rate_allow_cidr)

  -- AuthWith and RequireRole, for one role.
  unfoldable pub guarded : String → Handler (World S) → Handler (World S)
  guarded role next_handler =
      auth_with jwt any_of loaded auth_cfg at.now
        (require_role_on mysql on_db (role ∷ []) next_handler)

  -- The handler of a route, with the middleware of its group.
  unfoldable pub handle : Route → Handler (World S)
  handle healthz r = pure (empty_response 204)
  handle readyz r = on_db (ready r)
  handle info r = pure (encoded "{\"ok\":true}")
  handle metrics r = allow_cidr net cfg.metrics_allow_cidr (λ _. pure metrics_page) r
  handle openapi_yaml r = pure spec
  handle docs r = pure ui
  handle auth_register r = auth_limited (λ r. on_db (Auth.register auth_codec mysql at.salt r)) r
  handle auth_login r =
      auth_limited
        (λ r.
          Auth.login auth_codec mysql auth_cfg jwt provider redis at.email_limiter r at.now at.jti
            at.token)
        r
  handle auth_refresh r =
      auth_limited
        (λ r. on_db (Auth.refresh auth_codec mysql auth_cfg jwt provider r at.now at.jti at.token))
        r
  handle auth_logout r =
      auth_limited
        (λ r. Auth.logout auth_codec mysql auth_cfg jwt provider redis cfg.jti_prefix r at.now) r
  handle admin_ping r = guarded "admin" (λ _. pure pong) r
  handle admin_users r = guarded "admin" (λ r. on_db (list_users admin_codec mysql r)) r
  handle admin_roles r = guarded "admin" (λ r. on_db (post_role admin_codec mysql r)) r
  handle admin_audit r = guarded "admin" (λ r. on_db (list_audit admin_codec at.now r)) r
  handle admin_jti r =
      guarded "admin" (λ r. on_store (revoke_jti admin_codec redis cfg.jti_prefix r)) r
  handle notes_list r = guarded "user" (λ r. on_db (Notes.list codec mysql r)) r
  handle notes_create r = guarded "user" (λ r. on_db (Notes.create codec r at.now)) r
  handle notes_get r = guarded "user" (λ r. on_db (Notes.get codec r)) r
  handle notes_update r = guarded "user" (λ r. on_db (Notes.update codec mysql r at.now)) r
  handle notes_delete r = guarded "user" (λ r. on_db (Notes.delete codec mysql r at.now)) r

  -- chi's mux
  unfoldable pub dispatch : Handler (World S)
  dispatch r = elim (chi (routes cfg.app_env) r) [
    | none ↦ pure (unmatched r)
    | some (route, param) ↦ handle route (record r { param = param })
  ]

  -- From the audit log on.
  unfoldable pub audited : Handler (World S)
  audited = audit net.split_host at.now dispatch

  -- From Logger on.
  unfoldable pub recorded : Handler (World S)
  recorded = log_request at.lasted audited

  -- From Registry.MW on.
  unfoldable pub measured : Handler (World S)
  measured = observe at.took recorded

  unfoldable pub limited : Handler (World S)
  limited =
      redis_limit net redis
        (new_redis_limiter net cfg.rate_burst (pos 60) (ip_key net) cfg.rate_allow_cidr) measured

  -- Server.router; go-redis gives a client whatever its address is, so `s.rdb != nil` always holds
  unfoldable pub serve : Handler (World S)
  serve = request_id at.rid (λ r.
      security_headers (cors equal_fold cfg.cors_origins (body_limit cfg.max_body_bytes limited))
        (real_ip r))

  -- The request as the audit log and the handlers see it.
  abbrev pub arriving : Request → Request
  arriving r = clip cfg.max_body_bytes (real_ip (with_request_id (request_id_of at.rid r) r))

-- The state after a sequence of requests, each with the time and the random bytes of its own.
unfoldable pub serve_all : {F S : Type 0} → Site F S → List (Moment × Request) → World S → World S
serve_all site [] w = w
serve_all site ((at, r) ∷ rs) w = serve_all site rs (serve site at r w).1
