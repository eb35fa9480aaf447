-- ===== src/Router/Metrics.antt =====
-- internal/server/server.go: the metrics while a handler runs.
use go_notes_api.Base.{
  ◌≡◌, ◌∙◌, refl, ap, true, false, some, [], ◌∷◌, String, arith, inl, inr, Call, Bool, Option-cases,
  if◌then◌else◌,
}
use go_notes_api.Base.Int.{ℤ}
use go_notes_api.Http.{Request, Response, Handler}
use go_notes_api.World.{World, on_db}
use go_notes_api.Brute
use go_notes_api.Handlers.Auth as Auth
use go_notes_api.Middleware.{any_role, require_role_on}
use go_notes_api.Middleware.Access.{auth_with-cases}
use go_notes_api.Middleware.Allow.{allow_cidr}
use go_notes_api.Middleware.RedisLimit.{RedisLimiter, redis_limit}
use go_notes_api.Middleware.RedisLimit.Window.{redis_limit-cases}
use go_notes_api.Routes.{routes}
use go_notes_api.Router.{
  Route, Site, Moment, ready, auth_limited, guarded, handle, dispatch, healthz, readyz, info,
  metrics, openapi_yaml, docs, auth_register, auth_login, auth_refresh, auth_logout, admin_ping,
  admin_users, admin_roles, admin_audit, admin_jti, notes_list, notes_create, notes_get,
  notes_update, notes_delete,
}

module _ {F S : Type 0} (site : Site F S) (at : Moment) where
  open site use {mysql, jwt, loaded, any_of, auth_cfg, net, redis}

  -- A handler that tells the metrics nothing.
  abbrev IsQuiet : Handler (World S) → Request → Type 0
  IsQuiet handler r = (w : World S) → (handler r w).1.observed ≡ w.observed

  seen : {A : Type 0} {a b : A × World S} → a ≡ b → a.1.observed ≡ b.1.observed
  seen {A} e = ap (λ (x : A × World S). x.1.observed) e

  limited-IsQuiet :
      (l : RedisLimiter) (next_handler : Handler (World S)) (r : Request)
      → IsQuiet next_handler r
      → IsQuiet (redis_limit net redis l next_handler) r
  limited-IsQuiet l next_handler r quiet w = elim (redis_limit-cases net redis next_handler l r w) [
    | inl (refused, same, idle) ↦ idle
    | inr (reached, same, idle, passed) ↦ seen passed ∙ quiet reached ∙ idle
  ]

  if-IsQuiet :
      (b : Bool) (call other : Call (World S) Response) (w : World S)
      → (call w).1.observed ≡ w.observed
      → (other w).1.observed ≡ w.observed
      → ((if b then call else other) w).1.observed ≡ w.observed
  if-IsQuiet true call other w h k = h
  if-IsQuiet false call other w h k = k

  guarded-IsQuiet :
      (role : String) (next_handler : Handler (World S)) (r : Request)
      → ((uid : ℤ) → IsQuiet next_handler (record r { user = some uid }))
      → IsQuiet (guarded site at role next_handler) r
  unfolding guarded require_role_on
  guarded-IsQuiet role next_handler r quiet w =
      elim (auth_with-cases jwt any_of loaded auth_cfg
        (require_role_on mysql on_db (role ∷ []) next_handler) at.now r w) [
          | inl (refused, same) ↦ ap (λ (x : World S). x.observed) same
          | inr (raw, claims, uid, borne, parsed, named, admitted) ↦
              let asked = any_role mysql uid (role ∷ []) w.db in
              seen admitted
              ∙ if-IsQuiet asked.0 (next_handler (record r { user = some uid })) _
                  (record w { db = asked.1 }) (quiet uid (record w { db = asked.1 })) refl
        ]

  handle-IsQuiet : (route : Route) (r : Request) → IsQuiet (handle site at route) r
  unfolding handle auth_limited allow_cidr ready Auth.login Auth.logout Brute.allow
  handle-IsQuiet healthz r = λ w. refl
  handle-IsQuiet readyz r = λ w. refl
  handle-IsQuiet info r = λ w. refl
  handle-IsQuiet metrics r = λ w. ground arith
  handle-IsQuiet openapi_yaml r = λ w. refl
  handle-IsQuiet docs r = λ w. refl
  handle-IsQuiet auth_register r = limited-IsQuiet _ _ r (λ u. refl)
  handle-IsQuiet auth_login r = limited-IsQuiet _ _ r (λ u. ground arith)
  handle-IsQuiet auth_refresh r = limited-IsQuiet _ _ r (λ u. refl)
  handle-IsQuiet auth_logout r = limited-IsQuiet _ _ r (λ u. ground arith)
  handle-IsQuiet admin_ping r = guarded-IsQuiet _ _ r (λ uid u. refl)
  handle-IsQuiet admin_users r = guarded-IsQuiet _ _ r (λ uid u. refl)
  handle-IsQuiet admin_roles r = guarded-IsQuiet _ _ r (λ uid u. refl)
  handle-IsQuiet admin_audit r = guarded-IsQuiet _ _ r (λ uid u. refl)
  handle-IsQuiet admin_jti r = guarded-IsQuiet _ _ r (λ uid u. refl)
  handle-IsQuiet notes_list r = guarded-IsQuiet _ _ r (λ uid u. refl)
  handle-IsQuiet notes_create r = guarded-IsQuiet _ _ r (λ uid u. refl)
  handle-IsQuiet notes_get r = guarded-IsQuiet _ _ r (λ uid u. refl)
  handle-IsQuiet notes_update r = guarded-IsQuiet _ _ r (λ uid u. refl)
  handle-IsQuiet notes_delete r = guarded-IsQuiet _ _ r (λ uid u. refl)

  pub dispatch-observed :
      (r : Request) (w : World S) → (dispatch site at r w).1.observed ≡ w.observed
  unfolding dispatch
  dispatch-observed r w = elim (Option-cases (site.chi (routes site.cfg.app_env) r)) [
    | inl missing ↦ ground arith
    | inr ((route, param), found) ↦
        let quiet = handle-IsQuiet route (record r { param = param }) w in ground arith
  ]
