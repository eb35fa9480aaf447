-- ===== src/Router/Runs.antt =====
-- internal/server/server.go: a property of the tables through sequences of requests.
use go_notes_api.Base.{◌≡◌, ◌<◌, some, List, [], ◌∷◌, String, ℕ, arith, All}
use go_notes_api.Base.Int.{ℤ}
use go_notes_api.Schema.{Tables}
use go_notes_api.Http.{Request, Handler, bearer}
use go_notes_api.Jwt.{Claims}
use go_notes_api.World.{World}
use go_notes_api.Repos.Roles
use go_notes_api.Repos.Closed.{IsClosed, along}
use go_notes_api.Handlers.Auth.Keeping.{register_keeps, login_keeps, refresh_keeps, logout_keeps}
use go_notes_api.Handlers.Admin.Keeping.{list_users_keeps, post_role_keeps, list_audit_keeps}
use go_notes_api.Handlers.Notes.Keeping.{
  list_keeps, get_keeps, create_keeps, update_keeps, delete_keeps,
}
use go_notes_api.Middleware.{key_fn}
use go_notes_api.Middleware.Allow.{allow_cidr}
use go_notes_api.Router.Keeping.{Keeps, limited-Keeps, guarded-Keeps, dispatch-Keeps, serve-Keeps}
use go_notes_api.Router.{
  Route, arriving, Site, Moment, ready, auth_limited, guarded, handle, serve, serve_all, healthz,
  readyz, info, metrics, openapi_yaml, docs, auth_register, auth_login, auth_refresh, auth_logout,
  admin_ping, admin_users, admin_roles, admin_audit, admin_jti, notes_list, notes_create, notes_get,
  notes_update, notes_delete,
}

module _ {F S : Type 0} (site : Site F S) (Q : ℤ → Type 0) (at : Moment) where
  open site use {jwt, loaded, any_of, auth_cfg}

  -- Whose token Parse accepts in a request.
  abbrev pub IsOf : Request → Type 0
  IsOf r =
      (raw : String) (claims : Claims) (uid : ℤ)
      → bearer r ≡ some raw
      → jwt.parse (key_fn jwt any_of loaded auth_cfg) (some auth_cfg.jwt_audience)
          (some auth_cfg.jwt_issuer) at.now raw
        ≡ some claims
      → claims.sub ≡ some uid
      → Q uid

module _ {F S : Type 0} (site : Site F S) (Q : ℤ → Type 0) (B : List ℕ → Type 0)
    (K : Tables → Type 0) (closed : IsClosed site.mysql Q B K) where
  open site use {mysql, jwt, auth_cfg, redis, provider, codec, auth_codec, admin_codec, cfg}

  module _ (at : Moment) where
    member-Keeps :
        (role : String) (next_handler : Handler (World S)) (r : Request)
        → IsOf site Q at r
        → ((uid : ℤ)
            → Q uid
            → (u : World S) → 0 < Roles.joined mysql uid role u.db.roles u.db.user_roles
            → K u.db.tables
            → K (next_handler (record r { user = some uid }) u).1.db.tables)
        → Keeps site at K (guarded site at role next_handler) r
    member-Keeps role next_handler r = guarded-Keeps site at K Q role next_handler r

    handle-Keeps :
        (route : Route) (r : Request)
        → IsOf site Q at r
        → B at.token
        → Keeps site at K (handle site at route) r
    unfolding handle auth_limited allow_cidr ready
    handle-Keeps healthz r of fresh = λ w k. k
    handle-Keeps readyz r of fresh = λ w k. k
    handle-Keeps info r of fresh = λ w k. k
    handle-Keeps metrics r of fresh = λ w k. along K {t = w.db.tables} (ground arith) k
    handle-Keeps openapi_yaml r of fresh = λ w k. k
    handle-Keeps docs r of fresh = λ w k. k
    handle-Keeps auth_register r of fresh =
        limited-Keeps site at K _ _ r
          λ u k. register_keeps mysql Q B K closed auth_codec r at.salt u.db k
    handle-Keeps auth_login r of fresh = limited-Keeps site at K _ _ r λ u k.
        login_keeps mysql Q B K closed auth_codec r auth_cfg jwt provider redis u k at.email_limiter
          at.now at.jti at.token fresh
    handle-Keeps auth_refresh r of fresh = limited-Keeps site at K _ _ r λ u k.
        refresh_keeps mysql Q B K closed auth_codec r auth_cfg jwt provider at.now at.jti at.token
          u.db fresh k
    handle-Keeps auth_logout r of fresh = limited-Keeps site at K _ _ r λ u k.
        logout_keeps mysql Q B K closed auth_codec r auth_cfg jwt provider redis u k cfg.jti_prefix
          at.now
    handle-Keeps admin_ping r of fresh = member-Keeps _ _ r of λ uid q u by k. k
    handle-Keeps admin_users r of fresh = member-Keeps _ _ r of λ uid q u by k.
        list_users_keeps mysql Q B K closed admin_codec (record r { user = some uid }) u.db k
    handle-Keeps admin_roles r of fresh = member-Keeps _ _ r of λ uid q u by k.
        post_role_keeps mysql Q B K closed admin_codec (record r { user = some uid }) u.db k
          (uid, by)
    handle-Keeps admin_audit r of fresh = member-Keeps _ _ r of λ uid q u by k.
        list_audit_keeps mysql Q B K closed admin_codec (record r { user = some uid }) u.db k at.now
    handle-Keeps admin_jti r of fresh = member-Keeps _ _ r of λ uid q u by k. k
    handle-Keeps notes_list r of fresh = member-Keeps _ _ r of λ uid q u by k.
        list_keeps mysql Q B K closed codec (record r { user = some uid }) at.now u.db k
    handle-Keeps notes_create r of fresh = member-Keeps _ _ r of λ uid q u by k.
        create_keeps mysql Q B K closed codec (record r { user = some uid }) at.now q u.db k
    handle-Keeps notes_get r of fresh = member-Keeps _ _ r of λ uid q u by k.
        get_keeps mysql Q B K closed codec (record r { user = some uid }) at.now u.db k
    handle-Keeps notes_update r of fresh = member-Keeps _ _ r of λ uid q u by k.
        update_keeps mysql Q B K closed codec (record r { user = some uid }) at.now q u.db k
    handle-Keeps notes_delete r of fresh = member-Keeps _ _ r of λ uid q u by k.
        delete_keeps mysql Q B K closed codec (record r { user = some uid }) at.now q u.db k

    pub serve-holds :
        (r : Request)
        → IsOf site Q at (arriving site at r)
        → B at.token
        → Keeps site at K (serve site at) r
    serve-holds r of fresh = serve-Keeps site at K closed.log r (
        dispatch-Keeps site at K (arriving site at r) (λ route param.
          handle-Keeps route (record (arriving site at r) { param = param }) of fresh))

  -- A property that the repositories keep is kept by any sequence of requests.
  pub serve_all_keeps :
      (rs : List (Moment × Request)) (w : World S)
      → All (λ p. IsOf site Q p.0 (arriving site p.0 p.1) × B p.0.token) rs
      → K w.db.tables
      → K (serve_all site rs w).db.tables
  unfolding serve_all
  serve_all_keeps [] w h k = k
  serve_all_keeps ((at, r) ∷ rs) w ((of, fresh), hs) k =
      serve_all_keeps rs (serve site at r w).1 hs (serve-holds at r of fresh w k)
