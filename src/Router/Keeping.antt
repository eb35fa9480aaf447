-- ===== src/Router/Keeping.antt =====
-- internal/server/server.go: a property of the tables through what stands before the handlers.
use go_notes_api.Base.{
  ◌≡◌, ◌<◌, refl, sym, ap, subst, Bool, true, false, some, List, [], ◌∷◌, ℕ, String, arith, inl,
  inr, Call, pure, Option-cases, Bool-cases, if◌then◌else◌, ◌==◌, eq_of_text,
}
use go_notes_api.Base.Int.{ℤ, pos}
use go_notes_api.Schema.{AuditLog, Tables, Db}
use go_notes_api.Http.{Request, Response, Handler, bearer, http_error, empty_response}
use go_notes_api.Jwt.{Claims}
use go_notes_api.Sql.{exec}
use go_notes_api.World.{World, on_db}
use go_notes_api.Repos.Roles
use go_notes_api.Middleware.{key_fn, any_role, require_role_on}
use go_notes_api.Middleware.Access.{auth_with-cases}
use go_notes_api.Middleware.Audit.{fits, audit, insert_audit}
use go_notes_api.Middleware.Metrics.{observe}
use go_notes_api.Middleware.Logger.{log_request}
use go_notes_api.Middleware.Headers.{security_headers, cors, body_limit, request_id}
use go_notes_api.Middleware.RedisLimit.{RedisLimiter, new_redis_limiter, ip_key, redis_limit}
use go_notes_api.Middleware.RedisLimit.Window.{redis_limit-cases}
use go_notes_api.Router.{
  Route, Site, Moment, arriving, guarded, handle, dispatch, audited, recorded, measured, limited,
  serve,
}
use go_notes_api.Routes.{routes}
use go_notes_api.Router.Admin.{any_role-tables, any_role-joined}

module _ {F S : Type 0} (site : Site F S) (at : Moment) (K : Tables → Type 0) where
  open site use {mysql, jwt, loaded, any_of, auth_cfg, net, redis, cfg}

  -- A handler that keeps the property, on a request.
  abbrev pub Keeps : Handler (World S) → Request → Type 0
  Keeps handler r = (w : World S) → K w.db.tables → K (handler r w).1.db.tables

  kept_by : {a b : Db} → a ≡ b → K b.tables → K a.tables
  kept_by e k = subst (λ (d : Db). K d.tables) (sym e) k

  pub limited-Keeps :
      (l : RedisLimiter) (next_handler : Handler (World S)) (r : Request)
      → Keeps next_handler r
      → Keeps (redis_limit net redis l next_handler) r
  limited-Keeps l next_handler r keeps w k = elim (redis_limit-cases net redis next_handler l r w) [
    | inl (refused, same, quiet) ↦ kept_by same k
    | inr (reached, same, quiet, passed) ↦
        kept_by (ap (λ (x : Response × World S). x.1.db) passed) (keeps reached (kept_by same k))
  ]

  if-Keeps :
      (b : Bool) (call other : Call (World S) Response) (w : World S)
      → (b ≡ true → K (call w).1.db.tables)
      → K (other w).1.db.tables
      → K ((if b then call else other) w).1.db.tables
  if-Keeps true call other w h k = h refl
  if-Keeps false call other w h k = k

  pub guarded-Keeps :
      (Q : ℤ → Type 0) (role : String) (next_handler : Handler (World S)) (r : Request)
      → ((raw : String) (claims : Claims) (uid : ℤ)
          → bearer r ≡ some raw
          → jwt.parse
              (key_fn jwt any_of loaded auth_cfg)
              (some auth_cfg.jwt_audience)
              (some auth_cfg.jwt_issuer)
              at.now
              raw
            ≡ some claims
          → claims.sub ≡ some uid
          → Q uid)
      → ((uid : ℤ)
          → Q uid
          → (u : World S) → 0 < Roles.joined mysql uid role u.db.roles u.db.user_roles
          → K u.db.tables
          → K (next_handler (record r { user = some uid }) u).1.db.tables)
      → Keeps (guarded site at role next_handler) r
  unfolding guarded require_role_on
  guarded-Keeps Q role next_handler r accepted keeps w k =
      elim (auth_with-cases jwt any_of loaded auth_cfg
        (require_role_on mysql on_db (role ∷ []) next_handler) at.now r w) [
          | inl (refused, same) ↦ kept_by (ap (λ (x : World S). x.db) same) k
          | inr (raw, claims, uid, borne, parsed, named, admitted) ↦
              let asked = any_role mysql uid (role ∷ []) w.db in
              let kept = any_role-tables site at role uid w.db in
              let still = subst K (sym kept) k in
              let after : World S = record w { db = asked.1 } in
              kept_by (ap (λ (x : Response × World S). x.1.db) admitted) (
                if-Keeps asked.0 (next_handler (record r { user = some uid }))
                  (pure (http_error "forbidden" 403)) after
                  (λ yes.
                    keeps uid (accepted raw claims uid borne parsed named) after
                      (rw kept (any_role-joined site at role uid w.db yes)) still)
                  still)
        ]

  pub dispatch-Keeps :
      (r : Request)
      → ((route : Route) (param : String → String)
          → Keeps (handle site at route) (record r { param = param }))
      → Keeps (dispatch site at) r
  unfolding dispatch
  dispatch-Keeps r keeps w k = elim (Option-cases (site.chi (routes site.cfg.app_env) r)) [
    | inl missing ↦
        let answered : dispatch site at r w ≡ (site.unmatched r, w) = ground arith in
        kept_by (ap (λ (x : Response × World S). x.1.db) answered) k
    | inr ((route, param), found) ↦
        let answered : dispatch site at r w ≡ handle site at route (record r { param = param }) w =
          ground arith in
        kept_by (ap (λ (x : Response × World S). x.1.db) answered) (keeps route param w k)
  ]

  -- A property that the audit log has no part in.
  module _
      (logs : (t : Tables) (rows : List AuditLog) (n : ℕ)
        → K t
        → K (record t { audit_logs = rows; next_audit = n })) where
    insert-Keeps :
        (uid : ℤ) (method path : String) (status : ℕ) (ip rid : String) (db : Db)
        → K db.tables
        → K (exec (insert_audit uid method path status ip rid at.now) db).1.tables
    unfolding insert_audit exec
    insert-Keeps uid method path status ip rid db k =
        let after = (exec (insert_audit uid method path status ip rid at.now) db).1.tables in
        let same : after
            ≡ record db.tables { audit_logs = after.audit_logs; next_audit = after.next_audit } =
          elim (Bool-cases (db.fails db.calls)) [
            | inl lost ↦ elim (Bool-cases (fits method path ip rid)) [
              | inl fit ↦ ground arith
              | inr long ↦ ground arith
            ]
            | inr sent ↦ elim (Bool-cases (fits method path ip rid)) [
              | inl fit ↦ ground arith
              | inr long ↦ ground arith
            ]
          ] in
        subst K (sym same) (logs db.tables after.audit_logs after.next_audit k)

    audited-Keeps : (r : Request) → Keeps (dispatch site at) r → Keeps (audited site at) r
    unfolding audited audit
    audited-Keeps r keeps w k = insert-Keeps _ _ _ _ _ _ _ (keeps w k)

    measured-Keeps : (r : Request) → Keeps (dispatch site at) r → Keeps (measured site at) r
    unfolding measured observe recorded log_request
    measured-Keeps r keeps w k = audited-Keeps r keeps w k

    pub serve-Keeps :
        (r : Request) → Keeps (dispatch site at) (arriving site at r) → Keeps (serve site at) r
    unfolding serve security_headers cors body_limit request_id limited
    serve-Keeps r keeps w k =
        let l = new_redis_limiter net cfg.rate_burst (pos 60) (ip_key net) cfg.rate_allow_cidr in
        let q = arriving site at r in
        if-Keeps (q.method == "OPTIONS") (pure (empty_response 204))
          (redis_limit net redis l (measured site at) q) w (λ _. k)
          (limited-Keeps l (measured site at) q (measured-Keeps q keeps) w k)
