-- ===== src/Router/Trail.antt =====
-- internal/server/server.go, router: what a request leaves in the audit log.
use go_notes_api.Base.{◌≡◌, true, arith, ◌==◌, eq_of_text}
use go_notes_api.Http.{Request}
use go_notes_api.World.{World}
use go_notes_api.Middleware.Headers.{security_headers, cors, request_id}
use go_notes_api.Router.{arriving, Site, Moment, serve}

module _ {F S : Type 0} (site : Site F S) (at : Moment) (r : Request) (w : World S) where
  open site use {cfg, net, real_ip}

  pub serve-preflight :
      ((arriving site at r).method == "OPTIONS") ≡ true
      → ((serve site at r w).0.status ≡ 204) × ((serve site at r w).1 ≡ w)
  unfolding serve security_headers cors request_id
  serve-preflight preflight = (ground arith, ground arith)
