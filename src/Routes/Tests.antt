-- ===== src/Routes/Tests.antt =====
-- The routes in production, where the pages of the API are not registered, and elsewhere.
use go_notes_api.Base.{◌≡◌, refl, [], ◌∷◌, map, none, some, length, Option, String}
use go_notes_api.Routes.{Entry, routes, mounted, notes_routes}

in_production :
    map {B = Option String × String} (λ (e : Entry). (e.method, e.pattern)) (routes "prod")
    ≡ (some "GET", "/healthz")
      ∷ (some "GET", "/readyz")
      ∷ (some "GET", "/info")
      ∷ (none, "/metrics")
      ∷ (some "POST", "/auth/register")
      ∷ (some "POST", "/auth/login")
      ∷ (some "POST", "/auth/refresh")
      ∷ (some "POST", "/auth/logout")
      ∷ (some "GET", "/admin/ping")
      ∷ (some "GET", "/admin/users")
      ∷ (some "POST", "/admin/users/{id}/roles")
      ∷ (some "GET", "/admin/audit")
      ∷ (some "POST", "/admin/jti/revoke")
      ∷ (some "GET", "/notes/")
      ∷ (some "POST", "/notes/")
      ∷ (some "GET", "/notes/{id}/")
      ∷ (some "PUT", "/notes/{id}/")
      ∷ (some "DELETE", "/notes/{id}/")
      ∷ []
unfolding routes mounted notes_routes
in_production = refl

with_pages : length (routes "dev") ≡ 20
unfolding routes mounted notes_routes
with_pages = refl
