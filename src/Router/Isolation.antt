-- ===== src/Router/Isolation.antt =====
-- internal/server/server.go: the notes of a user through the whole server.
use go_notes_api.Base.{◌≡◌, ◌≢◌, ◌∙◌, refl, sym, ap, some, List, String, rows_where, All}
use go_notes_api.Base.Int.{ℤ}
use go_notes_api.Base.Rows.{All-map}
use go_notes_api.Schema.{Note}
use go_notes_api.Http.{Request, bearer}
use go_notes_api.Jwt.{Claims}
use go_notes_api.World.{World}
use go_notes_api.Repos.Closed.{IsClosed, no_tokens, no_users, no_grants, no_keys}
use go_notes_api.Repos.Notes.Isolation.{of_user, create-apart, update-apart, delete-apart}
use go_notes_api.Middleware.{key_fn}
use go_notes_api.Router.{Site, Moment, arriving, serve_all}
use go_notes_api.Router.Runs.{IsOf, serve_all_keeps}

module _ {F S : Type 0} (site : Site F S) (at : Moment) (v : ℤ) where
  open site use {jwt, loaded, any_of, auth_cfg}

  -- A request without a token of the user that Parse accepts.
  abbrev pub IsForeign : Request → Type 0
  IsForeign r =
      (raw : String) (claims : Claims)
      → bearer r ≡ some raw
      → jwt.parse (key_fn jwt any_of loaded auth_cfg) (some auth_cfg.jwt_audience)
          (some auth_cfg.jwt_issuer) at.now raw
        ≡ some claims
      → claims.sub ≢ some v

  arriving-IsOf :
      (r : Request)
      → ((q : Request) → bearer (site.real_ip q) ≡ bearer q)
      → IsForeign r
      → IsOf site (λ uid. uid ≢ v) at (arriving site at r)
  arriving-IsOf r same foreign raw claims uid borne parsed named e =
      foreign raw claims (sym (same _) ∙ borne) parsed (named ∙ ap some e)

module _ {F S : Type 0} (site : Site F S) (v : ℤ)
    (same : (q : Request) → bearer (site.real_ip q) ≡ bearer q) where
  theirs_closed :
      (rows : List Note)
      → IsClosed site.mysql
          (λ uid. uid ≢ v)
          (λ b. Unit {0})
          (λ t. rows_where (of_user v) t.notes ≡ rows)
  theirs_closed rows = record {
    notes = record {
      create = λ uid title body now d ne k. create-apart v uid now d ne title body ∙ k;
      update = λ uid id title body now d ne k. update-apart v uid now d ne id title body ∙ k;
      delete = λ uid id now d ne k. delete-apart v uid now d ne id ∙ k;
    };
    tokens = no_tokens site.mysql _ (λ t rows k. k);
    users = no_users site.mysql _ (λ t rows n k. k);
    grants = no_grants site.mysql _ (λ t rows k. k);
    keys = no_keys site.mysql _ (λ t rows k. k);
    log = λ t rows n k. k;
  }

  -- Whatever sequence of requests is served and whichever statements fail: if Parse accepts no
  -- token in any of them as one of a user, the rows of that user's notes stay exactly as they were,
  -- provided that RealIP leaves the Authorization header as it is.
  pub serve_all-others_notes :
      (rs : List (Moment × Request)) (w : World S)
      → All (λ p. IsForeign site p.0 v p.1) rs
      → rows_where (of_user v) (serve_all site rs w).db.notes ≡ rows_where (of_user v) w.db.notes
  serve_all-others_notes rs w h =
      serve_all_keeps site (λ uid. uid ≢ v) (λ b. Unit {0}) _
        (theirs_closed (rows_where (of_user v) w.db.notes)) rs w
        (All-map rs h (λ p foreign. (arriving-IsOf site p.0 v p.1 same foreign, tt))) refl
