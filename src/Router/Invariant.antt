-- ===== src/Router/Invariant.antt =====
-- internal/server/server.go: what the server does to the tables, and what the repositories keep.
use go_notes_api.Base.{List, ℕ, All}
use go_notes_api.Base.Int.{ℤ}
use go_notes_api.Base.Rows.{All-of}
use go_notes_api.Schema.{Tables}
use go_notes_api.Http.{Request}
use go_notes_api.World.{World}
use go_notes_api.Repos.Closed.{IsClosed, HasAdmin}
use go_notes_api.Repos.Steps.{Later, here, Later-IsClosed}
use go_notes_api.Repos.Sound.{Anyone, Anything}
use go_notes_api.Router.{Site, Moment, arriving, serve_all}
use go_notes_api.Router.Runs.{IsOf, serve_all_keeps}

module _ {F S : Type 0} (site : Site F S) where
  open site use {mysql}

  -- A property that the repositories always keep.
  pub always_keeps :
      (K : Tables → Type 0)
      → IsClosed mysql Anyone Anything K
      → (rs : List (Moment × Request)) (w : World S) → K w.db.tables
      → K (serve_all site rs w).db.tables
  always_keeps K closed rs w =
      serve_all_keeps site Anyone Anything K closed rs w
        (All-of _ rs (λ p. ((λ raw claims uid borne parsed named. tt), tt)))

  -- Whatever sequence of requests is served and whichever statements fail: what it does to the
  -- tables is a sequence of operations of the repositories, in which a note is written only for a
  -- user in `Q`, a token is made only of bytes in `B`, and a role other than that of a new account
  -- is given or taken only while some user has the role admin; if the requests whose tokens Parse
  -- accepts are of users in `Q`, and the random bytes are in `B`.
  pub serve_all-Later :
      (Q : ℤ → Type 0) (B : List ℕ → Type 0) (rs : List (Moment × Request)) (w : World S)
      → All (λ p. IsOf site Q p.0 (arriving site p.0 p.1) × B p.0.token) rs
      → Later mysql Q B (HasAdmin mysql) w.db.tables (serve_all site rs w).db.tables
  serve_all-Later Q B rs w of =
      serve_all_keeps site Q B _ (Later-IsClosed mysql Q B w.db.tables) rs w of here
