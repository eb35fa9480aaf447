-- ===== src/Router/Escalation.antt =====
-- internal/server/server.go: the role admin through sequences of requests.
use go_notes_api.Base.{◌≡◌, ◌≢◌, ◌∙◌, true, false, List, ok, arith}
use go_notes_api.Base.Int.{ℤ}
use go_notes_api.Base.Keys.{IsKeyed}
use go_notes_api.Schema.{Tables}
use go_notes_api.Sql.{query}
use go_notes_api.Http.{Request}
use go_notes_api.World.{World}
use go_notes_api.Repos.Closed.{IsClosed, HasAdmin, along, no_notes, no_tokens, no_users, no_keys}
use go_notes_api.Repos.Frames.{assign-frame}
use go_notes_api.Repos.Roles.{joined, has, count_grants}
use go_notes_api.Repos.Roles.Escalation.{same_id, assign-joined}
use go_notes_api.Router.{Site, Moment, serve_all}
use go_notes_api.Router.Invariant.{always_keeps}
use go_notes_api.Repos.Sound.{Anyone, Anything}

module _ {F S : Type 0} (site : Site F S) (ne : site.mysql.same "user" "admin" ≡ false) where
  open site use {mysql}

  -- Nobody has the role admin, where the ids of roles are unique.
  abbrev NoAdmin : Tables → Type 0
  NoAdmin t =
      IsKeyed same_id t.roles × ((uid : ℤ) → joined mysql uid "admin" t.roles t.user_roles ≡ 0)

  none_entitled {ℓ} : {A : Type ℓ} (t : Tables) → NoAdmin t → HasAdmin mysql t → A
  none_entitled t (keyed, nobody) (by, entitled) = let idle = nobody by in absurd (ground arith)

  grants_closed : IsClosed mysql Anyone Anything NoAdmin
  grants_closed = record {
    grants = record {
      join = λ uid d k.
          along NoAdmin (assign-frame mysql d uid "user")
            (k.0, λ other. assign-joined mysql "admin" "user" ne uid other d k.0 ∙ k.1 other);
      assign = λ uid role d by k. none_entitled d.tables k by;
      unassign = λ uid role d by k. none_entitled d.tables k by;
    };
    notes = no_notes mysql _ (λ t rows n k. k);
    tokens = no_tokens mysql _ (λ t rows k. k);
    users = no_users mysql _ (λ t rows n k. k);
    keys = no_keys mysql _ (λ t rows k. k);
    log = λ t rows n k. k;
  }

  -- If nobody has the role admin, the ids of roles are unique and the server tells the names user
  -- and admin apart, then after any sequence of served requests, whichever statements fail, Has
  -- finds the role admin for no user.
  pub serve_all-no_admin :
      (rs : List (Moment × Request)) (w : World S) (uid : ℤ)
      → IsKeyed same_id w.db.roles
      → ((v : ℤ) → joined mysql v "admin" w.db.roles w.db.user_roles ≡ 0)
      → (has mysql uid "admin" (serve_all site rs w).db).0 ≢ ok true
  unfolding has query count_grants
  serve_all-no_admin rs w uid keyed nobody =
      let still = (always_keeps site NoAdmin grants_closed rs w (keyed, nobody)).1 uid in
      ground arith
