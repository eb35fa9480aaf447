-- ===== src/Router/Tests/Runs.antt =====
-- Sequences of requests to a small site.
use go_notes_api.Base.{
  ◌≡◌, refl, false, true, [], ◌∷◌, eq_of_text, arith, rows_where, ok, ◌≢◌, exists_where,
}
use go_notes_api.Base.Int.{ℤ, pos, int_eq}
use go_notes_api.Router.Invariant.{serve_all-Later}
use go_notes_api.Router.Runs.{IsOf}
use go_notes_api.Repos.Closed.{HasAdmin}
use go_notes_api.Repos.Steps.{Later}
use go_notes_api.Repos.Roles
use go_notes_api.Repos.Roles.{count_grants, joined}
use go_notes_api.Router.{arriving, serve_all}
use go_notes_api.Fixtures.{plain_mysql}
use go_notes_api.Repos.Notes.Isolation.{of_user}
use go_notes_api.Router.Isolation.{IsForeign, serve_all-others_notes}
use go_notes_api.Fixtures.Site.{claims, site, at, deleting, world, members, adding, roles_world}
use go_notes_api.Repos.Roles.Escalation.{same_id}
use go_notes_api.Router.Escalation.{serve_all-no_admin}
use go_notes_api.Base.Keys.{IsKeyed}

deleting-IsForeign : IsForeign site at (pos 8) deleting
deleting-IsForeign raw c borne parsed e = let same : claims ≡ c = ground arith in ground arith

serve_all-others_notes_example :
    rows_where
      (of_user (pos 8))
      (serve_all site ((at, deleting) ∷ (at, deleting) ∷ []) world).db.notes
    ≡ rows_where (of_user (pos 8)) world.db.notes
serve_all-others_notes_example =
    serve_all-others_notes site (pos 8) (λ q. refl) ((at, deleting) ∷ (at, deleting) ∷ []) world
      (deleting-IsForeign, (deleting-IsForeign, tt))

deleting-IsOf : IsOf site (λ uid. uid ≡ pos 7) at (arriving site at deleting)
deleting-IsOf raw c uid borne parsed e = let same : claims ≡ c = ground arith in ground arith

serve_all-Later_example :
    Later plain_mysql
      (λ uid. uid ≡ pos 7)
      (λ b. b ≡ at.token)
      (HasAdmin plain_mysql)
      world.db.tables
      (serve_all site ((at, deleting) ∷ (at, deleting) ∷ []) world).db.tables
serve_all-Later_example =
    serve_all-Later site (λ uid. uid ≡ pos 7) (λ b. b ≡ at.token)
      ((at, deleting) ∷ (at, deleting) ∷ []) world
      ((deleting-IsOf, refl), ((deleting-IsOf, refl), tt))

unlike : (plain_mysql.same "user" "admin") ≡ false
unlike = refl

roles-IsKeyed : IsKeyed same_id roles_world.db.roles
unfolding int_eq exists_where
roles-IsKeyed = (refl, (refl, tt))

nobody : (v : ℤ) → joined plain_mysql v "admin" roles_world.db.roles roles_world.db.user_roles ≡ 0
unfolding joined rows_where int_eq
nobody v = ground arith

serve_all-no_admin_example :
    (Roles.has plain_mysql
      (pos 7)
      "admin"
      (serve_all members ((at, adding) ∷ (at, adding) ∷ []) roles_world).db).0
    ≢ ok true
serve_all-no_admin_example =
    serve_all-no_admin members unlike ((at, adding) ∷ (at, adding) ∷ []) roles_world (pos 7)
      roles-IsKeyed nobody
