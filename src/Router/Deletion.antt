-- ===== src/Router/Deletion.antt =====
-- internal/server/server.go: a deleted note through sequences of requests.
use go_notes_api.Base.{
  ◌≡◌, sym, subst, some, List, arith, Result-cases, inl, inr, eq_of_text, eq_iff,
}
use go_notes_api.Base.Int.{ℤ}
use go_notes_api.Base.Text.{parse_int}
use go_notes_api.Schema.{Db}
use go_notes_api.Http.{Request, user_id, parsed_id}
use go_notes_api.World.{World}
use go_notes_api.Repos.Closed.{IsClosed, no_tokens, no_users, no_grants, no_keys}
use go_notes_api.Repos.Notes as Repo
use go_notes_api.Repos.Notes.Deletion.{
  IsNumbered, IsGone, IsGoneDb, create-IsGone, update-IsGone, delete-IsGone, delete_lem,
}
use go_notes_api.Errors.{write}
use go_notes_api.Handlers.Notes.{delete, delete_claimed, claiming, finish, get}
use go_notes_api.Router.{Site, Moment, serve_all}
use go_notes_api.Router.Invariant.{always_keeps}
use go_notes_api.Repos.Sound.{Anyone, Anything}

module _ {F S : Type 0} (site : Site F S) where
  open site use {mysql, codec}

  module _ (uid id : ℤ) where
    IsGone-IsClosed : IsClosed mysql Anyone Anything (λ t. IsGone uid id t.notes t.next_note)
    IsGone-IsClosed = record {
      notes = record {
        create = λ u title body now d q h. create-IsGone uid id u title body now d h;
        update = λ u i title body now d q h. update-IsGone uid id u i title body now d h;
        delete = λ u i now d q h. delete-IsGone uid id u i now d h;
      };
      tokens = no_tokens mysql _ (λ t rows k. k);
      users = no_users mysql _ (λ t rows n k. k);
      grants = no_grants mysql _ (λ t rows k. k);
      keys = no_keys mysql _ (λ t rows k. k);
      log = λ t rows n k. k;
    }

    serve_all-IsGone :
        (rs : List (Moment × Request)) (w : World S)
        → IsGoneDb uid id w.db
        → IsGoneDb uid id (serve_all site rs w).db
    serve_all-IsGone = always_keeps site _ IsGone-IsClosed

  -- A DELETE without a key that is answered with 200.
  delete-IsGoneDb :
      (r : Request) (id now : ℤ) (db : Db)
      → IsNumbered db
      → r.header "Idempotency-Key" ≡ ""
      → parsed_id (parse_int (r.param "id")) ≡ some id
      → (delete codec mysql r now db).0.status ≡ 200
      → IsGoneDb (user_id r) id (delete codec mysql r now db).1
  unfolding delete delete_claimed claiming finish write
  delete-IsGoneDb r id now db h bare named done =
      let deleted = Repo.delete (user_id r) id now db in
      elim (Result-cases deleted.0) [
        | inl (e, failed) ↦ absurd (ground (arith, eq_iff (r.header "Idempotency-Key") ""))
        | inr (n, found) ↦
            let same : (delete codec mysql r now db).1 ≡ deleted.1 =
              ground (arith, eq_iff (r.header "Idempotency-Key") "") in
            subst (IsGoneDb (user_id r) id) (sym same) (delete_lem (user_id r) id now db n h found)
      ]

  -- If the ids of all notes are below the next one, then after a DELETE without an Idempotency-Key
  -- that was answered with 200, and any sequence of served requests, whichever statements fail, a
  -- GET of the id by the same user is answered with 404.
  pub delete-get :
      (r q : Request) (id now : ℤ) (w : World S) (rs : List (Moment × Request))
      → IsNumbered w.db
      → r.header "Idempotency-Key" ≡ ""
      → parsed_id (parse_int (r.param "id")) ≡ some id
      → (delete codec mysql r now w.db).0.status ≡ 200
      → user_id q ≡ user_id r
      → parsed_id (parse_int (q.param "id")) ≡ some id
      → (get codec q
          (serve_all site rs (record w { db = (delete codec mysql r now w.db).1 })).db).0.status
        ≡ 404
  unfolding get Repo.get write
  delete-get r q id now w rs h bare named done own asked =
      let after : World S = record w { db = (delete codec mysql r now w.db).1 } in
      let gone =
        serve_all-IsGone (user_id r) id rs after
          (delete-IsGoneDb r id now w.db h bare named done) in
      let missing = gone.missing in ground arith
