-- ===== src/Handlers/Notes/Retry.antt =====
-- internal/handlers/notes.go, update: a PUT with an Idempotency-Key and its retry.
use Prim.Native.String.{◌++◌}
use package.text.Mathlib.TextPositions.{eq_refl}
use go_notes_api.Base.{
  ◌≡◌, ◌∙◌, ap, sym, false, some, String, arith, ◌==◌, eq_of_text, exists_where, first_where, take,
  subst,
}
use go_notes_api.Base.Int.{ℤ, eq_of_int}
use go_notes_api.Base.Text.{parse_int, format_int, hex}
use go_notes_api.Schema.{Note, Db}
use go_notes_api.Http.{parsed_id, Request, Response, user_id}
use go_notes_api.Sql.{Mysql}
use go_notes_api.Repos.Notes.{is_note}
use go_notes_api.Repos.IdempotencyGeneric.Once.{Later}
use go_notes_api.Repos.IdempotencyGeneric.Replay.{
  IsDone, IsDone-taken, IsSent, claim_done, Later-IsDone,
}
use go_notes_api.Handlers.Notes.{
  Codec, NoteInput, claiming, update_claimed, finish, update, replayed,
}
use go_notes_api.Handlers.Notes.Runs.{
  IsHealthy, claim_taken, claiming-replayed, finish-keyed, claiming-run, update_claimed-IsDone,
  edited, mid,
}

module _ (codec : Codec) (mysql : Mysql) (r : Request) (id : ℤ) (input : NoteInput) (now now' : ℤ)
    (db last : Db) (n : Note) (named : parsed_id (parse_int (r.param "id")) ≡ some id)
    (keyed : (r.header "Idempotency-Key" == "") ≡ false)
    (decoded : codec.decode_note (take 1048576 r.body) ≡ some input) where
  open codec use {sha256}

  abbrev hash : String
  hash = hex (sha256 (take 1048576 r.body))

  update-claiming :
      (at : ℤ) (d : Db)
      → update codec mysql r at d
        ≡ claiming codec mysql r
            (r.header "Idempotency-Key")
            "PUT"
            id
            hash
            at
            (update_claimed codec mysql r (r.header "Idempotency-Key") id input at)
            d
  unfolding update
  update-claiming at d = ground arith

  module _
      (new : exists_where (λ k. mysql.same k.key (r.header "Idempotency-Key")) db.idempotency_keys
        ≡ false)
      (healthy : IsHealthy db)
      (found : first_where (is_note (user_id r) id) db.notes ≡ some n) where
    first_run :
        update codec mysql r now db
        ≡ finish codec mysql r
            (r.header "Idempotency-Key")
            now
            (edited codec mysql r id input hash now db n keyed new healthy found)
            (mid codec mysql r id input hash now db n keyed new healthy found)
    first_run =
        update-claiming now db
        ∙ claiming-run codec mysql r id input hash now db n keyed new healthy found

    abbrev resp : String
    resp = codec.note_json (edited codec mysql r id input hash now db n keyed new healthy found)

    first_lem :
        ((update codec mysql r now db).0.body ≡ resp)
        × ((update codec mysql r now db).0.status ≡ 200)
        × IsDone mysql
            (r.header "Idempotency-Key")
            (user_id r)
            hash
            resp
            (update codec mysql r now db).1
    first_lem =
        let (body, status, stored) =
          finish-keyed codec mysql r id now
            (edited codec mysql r id input hash now db n keyed new healthy found)
            (mid codec mysql r id input hash now db n keyed new healthy found) keyed in
        (
          ap (λ (o : Response × Db). o.0.body) first_run ∙ body,
          ap (λ (o : Response × Db). o.0.status) first_run ∙ status,
          subst (IsDone mysql (r.header "Idempotency-Key") (user_id r) hash resp)
              (sym (ap (λ (o : Response × Db). o.1) first_run ∙ stored))
              (update_claimed-IsDone codec mysql r id input hash now db n keyed new healthy found),
        )

    -- A PUT with an Idempotency-Key that is not taken, with an id and a body that parse, on a note
    -- of the user, while no statement fails, is answered with 200; and the same request, sent again
    -- after any later steps on the keys, gets the same body with 200 and changes no table, if BEGIN
    -- and the SELECT of its claim get through.
    pub update_retry :
        Later mysql (r.header "Idempotency-Key") (update codec mysql r now db).1 last
        → IsSent last
        → ((update codec mysql r now db).0.status ≡ 200)
          × ((update codec mysql r now' last).0.status ≡ 200)
          × ((update codec mysql r now' last).0.body ≡ (update codec mysql r now db).0.body)
          × ((update codec mysql r now' last).1.tables ≡ last.tables)
    unfolding replayed
    update_retry later sent =
        let (body, status, done) = first_lem in
        let done' =
          Later-IsDone mysql (r.header "Idempotency-Key") (user_id r) hash resp later done in
        let path = "/notes/" ++ format_int id in
        let granted =
          claim_done mysql (r.header "Idempotency-Key") (user_id r) hash resp "PUT" path hash now'
            last done' sent in
        let taken =
          claim_taken mysql (r.header "Idempotency-Key") (user_id r) "PUT" path hash now' last
            (IsDone-taken mysql (r.header "Idempotency-Key") (user_id r) hash resp last done') in
        let run =
          update-claiming now' last
          ∙ claiming-replayed codec mysql r id "PUT" hash resp now'
              (update_claimed codec mysql r (r.header "Idempotency-Key") id input now') last keyed
              (granted ∙ (rw (eq_refl hash))) in
        (
          status,
          ap (λ (o : Response × Db). o.0.status) run,
          ap (λ (o : Response × Db). o.0.body) run ∙ sym body,
          ap (λ (o : Response × Db). o.1.tables) run ∙ taken,
        )
