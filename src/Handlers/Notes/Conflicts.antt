-- ===== src/Handlers/Notes/Conflicts.antt =====
-- internal/handlers/notes.go, update and delete: keys that are taken or left in progress.
use Prim.Native.String.{◌++◌}
use go_notes_api.Base.{
  ◌≡◌, refl, ◌∙◌, ap, Bool, false, ℕ, ◌+◌, none, some, String, ok, err, arith, ◌==◌, eq_of_text,
  exists_where, first_where, take, on_result,
}
use go_notes_api.Base.Int.{ℤ, eq_of_int}
use go_notes_api.Base.Text.{parse_int, format_int, hex, trim_space}
use go_notes_api.Schema.{Db}
use go_notes_api.Http.{parsed_id, Request, Response, user_id, set_header}
use go_notes_api.Errors.{not_found, conflict}
use go_notes_api.Sql.{Mysql}
use go_notes_api.Repos.Notes as Repo
use go_notes_api.Repos.Notes.{is_note, edit_note}
use go_notes_api.Repos.Notes.Effects.{get-missing, update_answer}
use go_notes_api.Repos.IdempotencyGeneric.{claim}
use go_notes_api.Repos.IdempotencyGeneric.Replay.{IsDone, IsDone-taken, IsSent, claim_done}
use go_notes_api.Handlers.Notes.{
  Codec, NoteInput, claiming, update_claimed, delete_claimed, update, delete, refused, replayed,
  fail,
}
use go_notes_api.Repos.IdempotencyGeneric.Waiting.{claim_pending}
use go_notes_api.Handlers.Notes.Runs.{IsHealthy, claim_taken, claiming-replayed, claiming-refused}
use go_notes_api.Sql.{no_rows}
use go_notes_api.Repos.Idempotency.{in_progress}
use go_notes_api.Repos.IdempotencyGeneric.Replay.{claim_grant-found, is_mine, claimed_row}
use go_notes_api.Handlers.Notes.Runs.{
  claim_new, claim-notes, claim-fails, claimed, claiming-granted, update-keys,
}

module _ (codec : Codec) (mysql : Mysql) (r : Request) (id : ℤ) (now : ℤ) (last : Db)
    (resp : String) (named : parsed_id (parse_int (r.param "id")) ≡ some id)
    (keyed : (r.header "Idempotency-Key" == "") ≡ false)
    (done : IsDone mysql (r.header "Idempotency-Key") (user_id r) "delete" resp last)
    (sent : IsSent last) where
  delete-claiming :
      delete codec mysql r now last
      ≡ claiming codec mysql r
          (r.header "Idempotency-Key")
          "DELETE"
          id
          "delete"
          now
          (delete_claimed codec mysql r (r.header "Idempotency-Key") id now)
          last
  unfolding delete
  delete-claiming = ground arith

  -- After a DELETE was completed under a key, a DELETE of any note by that user under the key
  -- answers the stored response and changes no table, if BEGIN and the SELECT of the claim get
  -- through.
  pub delete-replayed :
      ((delete codec mysql r now last).0 ≡ replayed codec mysql resp)
      × ((delete codec mysql r now last).1.tables ≡ last.tables)
  delete-replayed =
      let path = "/notes/" ++ format_int id in
      let granted =
        claim_done mysql (r.header "Idempotency-Key") (user_id r) "delete" resp "DELETE" path
          "delete" now last done sent in
      let taken =
        claim_taken mysql (r.header "Idempotency-Key") (user_id r) "DELETE" path "delete" now last
          (IsDone-taken mysql (r.header "Idempotency-Key") (user_id r) "delete" resp last done) in
      let run =
        delete-claiming
        ∙ claiming-replayed codec mysql r id "DELETE" "delete" resp now
            (delete_claimed codec mysql r (r.header "Idempotency-Key") id now) last keyed granted in
      (ap (λ (o : Response × Db). o.0) run, ap (λ (o : Response × Db). o.1.tables) run ∙ taken)

module _ (codec : Codec) (mysql : Mysql) (r : Request) (id : ℤ) (input : NoteInput) (now now' : ℤ)
    (db last : Db) (named : parsed_id (parse_int (r.param "id")) ≡ some id)
    (keyed : (r.header "Idempotency-Key" == "") ≡ false)
    (decoded : codec.decode_note (take 1048576 r.body) ≡ some input)
    (new : exists_where (λ k. mysql.same k.key (r.header "Idempotency-Key")) db.idempotency_keys
      ≡ false)
    (healthy : IsHealthy db) (missing : first_where (is_note (user_id r) id) db.notes ≡ none) where
  abbrev hash : String
  hash = hex (codec.sha256 (take 1048576 r.body))

  abbrev first : Db
  first = claimed codec mysql r id "PUT" hash now db

  first-fails : (k : ℕ) → first.fails k ≡ false
  first-fails k =
      ap (λ (f : ℕ → Bool). f k)
        (claim-fails mysql (r.header "Idempotency-Key") (user_id r) "PUT"
          ("/notes/" ++ format_int id) hash now db)
      ∙ healthy k

  not_updated :
      (Repo.update (user_id r) id (trim_space input.title) input.body now first).0 ≡ err no_rows
  not_updated =
      let read = get-missing (user_id r) id first (first-fails first.calls) (
        ap (first_where (is_note (user_id r) id)) (
          claim-notes mysql (r.header "Idempotency-Key") (user_id r) "PUT"
            ("/notes/" ++ format_int id) hash now db)
        ∙ missing) in
      update_answer (user_id r) (trim_space input.title) input.body now first id
        (first-fails first.calls, first-fails (first.calls + 1))
      ∙ ap (λ o. on_result o err (λ m. ok (edit_note (trim_space input.title) input.body now m)))
          read

  update_claimed-missing :
      update_claimed codec mysql r (r.header "Idempotency-Key") id input now first ≡ (
        fail codec r not_found,
        (Repo.update (user_id r) id (trim_space input.title) input.body now first).1,
      )
  unfolding update_claimed
  update_claimed-missing = ground (arith, not_updated)

  update-claiming :
      (at : ℤ) (d : Db)
      → update codec mysql r at d
        ≡ claiming codec mysql r
            (r.header "Idempotency-Key")
            "PUT"
            id
            hash
            at
            (update_claimed codec mysql r (r.header "Idempotency-Key") id input at)
            d
  unfolding update
  update-claiming at d = ground arith

  first_granted :
      (claim mysql
        (r.header "Idempotency-Key")
        (user_id r)
        "PUT"
        ("/notes/" ++ format_int id)
        hash
        now
        db).0
      ≡ ok none
  first_granted =
      claim_new mysql (r.header "Idempotency-Key") (user_id r) "PUT" ("/notes/" ++ format_int id)
        hash now db new healthy

  first_run : update codec mysql r now db ≡ (
    fail codec r not_found,
    (Repo.update (user_id r) id (trim_space input.title) input.body now first).1,
  )
  first_run =
      update-claiming now db
      ∙ claiming-granted codec mysql r id "PUT" hash now
          (update_claimed codec mysql r (r.header "Idempotency-Key") id input now) db keyed
          first_granted
      ∙ update_claimed-missing

  -- The keys stand as the claim left them.
  kept : (update codec mysql r now db).1.idempotency_keys ≡ first.idempotency_keys
  kept =
      ap (λ (o : Response × Db). o.1.idempotency_keys) first_run
      ∙ update-keys (user_id r) id (trim_space input.title) input.body now first

  -- While no statement fails, a PUT under a key that is not taken, to a note that is not there, is
  -- answered with 404; and the same request later, while the keys are as it left them, is answered
  -- with 409 and Retry-After, if BEGIN and the SELECT of its claim get through.
  pub update_stuck :
      last.idempotency_keys ≡ (update codec mysql r now db).1.idempotency_keys
      → IsSent last
      → ((update codec mysql r now db).0 ≡ fail codec r not_found)
        × ((update codec mysql r now' last).0
            ≡ set_header "Retry-After" "2" (fail codec r conflict))
  unfolding refused
  update_stuck same_keys sent =
      let path = "/notes/" ++ format_int id in
      let row = claimed_row mysql (r.header "Idempotency-Key") (user_id r) "PUT" path hash now in
      let found =
        ap (first_where (is_mine mysql (r.header "Idempotency-Key") (user_id r))) (same_keys ∙ kept)
        ∙ claim_grant-found mysql (r.header "Idempotency-Key") (user_id r) "PUT" path hash now db
            first_granted (healthy _) in
      let waiting =
        claim_pending mysql (r.header "Idempotency-Key") (user_id r) "PUT" path now' last row found
          refl sent in
      (
        ap (λ (o : Response × Db). o.0) first_run,
        ap (λ (o : Response × Db). o.0)
            (update-claiming now' last
              ∙ claiming-refused codec mysql r id "PUT" hash in_progress now'
                  (update_claimed codec mysql r (r.header "Idempotency-Key") id input now') last
                  keyed waiting),
      )
