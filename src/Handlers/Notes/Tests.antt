-- ===== src/Handlers/Notes/Tests.antt =====
-- Requests to /notes on small tables.
use go_notes_api.Base.{
  ◌≡◌, refl, false, ◌+◌, none, some, ok, [], ◌∷◌, exists_where, first_where, rows_where,
  update_where, ◌==◌, eq_of_text, eq_of_nat, if◌then◌else◌, String,
}
use go_notes_api.Base.Int.{pos, int_lt, int_eq, eq_of_int, ◌-ℤ◌, ◌*ℤ◌}
use go_notes_api.Base.Text.{parse_int, value_of, trim_space, hex}
use go_notes_api.Schema.{Note, IdempotencyKey, Db}
use go_notes_api.Http.{Request, empty_response, set_header}
use go_notes_api.Errors.{not_found, conflict}
use go_notes_api.Sql.{limit_offset, exec, query, begin_tx, rollback, commit}
use go_notes_api.Fixtures.{plain_mysql, empty_db, no_tables, plain_codec, plain_request}
use go_notes_api.Repos.Notes as Repo
use go_notes_api.Repos.Notes.{
  sanitize_sort, clamp_page, clamp_size, insert_note, select_note, edit_note, update_note, bury,
  count_notes, select_page, Listing,
}
use go_notes_api.Repos.Idempotency.{insert_key, select_key}
use go_notes_api.Repos.IdempotencyGeneric.{complete_text, refuse, replay, claim, complete}
use go_notes_api.Repos.IdempotencyGeneric.Once as Keys
use go_notes_api.Repos.IdempotencyGeneric.Once.{here, next}
use go_notes_api.Repos.IdempotencyGeneric.Replay.{IsDone}
use go_notes_api.Handlers.Notes.{
  update, delete, get, list, fail, update_claimed, delete_claimed, claiming, finish, refused,
  replayed, max_id, coll_etag, note_etag, NoteInput,
}
use go_notes_api.Handlers.Notes.Retry.{update_retry}
use go_notes_api.Handlers.Notes.Conflicts.{delete-replayed, update_stuck}
use go_notes_api.Handlers.Notes.Caching.{list_ignores_edits, listing_etag}

abbrev two_of : NoteInput
two_of = record { title = "milk"; body = "two" }

abbrev milk : Note
milk = record {
  id = pos 1;
  user_id = pos 7;
  title = "milk";
  body = "one";
  created_at = pos 5;
  updated_at = pos 5;
  deleted_at = none;
}

-- User 7 has the note 1.
abbrev one_note : Db
one_note = record empty_db { tables = record no_tables { notes = milk ∷ []; next_note = 2 } }

-- The PUT of `plain_request`, and a claim of the key by user 8 after it.
abbrev after_put : Db
after_put = (update plain_codec plain_mysql plain_request (pos 9) one_note).1

abbrev after_claim : Db
after_claim = (claim plain_mysql "k" (pos 8) "PUT" "/notes/2" "bb" (pos 20) after_put).1

runs : Unit {0}
unfolding update delete get list update_claimed delete_claimed claiming finish refused replayed
    claim complete complete_text refuse replay insert_key select_key Repo.update Repo.delete
    Repo.get Repo.list_filtered sanitize_sort clamp_page clamp_size limit_offset count_notes
    select_page max_id coll_etag note_etag rows_where int_lt select_note edit_note update_note bury
    exec query begin_tx rollback commit exists_where first_where update_where int_eq parse_int hex
    trim_space
runs = tt

after_claim-sent :
    (after_claim.fails after_claim.calls ≡ false)
    × (after_claim.fails (after_claim.calls + 1 + 1) ≡ false)
unfolding runs
after_claim-sent = (refl, refl)

new_key : exists_where (λ k. k.key == "k") one_note.idempotency_keys ≡ false
unfolding runs
new_key = refl

read : first_where (Repo.is_note (pos 7) (pos 1)) one_note.notes ≡ some milk
unfolding runs
read = refl

update_retry_example :
    ((update plain_codec plain_mysql plain_request (pos 9) one_note).0.status ≡ 200)
    × ((update plain_codec plain_mysql plain_request (pos 30) after_claim).0.status ≡ 200)
    × ((update plain_codec plain_mysql plain_request (pos 30) after_claim).0.body
        ≡ (update plain_codec plain_mysql plain_request (pos 9) one_note).0.body)
    × ((update plain_codec plain_mysql plain_request (pos 30) after_claim).1.tables
        ≡ after_claim.tables)
unfolding parse_int
update_retry_example =
    update_retry plain_codec plain_mysql plain_request (pos 1) two_of (pos 9) (pos 30) one_note
      after_claim milk refl refl refl new_key (λ n. refl) read
      (next here (Keys.claiming "k" (pos 8) "PUT" "/notes/2" "bb" (pos 20) refl)) after_claim-sent

-- A PUT to note 1 of an empty table.
abbrev after_miss : Db
after_miss = (update plain_codec plain_mysql plain_request (pos 9) empty_db).1

after_miss-sent :
    (after_miss.fails after_miss.calls ≡ false)
    × (after_miss.fails (after_miss.calls + 1 + 1) ≡ false)
unfolding runs
after_miss-sent = (refl, refl)

no_key : exists_where (λ k. k.key == "k") empty_db.idempotency_keys ≡ false
unfolding runs
no_key = refl

no_note : first_where (Repo.is_note (pos 7) (pos 1)) empty_db.notes ≡ none
unfolding runs
no_note = refl

update_stuck_example :
    ((update plain_codec plain_mysql plain_request (pos 9) empty_db).0
      ≡ fail plain_codec plain_request not_found)
    × ((update plain_codec plain_mysql plain_request (pos 30) after_miss).0
        ≡ set_header "Retry-After" "2" (fail plain_codec plain_request conflict))
unfolding parse_int
update_stuck_example =
    update_stuck plain_codec plain_mysql plain_request (pos 1) two_of (pos 9) (pos 30) empty_db
      after_miss refl refl refl no_key (λ n. refl) no_note refl after_miss-sent

-- User 7 has deleted note 2 under the key "k".
abbrev deletion : IdempotencyKey
deletion = record {
  key = "k";
  user_id = pos 7;
  method = "DELETE";
  path = "/notes/2";
  body_sha256 = "delete";
  note_id = none;
  claimed_at = pos 3;
  completed_at = some (pos 3);
  result_text = some "eggs";
}

abbrev after_delete : Db
after_delete = record one_note {
  tables = record one_note.tables { idempotency_keys = deletion ∷ [] };
}

deletion-IsDone : IsDone plain_mysql "k" (pos 7) "delete" "eggs" after_delete
unfolding runs
deletion-IsDone = record {
  row = deletion;
  found = refl;
  hashed = refl;
  completed = refl;
  stored = refl;
}

delete-replayed_example :
    ((delete plain_codec plain_mysql plain_request (pos 9) after_delete).0
      ≡ replayed plain_codec plain_mysql "eggs")
    × ((delete plain_codec plain_mysql plain_request (pos 9) after_delete).1.tables
        ≡ after_delete.tables)
unfolding parse_int
delete-replayed_example =
    delete-replayed plain_codec plain_mysql plain_request (pos 1) (pos 9) after_delete "eggs" refl
      refl deletion-IsDone (refl, refl)

-- The client saw note 1 before its body was edited.
abbrev seen : Note
seen = record milk { body = "none" }

abbrev held : String
held = listing_etag plain_codec plain_mysql plain_request (seen ∷ [])

abbrev again : Request
again = record plain_request { header = λ name. if name == "If-None-Match" then held else "" }

abbrev shown : Listing
shown = record { items = milk ∷ []; total = 1 }

listed :
    (Repo.list_filtered plain_mysql
      (pos 7)
      (clamp_page (value_of (parse_int "")))
      (clamp_size (value_of (parse_int "")))
      ""
      ""
      one_note).0
    ≡ ok shown
unfolding runs ◌*ℤ◌ ◌-ℤ◌
listed = refl

list_ignores_edits_example : (list plain_codec plain_mysql again one_note).0 ≡ empty_response 304
list_ignores_edits_example =
    list_ignores_edits plain_codec plain_mysql again one_note (seen ∷ []) shown listed refl refl
