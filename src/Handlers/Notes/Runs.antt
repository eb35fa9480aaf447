-- ===== src/Handlers/Notes/Runs.antt =====
-- internal/handlers/notes.go: the steps of a PUT or DELETE that carries an Idempotency-Key.
use Prim.Native.String.{◌++◌}
use go_notes_api.Base.{
  ◌≡◌, ◌∙◌, ap, Bool, true, false, ℕ, ◌+◌, none, some, String, ok, err, arith, ◌==◌, eq_of_text,
  exists_where, first_where, on_result,
}
use go_notes_api.Base.Int.{ℤ, eq_of_int}
use go_notes_api.Base.Text.{format_int, trim_space}
use go_notes_api.Schema.{Note, Db}
use go_notes_api.Http.{Request, Response, user_id}
use go_notes_api.Sql.{Mysql}
use go_notes_api.Repos.Notes as Repo
use go_notes_api.Repos.Notes.{is_note, edit_note}
use go_notes_api.Repos.Notes.Effects.{get-found, update_answer}
use go_notes_api.Repos.Idempotency.{ClaimError}
use go_notes_api.Repos.IdempotencyGeneric.{claim, complete}
use go_notes_api.Repos.IdempotencyGeneric.Replay.{IsDone, claim-complete-IsDone}
use go_notes_api.Handlers.Notes.{
  Codec, NoteInput, claiming, update_claimed, finish, refused, replayed,
}

-- No statement fails any more.
abbrev pub IsHealthy : Db → Type 0
IsHealthy db = (n : ℕ) → db.fails n ≡ false

module _ (mysql : Mysql) (key : String) (uid : ℤ) (method path hash : String) (now : ℤ)
    (db : Db) where
  open mysql use {same}

  -- A claim touches the keys only.
  pub claim-notes : (claim mysql key uid method path hash now db).1.notes ≡ db.notes
  unfolding claim
  claim-notes = ground arith

  pub claim-fails : (claim mysql key uid method path hash now db).1.fails ≡ db.fails
  unfolding claim
  claim-fails = ground arith

  pub claim_new :
      exists_where (λ r. same r.key key) db.idempotency_keys ≡ false
      → IsHealthy db
      → (claim mysql key uid method path hash now db).0 ≡ ok none
  unfolding claim
  claim_new new healthy = ground (arith, healthy db.calls, healthy (db.calls + 1))

  -- A claim of a key that is taken changes no table.
  pub claim_taken :
      exists_where (λ r. same r.key key) db.idempotency_keys ≡ true
      → (claim mysql key uid method path hash now db).1.tables ≡ db.tables
  unfolding claim
  claim_taken taken = ground arith

module _ (uid id : ℤ) (title body : String) (now : ℤ) (db : Db) where
  pub update-keys : (Repo.update uid id title body now db).1.idempotency_keys ≡ db.idempotency_keys
  unfolding Repo.update
  update-keys = ground arith

  pub update-fails : (Repo.update uid id title body now db).1.fails ≡ db.fails
  unfolding Repo.update
  update-fails = ground arith

  pub delete-keys : (Repo.delete uid id now db).1.idempotency_keys ≡ db.idempotency_keys
  unfolding Repo.delete
  delete-keys = ground arith

  pub delete-fails : (Repo.delete uid id now db).1.fails ≡ db.fails
  unfolding Repo.delete
  delete-fails = ground arith

module _ (codec : Codec) (mysql : Mysql) (r : Request) (id : ℤ) where
  open codec use {note_json}

  abbrev pub key : String
  key = r.header "Idempotency-Key"

  -- The state in which the note is edited, and the state in which the key is completed.
  abbrev pub claimed : String → String → ℤ → Db → Db
  claimed method hash now db =
      (claim mysql key (user_id r) method ("/notes/" ++ format_int id) hash now db).1

  -- A first request, granted and carried out.
  pub claiming-granted :
      (method hash : String) (now : ℤ) (rest : Db → Response × Db) (db : Db)
      → (key == "") ≡ false
      → (claim mysql key (user_id r) method ("/notes/" ++ format_int id) hash now db).0 ≡ ok none
      → claiming codec mysql r key method id hash now rest db ≡ rest (claimed method hash now db)
  unfolding claiming
  claiming-granted method hash now rest db keyed granted = ground arith

  pub claiming-replayed :
      (method hash text : String) (now : ℤ) (rest : Db → Response × Db) (db : Db)
      → (key == "") ≡ false
      → (claim mysql key (user_id r) method ("/notes/" ++ format_int id) hash now db).0
        ≡ ok (some text)
      → claiming codec mysql r key method id hash now rest db
        ≡ (replayed codec mysql text, claimed method hash now db)
  unfolding claiming
  claiming-replayed method hash text now rest db keyed done = ground arith

  pub claiming-refused :
      (method hash : String) (e : ClaimError) (now : ℤ) (rest : Db → Response × Db) (db : Db)
      → (key == "") ≡ false
      → (claim mysql key (user_id r) method ("/notes/" ++ format_int id) hash now db).0 ≡ err e
      → claiming codec mysql r key method id hash now rest db
        ≡ (refused codec mysql r e, claimed method hash now db)
  unfolding claiming
  claiming-refused method hash e now rest db keyed done = ground arith

  -- The end of a handler that was granted the key.
  pub finish-keyed :
      (now : ℤ) (n : Note) (db : Db)
      → (key == "") ≡ false
      → ((finish codec mysql r key now n db).0.body ≡ note_json n)
        × ((finish codec mysql r key now n db).0.status ≡ 200)
        × ((finish codec mysql r key now n db).1
            ≡ (complete mysql key (user_id r) (note_json n) now db).1)
  unfolding finish
  finish-keyed now n db keyed = ground arith

  module _ (input : NoteInput) (hash : String) (now : ℤ) (db : Db) (n : Note)
      (keyed : (key == "") ≡ false)
      (new : exists_where (λ k. mysql.same k.key key) db.idempotency_keys ≡ false)
      (healthy : IsHealthy db)
      (found : first_where (is_note (user_id r) id) db.notes ≡ some n) where
    abbrev pub edited : Note
    edited = edit_note (trim_space input.title) input.body now n

    abbrev pub first : Db
    first = claimed "PUT" hash now db

    abbrev pub mid : Db
    mid = (Repo.update (user_id r) id (trim_space input.title) input.body now first).1

    pub first-sent : (k : ℕ) → first.fails k ≡ false
    first-sent k =
        ap (λ (f : ℕ → Bool). f k)
          (claim-fails mysql key (user_id r) "PUT" ("/notes/" ++ format_int id) hash now db)
        ∙ healthy k

    pub updated :
        (Repo.update (user_id r) id (trim_space input.title) input.body now first).0 ≡ ok edited
    updated =
        let read = get-found (user_id r) id first n (first-sent first.calls) (
          ap (first_where (is_note (user_id r) id))
            (claim-notes mysql key (user_id r) "PUT" ("/notes/" ++ format_int id) hash now db)
          ∙ found) in
        update_answer (user_id r) (trim_space input.title) input.body now first id
          (first-sent first.calls, first-sent (first.calls + 1))
        ∙ ap (λ o. on_result o err (λ m. ok (edit_note (trim_space input.title) input.body now m)))
            read

    pub update_claimed-run :
        (update_claimed codec mysql r key id input now first)
        ≡ finish codec mysql r key now edited mid
    unfolding update_claimed
    update_claimed-run = ground (arith, updated)

    pub update_claimed-IsDone :
        IsDone mysql key
          (user_id r)
          hash
          (note_json edited)
          (complete mysql key (user_id r) (note_json edited) now mid).1
    update_claimed-IsDone =
        claim-complete-IsDone mysql key (user_id r) "PUT" ("/notes/" ++ format_int id) hash
          (note_json edited) now now db mid
          (claim_new mysql key (user_id r) "PUT" ("/notes/" ++ format_int id) hash now db new
            healthy)
          (healthy _) (update-keys (user_id r) id (trim_space input.title) input.body now first)
          (ap (λ (f : ℕ → Bool). f mid.calls)
              (update-fails (user_id r) id (trim_space input.title) input.body now first)
            ∙ first-sent mid.calls)

    -- The whole first request.
    pub claiming-run :
        claiming codec mysql r key "PUT" id hash now
          (update_claimed codec mysql r key id input now)
          db
        ≡ finish codec mysql r key now edited mid
    claiming-run =
        claiming-granted "PUT" hash now (update_claimed codec mysql r key id input now) db keyed (
          claim_new mysql key (user_id r) "PUT" ("/notes/" ++ format_int id) hash now db new
            healthy)
        ∙ update_claimed-run
