-- ===== src/Repos/Notes/Effects.antt =====
-- internal/repos/notes.go: what the operations on one note return, and what a later read finds.
use go_notes_api.Base.{
  ◌≡◌, ◌∙◌, false, ◌+◌, none, some, String, ok, err, arith, first_where, update_where, eq_of_text,
  Option-cases, inl, inr, on_result,
}
use go_notes_api.Base.Int.{ℤ, eq_of_int, int_eq_iff}
use go_notes_api.Base.Rows.{
  first_where-update_where_hit, first_where-none-update_where, first_where-holds,
}
use go_notes_api.Schema.{Note, Db}
use go_notes_api.Sql.{no_rows}
use go_notes_api.Repos.Notes.{is_note, edit_note, create, get, update}

-- The next two statements get through.
abbrev pub IsSent : Db → Type 0
IsSent db = (db.fails db.calls ≡ false) × (db.fails (db.calls + 1) ≡ false)

pub get-found :
    (uid id : ℤ) (db : Db) (n : Note)
    → db.fails db.calls ≡ false
    → first_where (is_note uid id) db.notes ≡ some n
    → (get uid id db).0 ≡ ok n
unfolding get
get-found uid id db n sent found = ground arith

pub get-missing :
    (uid id : ℤ) (db : Db)
    → db.fails db.calls ≡ false
    → first_where (is_note uid id) db.notes ≡ none
    → (get uid id db).0 ≡ err no_rows
unfolding get
get-missing uid id db sent missing = ground arith

edit-is_note :
    (uid id : ℤ) (title body : String) (now : ℤ) (n : Note)
    → is_note uid id (edit_note title body now n) ≡ is_note uid id n
unfolding edit_note
edit-is_note uid id title body now n = ground arith

module _ (uid : ℤ) (title body : String) (now : ℤ) (db : Db) where
  -- If the two statements get through, a note that was created is read back by its owner with the
  -- title and the body that were given, and not deleted.
  pub create-get :
      (id : ℤ)
      → IsSent db
      → (create uid title body now db).0 ≡ ok id
      → (get uid id (create uid title body now db).1).0
        ≡ ok (record {
          id = id;
          user_id = uid;
          title = title;
          body = body;
          created_at = now;
          updated_at = now;
          deleted_at = none;
        })
  unfolding create get first_where
  create-get id (sent, read) made = ground (arith, int_eq_iff uid uid, int_eq_iff id id)

  module _ (id : ℤ) where
    update-hit :
        (n : Note)
        → first_where (is_note uid id) db.notes ≡ some n
        → first_where
            (is_note uid id)
            (update_where (is_note uid id) (edit_note title body now) db.notes)
          ≡ some (edit_note title body now n)
    update-hit n h =
        first_where-update_where_hit (is_note uid id) (is_note uid id) (edit_note title body now)
          db.notes n h (first_where-holds (is_note uid id) db.notes n h)
          (λ m. edit-is_note uid id title body now m)

    update-miss :
        first_where (is_note uid id) db.notes ≡ none
        → first_where
            (is_note uid id)
            (update_where (is_note uid id) (edit_note title body now) db.notes)
          ≡ none
    update-miss h =
        first_where-none-update_where (is_note uid id) (is_note uid id) (edit_note title body now)
          db.notes h (λ m k. edit-is_note uid id title body now m ∙ k)

    -- An update answers the note that a read finds, edited; or, as the read does, that there is none.
    pub update_answer :
        IsSent db
        → (update uid id title body now db).0
          ≡ on_result (get uid id db).0 err (λ n. ok (edit_note title body now n))
    unfolding update
    update_answer (sent, read) = elim (Option-cases (first_where (is_note uid id) db.notes)) [
      | inl missing ↦ ground (arith, update-miss missing)
      | inr (n, found) ↦ ground (arith, update-hit n found)
    ]

    -- If its statements get through, an update answers the note that a read before it finds, with
    -- the new title and body, or that there is none; and a read after it answers the same.
    pub update-get :
        IsSent db
        → db.fails (db.calls + 1 + 1) ≡ false
        → ((update uid id title body now db).0
            ≡ on_result (get uid id db).0 err (λ n. ok (edit_note title body now n)))
          × ((get uid id (update uid id title body now db).1).0
              ≡ (update uid id title body now db).0)
    unfolding update
    update-get (sent, read) again = elim (Option-cases (first_where (is_note uid id) db.notes)) [
      | inl missing ↦ (ground (arith, update-miss missing), ground (arith, update-miss missing))
      | inr (n, found) ↦ (ground (arith, update-hit n found), ground (arith, update-hit n found))
    ]
