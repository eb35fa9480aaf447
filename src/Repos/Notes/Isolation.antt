-- ===== src/Repos/Notes/Isolation.antt =====
-- internal/repos/notes.go: the notes of a user while others work.
use go_notes_api.Base.{
  ◌≡◌, ◌≢◌, refl, ◌∙◌, ap, Bool, true, false, some, String, ok, arith, rows_where, first_where,
  ◌==◌,
}
use go_notes_api.Base.Int.{ℤ, eq_of_int, int_eq_iff}
use go_notes_api.Base.Rows.{rows_where-update_where, first_where-holds, All-of}
use go_notes_api.Schema.{Note, Db}
use go_notes_api.Repos.Notes.{
  is_present, is_note, edit_note, bury_note, create, get, update, delete,
}

abbrev pub of_user : ℤ → Note → Bool
of_user uid n = n.user_id == uid

module _ (v : ℤ) where
  -- What the service does for users other than `v`.
  pub data Step (db after : Db) : Type 0 where
    creating :
        (uid : ℤ) (title body : String) (now : ℤ)
        → uid ≢ v
        → after ≡ (create uid title body now db).1
        → Step db after
    updating :
        (uid id : ℤ) (title body : String) (now : ℤ)
        → uid ≢ v
        → after ≡ (update uid id title body now db).1
        → Step db after
    deleting : (uid id : ℤ) (now : ℤ) → uid ≢ v → after ≡ (delete uid id now db).1 → Step db after
    elsewhere : after.notes ≡ db.notes → Step db after

  pub data Later (db : Db) : Db → Type 0 where
    here : Later db db
    next : {mid after : Db} → Later db mid → Step mid after → Later db after

  edit-apart :
      (uid id : ℤ) (title body : String) (now : ℤ) (n : Note)
      → uid ≢ v
      → is_note uid id n ≡ true
      → (of_user v n ≡ false) × (of_user v (edit_note title body now n) ≡ false)
  unfolding edit_note
  edit-apart uid id title body now n ne h =
      ground (arith, int_eq_iff n.user_id uid, int_eq_iff n.user_id v)

  bury-apart :
      (uid id now : ℤ) (n : Note)
      → uid ≢ v
      → is_note uid id n ≡ true
      → (of_user v n ≡ false) × (of_user v (bury_note now n) ≡ false)
  bury-apart uid id now n ne h = ground (arith, int_eq_iff n.user_id uid, int_eq_iff n.user_id v)

  module _ (uid : ℤ) (now : ℤ) (db : Db) (ne : uid ≢ v) where
    pub create-apart :
        (title body : String)
        → rows_where (of_user v) (create uid title body now db).1.notes
          ≡ rows_where (of_user v) db.notes
    unfolding create rows_where
    create-apart title body = ground (arith, int_eq_iff uid v)

    pub update-apart :
        (id : ℤ) (title body : String)
        → rows_where (of_user v) (update uid id title body now db).1.notes
          ≡ rows_where (of_user v) db.notes
    unfolding update
    update-apart id title body =
        let kept =
          rows_where-update_where (is_note uid id) (of_user v) (edit_note title body now) db.notes
            (All-of _ db.notes (λ n h. edit-apart uid id title body now n ne h)) in
        ground arith

    pub delete-apart :
        (id : ℤ)
        → rows_where (of_user v) (delete uid id now db).1.notes ≡ rows_where (of_user v) db.notes
    unfolding delete
    delete-apart id =
        let kept =
          rows_where-update_where (is_note uid id) (of_user v) (bury_note now) db.notes
            (All-of _ db.notes (λ n h. bury-apart uid id now n ne h)) in
        ground arith

  Step-apart :
      {db after : Db}
      → Step db after
      → rows_where (of_user v) after.notes ≡ rows_where (of_user v) db.notes
  Step-apart {db} (creating uid title body now ne e) =
      ap (λ (d : Db). rows_where (of_user v) d.notes) e ∙ create-apart uid now db ne title body
  Step-apart {db} (updating uid id title body now ne e) =
      ap (λ (d : Db). rows_where (of_user v) d.notes) e ∙ update-apart uid now db ne id title body
  Step-apart {db} (deleting uid id now ne e) =
      ap (λ (d : Db). rows_where (of_user v) d.notes) e ∙ delete-apart uid now db ne id
  Step-apart (elsewhere e) = ap (rows_where (of_user v)) e

  -- Whatever sequence of creates, updates and deletes runs for other users, the rows of a user's
  -- notes stay exactly as they were.
  pub others_keep_notes :
      {db after : Db}
      → Later db after
      → rows_where (of_user v) after.notes ≡ rows_where (of_user v) db.notes
  others_keep_notes here = refl
  others_keep_notes (next l s) = Step-apart s ∙ others_keep_notes l

-- A note that is read, updated or deleted belongs to the user, has the id and is not deleted.
pub record IsOwn (uid id : ℤ) (n : Note) : Type 0 where
  pub user : n.user_id ≡ uid
  pub named : n.id ≡ id
  pub present : is_present n ≡ true

module _ (uid id : ℤ) (db : Db) (n : Note) where
  found-IsOwn : first_where (is_note uid id) db.notes ≡ some n → IsOwn uid id n
  found-IsOwn h =
      let held = first_where-holds (is_note uid id) db.notes n h in
      ground (arith, int_eq_iff n.user_id uid, int_eq_iff n.id id)

  pub get-IsOwn : (get uid id db).0 ≡ ok n → IsOwn uid id n
  unfolding get
  get-IsOwn h = found-IsOwn (ground arith)

  pub delete-IsOwn : (now : ℤ) → (delete uid id now db).0 ≡ ok n → IsOwn uid id n
  unfolding delete
  delete-IsOwn now h = found-IsOwn (ground arith)
