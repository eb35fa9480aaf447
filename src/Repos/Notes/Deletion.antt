-- ===== src/Repos/Notes/Deletion.antt =====
-- internal/repos/notes.go, Delete: what becomes of a deleted note.
use go_notes_api.Base.{
  ◌≡◌, true, false, ℕ, ◌+◌, none, some, String, List, ok, arith, All, first_where, eq_of_text,
  Bool-cases, inl, inr,
}
use go_notes_api.Base.Int.{ℤ, pos, int_lt, eq_of_int, int_eq_iff}
use go_notes_api.Base.Rows.{
  first_where-update_where-none, first_where-none-update_where, All-update_where, All-first_where,
  first_where-holds, All-map,
}
use go_notes_api.Schema.{Note, Db}
use go_notes_api.Repos.Notes.{is_note, edit_note, bury_note, create, update, delete}

-- Every id is below the next value of the AUTO_INCREMENT column.
abbrev pub IsBelow : ℕ → Note → Type 0
IsBelow next n = int_lt n.id (pos next) ≡ true

abbrev pub IsNumbered : Db → Type 0
IsNumbered db = All (IsBelow db.next_note) db.notes

IsBelow-suc : (bound : ℕ) (n : Note) → IsBelow bound n → IsBelow (bound + 1) n
unfolding int_lt
IsBelow-suc bound n h = ground arith

edit-IsBelow :
    (bound : ℕ) (title body : String) (now : ℤ) (n : Note)
    → IsBelow bound n
    → IsBelow bound (edit_note title body now n)
unfolding edit_note
edit-IsBelow bound title body now n h = ground arith

next-IsBelow : (bound : ℕ) → int_lt (pos bound) (pos (bound + 1)) ≡ true
unfolding int_lt
next-IsBelow bound = ground arith

pub create-IsNumbered :
    (uid : ℤ) (title body : String) (now : ℤ) (db : Db)
    → IsNumbered db
    → IsNumbered (create uid title body now db).1
unfolding create
create-IsNumbered uid title body now db h =
    let older = All-map db.notes h (λ n k. IsBelow-suc db.next_note n k) in
    elim (Bool-cases (db.fails db.calls)) [
      | inl lost ↦ elim (Bool-cases (db.kept db.calls)) [
        | inl kept ↦ rw (lost, kept) (next-IsBelow db.next_note, older)
        | inr dropped ↦ rw (lost, dropped) h
      ]
      | inr sent ↦ rw sent (next-IsBelow db.next_note, older)
    ]

pub update-IsNumbered :
    (uid id : ℤ) (title body : String) (now : ℤ) (db : Db)
    → IsNumbered db
    → IsNumbered (update uid id title body now db).1
unfolding update
update-IsNumbered uid id title body now db h =
    let kept =
      All-update_where (IsBelow db.next_note) (is_note uid id) (edit_note title body now) db.notes h
        (λ n k m. edit-IsBelow db.next_note title body now n m) in
    ground arith

pub delete-IsNumbered :
    (uid id now : ℤ) (db : Db) → IsNumbered db → IsNumbered (delete uid id now db).1
unfolding delete
delete-IsNumbered uid id now db h =
    let kept =
      All-update_where (IsBelow db.next_note) (is_note uid id) (bury_note now) db.notes h
        (λ n k m. m) in
    ground arith

module _ (uid id : ℤ) where
  -- The id was given out, and a read by the user finds nothing.
  pub record IsGone (notes : List Note) (bound : ℕ) : Type 0 where
    pub given : int_lt id (pos bound) ≡ true
    pub missing : first_where (is_note uid id) notes ≡ none

  abbrev pub IsGoneDb : Db → Type 0
  IsGoneDb db = IsGone db.notes db.next_note

  pub create-IsGone :
      (uid' : ℤ) (title body : String) (now : ℤ) (db : Db)
      → IsGoneDb db
      → IsGoneDb (create uid' title body now db).1
  unfolding create first_where int_lt
  create-IsGone uid' title body now db gone =
      ground (arith, gone.given, gone.missing, int_eq_iff (pos db.next_note) id)

  edit-stays :
      (uid' id' : ℤ) (title body : String) (now : ℤ) (n : Note)
      → is_note uid id n ≡ false
      → is_note uid id (edit_note title body now n) ≡ false
  unfolding edit_note
  edit-stays uid' id' title body now n h = ground arith

  pub update-IsGone :
      (uid' id' : ℤ) (title body : String) (now : ℤ) (db : Db)
      → IsGoneDb db
      → IsGoneDb (update uid' id' title body now db).1
  unfolding update
  update-IsGone uid' id' title body now db gone =
      let kept =
        first_where-none-update_where (is_note uid' id') (is_note uid id) (edit_note title body now)
          db.notes gone.missing (λ n k. edit-stays uid' id' title body now n k) in
      ground (arith, gone.given, gone.missing)

  pub delete-IsGone :
      (uid' id' now : ℤ) (db : Db) → IsGoneDb db → IsGoneDb (delete uid' id' now db).1
  unfolding delete
  delete-IsGone uid' id' now db gone =
      let kept =
        first_where-none-update_where (is_note uid' id') (is_note uid id) (bury_note now) db.notes
          gone.missing (λ n k. ground arith) in
      ground (arith, gone.given, gone.missing)

  pub delete_lem :
      (now : ℤ) (db : Db) (n : Note)
      → IsNumbered db
      → (delete uid id now db).0 ≡ ok n
      → IsGoneDb (delete uid id now db).1
  unfolding delete
  delete_lem now db n h done =
      let found : first_where (is_note uid id) db.notes ≡ some n = ground arith in
      let below = All-first_where (IsBelow db.next_note) (is_note uid id) db.notes n h found in
      let held = first_where-holds (is_note uid id) db.notes n found in
      let cleared =
        first_where-update_where-none (is_note uid id) (bury_note now) db.notes
          (λ m. ground arith) in
      ground (arith, int_eq_iff n.id id)
