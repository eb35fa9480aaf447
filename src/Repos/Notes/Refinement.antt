-- ===== src/Repos/Notes/Refinement.antt =====
-- internal/repos/notes.go, Create, Update, Delete and Get, against the abstract store of Shelf.
use go_notes_api.Base.{◌≡◌, refl, false, ℕ, ◌+◌, none, some, List, [], ◌∷◌, String, ok, arith}
use go_notes_api.Base.Int.{ℤ, pos, eq_of_int, int_eq_iff}
use go_notes_api.Schema.{Db}
use go_notes_api.Repos.Notes.{create, get, update, delete}
use go_notes_api.Repos.Notes.Shelf.{
  Command, adding, editing, removing, reading, made, shown_note, perform, perform_all, Shelf,
  shown_text, put, rewritten, specified, specified_all, text_at, shelf_of,
}
use go_notes_api.Repos.Notes.Texts.{edit-text_here, edit-text_at, bury-text_at, new-text_at}

-- The tables are the shelf, and no statement fails.
record IsShelf (db : Db) (s : Shelf) : Type 0 where
  counted : db.next_note ≡ s.next
  held : (uid id : ℤ) → text_at uid id db.notes ≡ s.at uid id
  healthy : (n : ℕ) → db.fails n ≡ false

module _ (db : Db) (s : Shelf) (h : IsShelf db s) where
  add-IsShelf :
      (uid : ℤ) (title body : String) (now : ℤ)
      → (made (create uid title body now db).0 ≡ made (ok (pos s.next)))
        × IsShelf
            (create uid title body now db).1
            (record (put uid (pos s.next) (some (title, body)) s) { next = s.next + 1 })
  unfolding create
  add-IsShelf uid title body now =
      let sent = h.healthy db.calls in
      (
        ground (arith, h.counted),
        record {
          counted = ground (arith, h.counted);
          held = λ u i. ground (
            arith,
            h.counted,
            h.held u i,
            new-text_at
                (record {
                  id = pos db.next_note;
                  user_id = uid;
                  title = title;
                  body = body;
                  created_at = now;
                  updated_at = now;
                  deleted_at = none;
                })
                u i db.notes refl,
          );
          healthy = λ n. ground (arith, h.healthy n);
        },
      )

  edit-IsShelf :
      (uid id : ℤ) (title body : String) (now : ℤ)
      → (shown_note (update uid id title body now db).0
          ≡ shown_text (rewritten title body (s.at uid id)))
        × IsShelf
            (update uid id title body now db).1
            (put uid id (rewritten title body (s.at uid id)) s)
  unfolding update
  edit-IsShelf uid id title body now =
      let sent = h.healthy db.calls in
      let read = h.healthy (db.calls + 1) in
      (
        ground (arith, h.held uid id, edit-text_here uid id title body now db.notes),
        record {
          counted = ground (arith, h.counted);
          held = λ u i.
              ground
                (arith, h.held u i, h.held uid id, edit-text_at uid id u i title body now db.notes);
          healthy = λ n. ground (arith, h.healthy n);
        },
      )

  remove-IsShelf :
      (uid id now : ℤ)
      → (shown_note (delete uid id now db).0 ≡ shown_text (s.at uid id))
        × IsShelf (delete uid id now db).1 (put uid id none s)
  unfolding delete
  remove-IsShelf uid id now =
      let sent = h.healthy db.calls in
      let done = h.healthy (db.calls + 1) in
      (
        ground (arith, h.held uid id),
        record {
          counted = ground (arith, h.counted);
          held = λ u i. ground (
            arith,
            h.held u i,
            h.held uid id,
            bury-text_at uid id u i now db.notes,
            int_eq_iff u uid,
            int_eq_iff i id,
          );
          healthy = λ n. ground (arith, h.healthy n);
        },
      )

  read-IsShelf :
      (uid id : ℤ)
      → (shown_note (get uid id db).0 ≡ shown_text (s.at uid id)) × IsShelf (get uid id db).1 s
  unfolding get
  read-IsShelf uid id = (
    ground (arith, h.healthy db.calls, h.held uid id),
    record { counted = h.counted; held = h.held; healthy = h.healthy },
  )

perform-IsShelf :
    (c : Command) (db : Db) (s : Shelf)
    → IsShelf db s
    → ((perform c db).0 ≡ (specified c s).0) × IsShelf (perform c db).1 (specified c s).1
unfolding perform specified
perform-IsShelf (adding uid title body now) db s h = add-IsShelf db s h uid title body now
perform-IsShelf (editing uid id title body now) db s h = edit-IsShelf db s h uid id title body now
perform-IsShelf (removing uid id now) db s h = remove-IsShelf db s h uid id now
perform-IsShelf (reading uid id) db s h = read-IsShelf db s h uid id

perform_all-IsShelf :
    (cs : List Command) (db : Db) (s : Shelf)
    → IsShelf db s
    → perform_all cs db ≡ specified_all cs s
unfolding perform_all specified_all
perform_all-IsShelf [] db s h = refl
perform_all-IsShelf (c ∷ cs) db s h =
    let (same, next) = perform-IsShelf c db s h in
    cc (same, perform_all-IsShelf cs (perform c db).1 (specified c s).1 next)

-- While no statement fails, any sequence of creates, updates, deletes and reads of notes answers
-- what an abstract store answers, which holds a title and a body, or nothing, for each user and id,
-- and the next id, and starts as the tables are.
pub notes_refine_shelf :
    (cs : List Command) (db : Db)
    → ((n : ℕ) → db.fails n ≡ false)
    → perform_all cs db ≡ specified_all cs (shelf_of db)
notes_refine_shelf cs db healthy =
    perform_all-IsShelf cs db (shelf_of db)
      (record { counted = refl; held = λ uid id. refl; healthy = healthy })
