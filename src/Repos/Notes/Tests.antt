-- ===== src/Repos/Notes/Tests.antt =====
-- Runs of notes.go on small tables.
use mathlib.Core.List.{Perm}
use go_notes_api.Base.{
  ◌≡◌, refl, inr, exists_where, ℕ, ◌+◌, ◌*◌, ◌≤◌, none, ok, first_where, rows_where, update_where,
  length, eq_of_text, arith,
}
use go_notes_api.Base.Int.{pos, negsuc, int_lt, int_eq, eq_of_int, ◌-ℤ◌, ◌*ℤ◌}
use go_notes_api.Schema.{Note, Db}
use go_notes_api.Sql.{EndsById, same_id, exec, exec_id, query, limit_offset}
use go_notes_api.Fixtures.{plain_mysql, empty_db}
use go_notes_api.Repos.Notes.{
  sanitize_sort, clamp_page, clamp_size, matches, insert_note, select_note, edit_note, update_note,
  bury, create, get, update, delete, count_notes, select_page, list_filtered, Listing,
}
use go_notes_api.Base.{List, [], ◌∷◌}
use go_notes_api.Repos.Notes.Shelf.{
  adding, editing, removing, reading, Command, perform_all, specified_all, shelf_of,
}
use go_notes_api.Repos.Notes.Effects.{IsSent}
use go_notes_api.Base.Keys.{IsKeyed}
use go_notes_api.Repos.Notes.Refinement.{notes_refine_shelf}
use go_notes_api.Repos.Notes.Pages.{collect, pages_complete}
use go_notes_api.Repos.Notes.Page.{IsPage, list_filtered-IsPage}

runs : Unit {0}
unfolding sanitize_sort clamp_page clamp_size limit_offset insert_note select_note edit_note
    update_note bury create get update delete count_notes select_page list_filtered exec exec_id
    query first_where rows_where update_where int_lt int_eq ◌-ℤ◌ ◌*ℤ◌
runs = tt

-- User 7 has the note 1, and user 8 the note 2.
abbrev stored : Db
stored = (create (pos 8) "eggs" "six" (pos 6) (create (pos 7) "milk" "two" (pos 5) empty_db).1).1

abbrev milk : Note
milk = record {
  id = pos 1;
  user_id = pos 7;
  title = "milk";
  body = "two";
  created_at = pos 5;
  updated_at = pos 5;
  deleted_at = none;
}

read : (get (pos 7) (pos 1) stored).0 ≡ ok milk
unfolding runs
read = refl

-- User 7 has three notes, which two pages of two show.
abbrev three : Db
three = (create (pos 7) "c" "" (pos 8) (create (pos 7) "b" "" (pos 7) stored).1).1

three-total : length (rows_where (matches plain_mysql (pos 7) "") three.notes) ≤ 2 * 2
unfolding runs
three-total = omega arith

-- The pages are asked for one after the other.
abbrev asked : ℕ → Db
asked k = record three { calls = three.calls + 2 * k }

asked-IsSent : (k : ℕ) → IsSent (asked k)
unfolding create
asked-IsSent k = (refl, refl)

three-IsKeyed : IsKeyed same_id three.notes
unfolding runs same_id exists_where
three-IsKeyed = (refl, (refl, (refl, (refl, tt))))

by_title : EndsById (sanitize_sort "title")
unfolding runs
by_title = inr refl

pages_complete_example :
    Perm
      (collect plain_mysql (pos 7) "" "title" three.notes asked 2 2)
      (rows_where (matches plain_mysql (pos 7) "") three.notes)
pages_complete_example =
    pages_complete plain_mysql (pos 7) "" "title" three.notes asked 2 (λ k. refl) three-IsKeyed
      by_title (omega arith) (omega arith) asked-IsSent 2 (omega arith) three-total

abbrev one_page : Listing
one_page = record { items = rows_where (matches plain_mysql (pos 7) "") three.notes; total = 3 }

listed : (list_filtered plain_mysql (pos 7) (pos 0) (negsuc 4) "" "" three).0 ≡ ok one_page
unfolding runs
listed = refl

list_filtered-IsPage_example : IsPage plain_mysql (pos 7) "" "" three one_page
list_filtered-IsPage_example =
    list_filtered-IsPage plain_mysql (pos 7) "" "" three (pos 0) (negsuc 4) one_page listed

-- User 7 adds a note and edits it, user 8 cannot delete it, and user 7 reads it.
abbrev commands : List Command
commands =
    adding (pos 7) "milk" "two" (pos 5)
    ∷ editing (pos 7) (pos 1) "eggs" "six" (pos 6)
    ∷ removing (pos 8) (pos 1) (pos 7)
    ∷ reading (pos 7) (pos 1)
    ∷ []

notes_refine_shelf_example :
    perform_all commands empty_db ≡ specified_all commands (shelf_of empty_db)
notes_refine_shelf_example = notes_refine_shelf commands empty_db (λ n. refl)
