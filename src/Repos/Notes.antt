-- ===== src/Repos/Notes.antt =====
-- internal/repos/notes.go: the notes of a user, with soft deletion, filtered and paged.
-- `now` is the value of NOW(). The metrics that `observe` records are left out.
pub mod Isolation
pub mod Effects
pub mod Deletion
pub mod Page
pub mod Pages
pub mod Shelf
pub mod Texts
pub mod Refinement
mod Tests
use Prim.Native.String.{◌++◌}
use go_notes_api.Base.{
  ◌&&◌, ◌||◌, Bool, true, false, ℕ, ◌+◌, ◌-◌, none, some, List, ◌∷◌, String, Result, ok, err, pure,
  ◌>>=◌, ◌>>◌, on_result, ◌==◌, eq_of_text, if◌then◌else◌, rows_where, first_where, update_where,
  length, take, drop,
}
use go_notes_api.Base.Int.{ℤ, pos, negsuc, int_lt, ◌-ℤ◌, ◌*ℤ◌, eq_of_int}
use go_notes_api.Schema.{Note, Tables}
use go_notes_api.Sql.{Mysql, SqlError, Sql, exec, exec_id, query, one_row, limit_offset}

-- sanitizeSort
unfoldable pub sanitize_sort : String → String
sanitize_sort s =
    if s == "oldest"
    then "created_at ASC"
    else if s == "title"
    then "title ASC, id DESC"
    else if s == "updated"
    then "updated_at DESC"
    else "id DESC"

-- deleted_at IS NULL
abbrev pub is_present : Note → Bool
is_present n = elim n.deleted_at [ none ↦ true | some _ ↦ false ]

-- `if page < 1 { page = 1 }`, and `if size < 1 || size > 100 { size = 20 }`
unfoldable pub clamp_page : ℤ → ℤ
clamp_page page = if int_lt page (pos 1) then pos 1 else page

unfoldable pub clamp_size : ℤ → ℤ
clamp_size size = if int_lt size (pos 1) || int_lt (pos 100) size then pos 20 else size

-- A page of notes, and the number of all notes that match.
pub record Listing : Type 0 where
  pub items : List Note
  pub total : ℕ

-- WHERE id=? AND user_id=? AND deleted_at IS NULL
abbrev pub is_note : ℤ → ℤ → Note → Bool
is_note uid id n = n.id == id && n.user_id == uid && is_present n

-- INSERT INTO notes(user_id,title,body) VALUES(?,?,?), with the defaults of the other columns
unfoldable pub insert_note : ℤ → String → String → ℤ → Tables → Result SqlError (ℤ × Tables)
insert_note uid title body now t = ok (
  pos t.next_note,
  record t {
    notes =
        record {
          id = pos t.next_note;
          user_id = uid;
          title = title;
          body = body;
          created_at = now;
          updated_at = now;
          deleted_at = none;
        }
        ∷ t.notes;
    next_note = t.next_note + 1;
  },
)

-- SELECT … FROM notes WHERE id=? AND user_id=? AND deleted_at IS NULL
unfoldable pub select_note : ℤ → ℤ → Tables → Result SqlError Note
select_note uid id t = one_row (first_where (is_note uid id) t.notes)

-- SET title=?, body=?. The column updated_at is ON UPDATE CURRENT_TIMESTAMP: it moves when a value of
-- the row changes.
unfoldable pub edit_note : String → String → ℤ → Note → Note
edit_note title body now n =
    if n.title == title && n.body == body
    then n
    else record n { title = title; body = body; updated_at = now }

unfoldable pub update_note : ℤ → ℤ → String → String → ℤ → Tables → Result SqlError Tables
update_note uid id title body now t =
    ok (record t { notes = update_where (is_note uid id) (edit_note title body now) t.notes })

-- SET deleted_at=NOW(), which changes the row
abbrev pub bury_note : ℤ → Note → Note
bury_note now n = record n { deleted_at = some now; updated_at = now }

unfoldable pub bury : ℤ → ℤ → ℤ → Tables → Result SqlError Tables
bury uid id now t = ok (record t { notes = update_where (is_note uid id) (bury_note now) t.notes })

unfoldable pub create : ℤ → String → String → ℤ → Sql ℤ
unfolding exec_id insert_note
create uid title body now = exec_id (insert_note uid title body now)

unfoldable pub get : ℤ → ℤ → Sql Note
unfolding query select_note
get uid id = query (select_note uid id)

unfoldable pub update : ℤ → ℤ → String → String → ℤ → Sql Note
unfolding exec update_note get edit_note
update uid id title body now = do
  updated ← exec (update_note uid id title body now)
  on_result updated (λ e. pure (err e)) (λ _. get uid id)

unfoldable pub delete : ℤ → ℤ → ℤ → Sql Note
unfolding exec bury get
delete uid id now = do
  found ← get uid id
  on_result found (λ e. pure (err e))
      λ n. do buried ← exec (bury uid id now); pure (on_result buried err (λ _. ok n))

module _ (mysql : Mysql) where
  open mysql use {like, sorted}

  -- WHERE user_id=? AND deleted_at IS NULL, and AND (title LIKE ? OR body LIKE ?) for a `q`
  abbrev pub matches : ℤ → String → Note → Bool
  matches uid q n =
      n.user_id == uid
      && is_present n
      && (if q == "" then true else like n.title ("%" ++ q ++ "%") || like n.body ("%" ++ q ++ "%"))

  -- SELECT COUNT(*) FROM notes …
  unfoldable pub count_notes : ℤ → String → Tables → Result SqlError ℕ
  count_notes uid q t = ok (length (rows_where (matches uid q) t.notes))

  -- SELECT … FROM notes … ORDER BY … LIMIT ? OFFSET ?, as the statement of the number `n`
  unfoldable pub select_page :
      ℕ → ℤ → String → String → ℤ → ℤ → Tables → Result SqlError (List Note)
  select_page n uid q order limit offset t =
      limit_offset limit offset (sorted n order (rows_where (matches uid q) t.notes))

  unfoldable pub list_filtered : ℤ → ℤ → ℤ → String → String → Sql Listing
  unfolding query count_notes select_page
  list_filtered uid page size q sort = do
    let page = clamp_page page
    let size = clamp_size size
    counted ← query (count_notes uid q)
    on_result counted (λ e. pure (err e))
        λ total. do
          rows ← λ db.
              query (select_page db.calls uid q (sanitize_sort sort) size ((page -ℤ pos 1) *ℤ size))
                db
          pure (on_result rows err (λ items. ok (record { items = items; total = total })))
