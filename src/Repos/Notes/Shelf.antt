-- ===== src/Repos/Notes/Shelf.antt =====
-- internal/repos/notes.go against an abstract store: for each user and id, a title and a body or
-- nothing.
use go_notes_api.Base.{
  ◌&&◌, ℕ, ◌+◌, none, some, Option, List, [], ◌∷◌, String, Result, ok, err, first_where, ◌==◌,
  if◌then◌else◌, on_result,
}
use go_notes_api.Base.Int.{ℤ, pos, eq_of_int}
use go_notes_api.Schema.{Note, Db}
use go_notes_api.Sql.{SqlError, no_rows}
use go_notes_api.Repos.Notes.{is_note, create, get, update, delete}

pub data Command : Type 0 where
  adding : (uid : ℤ) (title body : String) (now : ℤ) → Command
  editing : (uid id : ℤ) (title body : String) (now : ℤ) → Command
  removing : (uid id now : ℤ) → Command
  reading : (uid id : ℤ) → Command

-- The id of a new note, or the text of one.
pub data Answer : Type 0 where
  made : Result SqlError ℤ → Answer
  shown : Result SqlError (String × String) → Answer

abbrev pub text_of : Note → String × String
text_of n = (n.title, n.body)

abbrev pub shown_note : Result SqlError Note → Answer
shown_note r = shown (on_result r err (λ n. ok (text_of n)))

-- A command on the tables.
unfoldable pub perform : Command → Db → Answer × Db
perform (adding uid title body now) db = let (r, d) = create uid title body now db in (made r, d)
perform (editing uid id title body now) db =
    let (r, d) = update uid id title body now db in (shown_note r, d)
perform (removing uid id now) db = let (r, d) = delete uid id now db in (shown_note r, d)
perform (reading uid id) db = let (r, d) = get uid id db in (shown_note r, d)

unfoldable pub perform_all : List Command → Db → List Answer
perform_all [] db = []
perform_all (c ∷ cs) db = (perform c db).0 ∷ perform_all cs (perform c db).1

-- The abstract store: the next id, and what is at a user and an id.
pub record Shelf : Type 0 where
  pub next : ℕ
  pub at : ℤ → ℤ → Option (String × String)

abbrev pub shown_text : Option (String × String) → Answer
shown_text o = shown (elim o [ none ↦ err no_rows | some t ↦ ok t ])

abbrev pub put : ℤ → ℤ → Option (String × String) → Shelf → Shelf
put uid id o s = record s { at = λ u i. if u == uid && i == id then o else s.at u i }

abbrev pub rewritten : String → String → Option (String × String) → Option (String × String)
rewritten title body o = elim o [ none ↦ none | some _ ↦ some (title, body) ]

-- A command on the abstract store.
unfoldable pub specified : Command → Shelf → Answer × Shelf
specified (adding uid title body now) s = (
  made (ok (pos s.next)),
  record (put uid (pos s.next) (some (title, body)) s) { next = s.next + 1 },
)
specified (editing uid id title body now) s =
    let o = rewritten title body (s.at uid id) in (shown_text o, put uid id o s)
specified (removing uid id now) s = (shown_text (s.at uid id), put uid id none s)
specified (reading uid id) s = (shown_text (s.at uid id), s)

unfoldable pub specified_all : List Command → Shelf → List Answer
specified_all [] s = []
specified_all (c ∷ cs) s = (specified c s).0 ∷ specified_all cs (specified c s).1

-- What the table holds at a user and an id, and the shelf that it stands for.
abbrev pub text_at : ℤ → ℤ → List Note → Option (String × String)
text_at uid id ns = elim (first_where (is_note uid id) ns) [
  | none ↦ none
  | some n ↦ some (text_of n)
]

abbrev pub shelf_of : Db → Shelf
shelf_of db = record { next = db.next_note; at = λ uid id. text_at uid id db.notes }
