-- ===== src/Sql.antt =====
-- What the program uses of database/sql. A statement is a function of the tables; the connection
-- may fail it (`fails`), and then the server has carried it out or not (`kept`). A transaction runs as
-- one step (its SELECT … FOR UPDATE locks the row that it is about), so BeginTx gives the tables to
-- which a rollback goes back, and a COMMIT that fails goes back to them too if it was not carried out.
use mathlib.Core.List.{Perm}
use go_notes_api.Base.{
  ◌+◌, ◌≡◌, ◌⊎◌, ◌==◌, take, drop, Bool, true, ℕ, String, List, Option, none, some, Result, ok, err,
  Call, if◌then◌else◌,
}
use go_notes_api.Base.Int.{ℤ, pos, eq_of_int}
use go_notes_api.Base.Keys.{IsKeyed}
use go_notes_api.Schema.{Note, Tables, Db}

-- Notes with one id.
unfoldable pub same_id : Note → Note → Bool
same_id n m = m.id == n.id

-- The orders in which no two rows with different ids are tied.
abbrev pub EndsById : String → Type 0
EndsById order = (order ≡ "id DESC") ⊎ (order ≡ "title ASC, id DESC")

-- What the program leaves to the MySQL server: when two texts are equal in a WHERE clause or in a
-- unique index (by the collation of the column, an equivalence), what LIKE matches, and in which
-- order an ORDER BY puts the rows: the statement of the number `n` gives a permutation of them, in which
-- rows that are tied may come in another order than in the next statement.
pub record Mysql : Type 0 where
  pub same : String → String → Bool
  pub same_refl : (a : String) → same a a ≡ true
  pub same_sym : (a b : String) → same a b ≡ true → same b a ≡ true
  pub same_trans : (a b c : String) → same a b ≡ true → same b c ≡ true → same a c ≡ true
  pub like : String → String → Bool
  pub sorted : ℕ → String → List Note → List Note
  pub sorted_perm : (n : ℕ) (order : String) (rows : List Note) → Perm (sorted n order rows) rows
  pub sorted_total :
      (m n : ℕ) (order : String) (rows : List Note)
      → EndsById order
      → IsKeyed same_id rows
      → sorted m order rows ≡ sorted n order rows

-- sql.ErrNoRows, a duplicate key, a LIMIT or OFFSET that the server refuses, a failed connection
pub data SqlError : Type 0 where
  no_rows duplicate_key bad_statement connection_lost : SqlError

-- The code's `(value, error)` of a statement.
abbrev pub Sql : Type 0 → Type 0
Sql A = Call Db (Result SqlError A)

abbrev pub called : Db → Db
called db = record db { calls = db.calls + 1 }

abbrev stored : Db → Result SqlError Tables → Result SqlError (Unit {0}) × Db
stored db (ok t) = (ok tt, record db { tables = t; calls = db.calls + 1 })
stored db (err e) = (err e, called db)

-- After a call that the connection has failed: the server may have carried it out all the same.
abbrev unsure : Db → Db → Db → Db
unsure db carried_out dropped = if db.kept db.calls then carried_out else dropped

-- ExecContext
unfoldable pub exec : (Tables → Result SqlError Tables) → Sql (Unit {0})
exec statement db =
    if db.fails db.calls
    then (err connection_lost, unsure db (stored db (statement db.tables)).1 (called db))
    else stored db (statement db.tables)

-- ExecContext with LastInsertId
abbrev stored_id : {A : Type 0} → Db → Result SqlError (A × Tables) → Result SqlError A × Db
stored_id db (ok (a, t)) = (ok a, record db { tables = t; calls = db.calls + 1 })
stored_id db (err e) = (err e, called db)

unfoldable pub exec_id : {A : Type 0} → (Tables → Result SqlError (A × Tables)) → Sql A
exec_id statement db =
    if db.fails db.calls
    then (err connection_lost, unsure db (stored_id db (statement db.tables)).1 (called db))
    else stored_id db (statement db.tables)

-- QueryContext, and QueryRowContext with Scan
unfoldable pub query : {A : Type 0} → (Tables → Result SqlError A) → Sql A
query statement db =
    (if db.fails db.calls then err connection_lost else statement db.tables, called db)

-- A row of a query for one row: sql.ErrNoRows if there is none.
abbrev pub one_row : {A : Type 0} → Option A → Result SqlError A
one_row none = err no_rows
one_row (some a) = ok a

-- LIMIT ? OFFSET ?: MySQL refuses a negative number.
unfoldable pub limit_offset : {A : Type 0} → ℤ → ℤ → List A → Result SqlError (List A)
limit_offset (pos limit) (pos offset) rows = ok (take limit (drop offset rows))
limit_offset _ _ rows = err bad_statement

-- BeginTx: the tables to go back to
unfoldable pub begin_tx : Sql Tables
begin_tx db = (if db.fails db.calls then err connection_lost else ok db.tables, called db)

-- tx.Rollback(), whose error the program ignores
unfoldable pub rollback : Tables → Call Db (Unit {0})
rollback before db = (tt, record db { tables = before; calls = db.calls + 1 })

-- tx.Commit()
unfoldable pub commit : Tables → Sql (Unit {0})
commit before db =
    if db.fails db.calls
    then (
      err connection_lost,
      unsure db (called db) (record db { tables = before; calls = db.calls + 1 }),
    )
    else (ok tt, called db)
