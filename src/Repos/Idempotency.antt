-- ===== src/Repos/Idempotency.antt =====
-- internal/repos/idempotency.go: idempotency keys whose result is the id of a note.
-- `now` is the value of NOW().
pub mod Once
mod Tests
use go_notes_api.Base.{
  ◌&&◌, Bool, true, false, not, none, some, Option, ◌∷◌, String, Result, ok, err, Call, pure, ◌>>=◌,
  ◌>>◌, on_result, ◌==◌, eq_of_text, if◌then◌else◌, first_where, exists_where, update_where,
}
use go_notes_api.Base.Int.{ℤ, eq_of_int}
use go_notes_api.Schema.{IdempotencyKey, Tables, Db}
use go_notes_api.Sql.{
  Mysql, SqlError, duplicate_key, Sql, exec, query, one_row, begin_tx, rollback, commit,
}

-- ErrInProgress, ErrMismatch, and the errors of the database
pub data ClaimError : Type 0 where
  in_progress mismatch : ClaimError
  sql : SqlError → ClaimError

-- existing.Comp.Valid
abbrev pub is_completed : IdempotencyKey → Bool
is_completed r = elim r.completed_at [ none ↦ false | some _ ↦ true ]

module _ (mysql : Mysql) where
  open mysql use {same}

  -- INSERT INTO idempotency_keys(key,user_id,method,path,body_sha256,…,claimed_at,completed_at)
  -- VALUES(?,?,?,?,?,…,NOW(),NULL)
  unfoldable pub insert_key :
      String → ℤ → String → String → String → ℤ → Tables → Result SqlError Tables
  insert_key key uid method path hash now t =
      if exists_where (λ r. same r.key key) t.idempotency_keys
      then err duplicate_key
      else ok (record t {
        idempotency_keys =
            record {
              key = key;
              user_id = uid;
              method = method;
              path = path;
              body_sha256 = hash;
              note_id = none;
              claimed_at = now;
              completed_at = none;
              result_text = none;
            }
            ∷ t.idempotency_keys;
      })

  -- SELECT … FROM idempotency_keys WHERE key=? AND user_id=? FOR UPDATE
  unfoldable pub select_key : String → ℤ → Tables → Result SqlError IdempotencyKey
  select_key key uid t =
      one_row (first_where (λ r. same r.key key && r.user_id == uid) t.idempotency_keys)

  -- UPDATE idempotency_keys SET note_id=?, completed_at=NOW()
  -- WHERE key=? AND user_id=? AND completed_at IS NULL
  complete_note : ℤ → String → ℤ → ℤ → Tables → Result SqlError Tables
  complete_note note_id key uid now t = ok (record t {
    idempotency_keys =
        update_where (λ r. same r.key key && r.user_id == uid && not (is_completed r))
          (λ r. record r { note_id = some note_id; completed_at = some now }) t.idempotency_keys;
  })

  refuse : Tables → ClaimError → Call Db (Result ClaimError (Option ℤ))
  refuse before e = do rollback before; pure (err e)

  -- The key is taken.
  replay : Tables → IdempotencyKey → String → Call Db (Result ClaimError (Option ℤ))
  replay before r hash =
      if not (r.body_sha256 == hash)
      then refuse before mismatch
      else if not (is_completed r)
      then refuse before in_progress
      else do
        committed ← commit before
        pure (
            on_result committed (λ e. err (sql e))
              (λ _. elim r.note_id [ none ↦ err in_progress | some id ↦ ok (some id) ]))

  pub claim : String → ℤ → String → String → String → ℤ → Call Db (Result ClaimError (Option ℤ))
  claim key uid method path hash now = do
    tx ← begin_tx
    on_result tx (λ e. pure (err (sql e)))
        λ before. do
          inserted ← exec (insert_key key uid method path hash now)
          on_result inserted
              (λ _. do
                row ← query (select_key key uid)
                on_result row (λ e. refuse before (sql e)) (λ r. replay before r hash))
              (λ _. do
                committed ← commit before
                pure (on_result committed (λ e. err (sql e)) (λ _. ok none)))

  pub complete : String → ℤ → ℤ → ℤ → Sql (Unit {0})
  complete key uid note_id now = exec (complete_note note_id key uid now)
