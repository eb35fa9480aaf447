-- ===== src/Repos/IdempotencyGeneric.antt =====
-- internal/repos/idempotency_generic.go: idempotency keys whose result is the text of a response.
-- `now` is the value of NOW(). The INSERT and the SELECT are those of idempotency.go.
pub mod Once
pub mod Replay
pub mod Waiting
mod Tests
use go_notes_api.Base.{
  ◌&&◌, not, none, some, Option, String, Result, ok, err, Call, pure, ◌>>=◌, ◌>>◌, on_result, ◌==◌,
  eq_of_text, if◌then◌else◌, update_where,
}
use go_notes_api.Base.Int.{ℤ, eq_of_int}
use go_notes_api.Schema.{IdempotencyKey, Tables, Db}
use go_notes_api.Sql.{Mysql, SqlError, Sql, exec, query, begin_tx, rollback, commit}
use go_notes_api.Repos.Idempotency.{
  ClaimError, in_progress, mismatch, sql, is_completed, insert_key, select_key,
}

module _ (mysql : Mysql) where
  open mysql use {same}

  -- UPDATE idempotency_keys SET result_text=?, completed_at=NOW()
  -- WHERE key=? AND user_id=? AND completed_at IS NULL
  unfoldable pub complete_text : String → String → ℤ → ℤ → Tables → Result SqlError Tables
  complete_text result key uid now t = ok (record t {
    idempotency_keys =
        update_where (λ r. same r.key key && r.user_id == uid && not (is_completed r))
          (λ r. record r { result_text = some result; completed_at = some now }) t.idempotency_keys;
  })

  unfoldable pub refuse : Tables → ClaimError → Call Db (Result ClaimError (Option String))
  refuse before e = do rollback before; pure (err e)

  -- The key is taken.
  unfoldable pub replay :
      Tables → IdempotencyKey → String → Call Db (Result ClaimError (Option String))
  replay before r hash =
      if not (r.body_sha256 == hash)
      then refuse before mismatch
      else if not (is_completed r)
      then refuse before in_progress
      else do
        commit before
        pure (elim r.result_text [ none ↦ err in_progress | some text ↦ ok (some text) ])

  unfoldable pub claim :
      String → ℤ → String → String → String → ℤ → Call Db (Result ClaimError (Option String))
  unfolding begin_tx exec query rollback commit insert_key select_key refuse replay
  claim key uid method path hash now = do
    tx ← begin_tx
    on_result tx (λ e. pure (err (sql e)))
        λ before. do
          inserted ← exec (insert_key mysql key uid method path hash now)
          on_result inserted
              (λ _. do
                row ← query (select_key mysql key uid)
                on_result row (λ e. refuse before (sql e)) (λ r. replay before r hash))
              (λ _. do commit before; pure (ok none))

  unfoldable pub complete : String → ℤ → String → ℤ → Sql (Unit {0})
  unfolding exec complete_text
  complete key uid result now = exec (complete_text result key uid now)
