-- ===== src/Repos/IdempotencyGeneric/Waiting.antt =====
-- internal/repos/idempotency_generic.go, Claim: keys in progress, and keys of another user.
use go_notes_api.Base.{
  ◌≡◌, true, false, none, some, String, err, arith, first_where, exists_where, eq_iff, eq_of_text,
}
use go_notes_api.Base.Int.{ℤ, eq_of_int}
use go_notes_api.Base.Rows.{first_where-exists, first_where-holds}
use go_notes_api.Schema.{Db, IdempotencyKey}
use go_notes_api.Sql.{Mysql, no_rows}
use go_notes_api.Repos.Idempotency.{in_progress, sql, is_completed}
use go_notes_api.Repos.IdempotencyGeneric.{claim}
use go_notes_api.Repos.IdempotencyGeneric.Replay.{IsSent, is_mine}

module _ (mysql : Mysql) (key : String) (uid : ℤ) where
  open mysql use {same}

  -- A key whose work was never completed keeps its user waiting.
  pub claim_pending :
      (method path : String) (now : ℤ) (db : Db) (r : IdempotencyKey)
      → first_where (is_mine mysql key uid) db.idempotency_keys ≡ some r
      → is_completed r ≡ false
      → IsSent db
      → (claim mysql key uid method path r.body_sha256 now db).0 ≡ err in_progress
  unfolding claim
  claim_pending method path now db r found pending (begun, read) = ground (
    arith,
    eq_iff r.body_sha256 r.body_sha256,
    first_where-holds (is_mine mysql key uid) db.idempotency_keys r found,
    first_where-exists (is_mine mysql key uid) (λ s. same s.key key) db.idempotency_keys r found,
  )

  -- If a key is taken and no row of it is the user's, Idem.Claim answers a database error that says
  -- there is no row, if BEGIN and the SELECT get through.
  pub claim_of_other_user :
      (method path hash : String) (now : ℤ) (db : Db)
      → exists_where (λ r. same r.key key) db.idempotency_keys ≡ true
      → first_where (is_mine mysql key uid) db.idempotency_keys ≡ none
      → IsSent db
      → (claim mysql key uid method path hash now db).0 ≡ err (sql no_rows)
  unfolding claim
  claim_of_other_user method path hash now db taken none_mine (begun, read) = ground arith
