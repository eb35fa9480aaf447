-- ===== src/Repos/Idempotency/Once.antt =====
-- internal/repos/idempotency.go, Claim: what a grant and a refusal do to the tables.
use go_notes_api.Base.{◌≡◌, ◌∷◌, false, none, String, ok, arith, exists_where, eq_of_text}
use go_notes_api.Base.Int.{ℤ, eq_of_int}
use go_notes_api.Schema.{Db, IdempotencyKey}
use go_notes_api.Sql.{Mysql, exec, query, begin_tx, rollback, commit}
use go_notes_api.Repos.Idempotency.{insert_key, select_key, refuse, replay, claim}

module _ (mysql : Mysql) (key : String) (uid : ℤ) (method path hash : String) (now : ℤ)
    (db : Db) where
  open mysql use {same, same_refl}

  abbrev pub new_row : IdempotencyKey
  new_row = record {
    key = key;
    user_id = uid;
    method = method;
    path = path;
    body_sha256 = hash;
    note_id = none;
    claimed_at = now;
    completed_at = none;
    result_text = none;
  }

  -- If Idempotency.Claim grants a key, no row had the key before, and the only change to the tables
  -- is the new row.
  pub claim_grant-stored :
      (claim mysql key uid method path hash now db).0 ≡ ok none
      → (exists_where (λ r. same r.key key) db.idempotency_keys ≡ false)
        × ((claim mysql key uid method path hash now db).1.tables
            ≡ record db.tables { idempotency_keys = new_row ∷ db.idempotency_keys })
  unfolding claim exec query begin_tx rollback commit insert_key select_key refuse replay
  claim_grant-stored granted = ground arith
