-- ===== src/Repos/IdempotencyGeneric/Once.antt =====
-- internal/repos/idempotency_generic.go, Claim: to whom a key is granted.
use go_notes_api.Base.{
  ◌≡◌, ◌≢◌, refl, ◌∙◌, ap, ◌&&◌, true, false, not, ◌+◌, none, some, String, ok, arith, exists_where,
  ◌==◌,
}
use go_notes_api.Base.Int.{ℤ, eq_of_int}
use go_notes_api.Base.Rows.{exists_where-update_where}
use go_notes_api.Schema.{Db, IdempotencyKey}
use go_notes_api.Sql.{Mysql}
use go_notes_api.Repos.Idempotency.{is_completed}
use go_notes_api.Repos.IdempotencyGeneric.{claim, complete}

module _ (mysql : Mysql) (key : String) where
  open mysql use {same, same_refl}

  -- A row with the key is stored.
  abbrev pub IsTaken : Db → Type 0
  IsTaken db = exists_where (λ r. same r.key key) db.idempotency_keys ≡ true

  -- What the service does with the table.
  pub data Step (db after : Db) : Type 0 where
    claiming :
        (k : String) (uid : ℤ) (method path hash : String) (now : ℤ)
        → after ≡ (claim mysql k uid method path hash now db).1
        → Step db after
    completing :
        (k : String) (uid : ℤ) (result : String) (now : ℤ)
        → after ≡ (complete mysql k uid result now db).1
        → Step db after
    elsewhere : after.idempotency_keys ≡ db.idempotency_keys → Step db after

  pub data Later (db : Db) : Db → Type 0 where
    here : Later db db
    next : {mid after : Db} → Later db mid → Step mid after → Later db after

  claim-IsTaken :
      (k : String) (uid : ℤ) (method path hash : String) (now : ℤ) (db : Db)
      → IsTaken db
      → IsTaken (claim mysql k uid method path hash now db).1
  unfolding claim exists_where
  claim-IsTaken k uid method path hash now db h = ground arith

  complete-IsTaken :
      (k : String) (uid : ℤ) (result : String) (now : ℤ) (db : Db)
      → IsTaken db
      → IsTaken (complete mysql k uid result now db).1
  unfolding complete
  complete-IsTaken k uid result now db h = ground (
    arith,
    exists_where-update_where (λ r. same r.key k && r.user_id == uid && not (is_completed r))
        (λ r. same r.key key)
        (λ (r : IdempotencyKey). record r { result_text = some result; completed_at = some now })
        db.idempotency_keys (λ r. refl),
  )

  pub Step-IsTaken : {db after : Db} → Step db after → IsTaken db → IsTaken after
  Step-IsTaken {db} (claiming k uid method path hash now e) h =
      ap (λ (d : Db). exists_where (λ r. same r.key key) d.idempotency_keys) e
      ∙ claim-IsTaken k uid method path hash now db h
  Step-IsTaken {db} (completing k uid result now e) h =
      ap (λ (d : Db). exists_where (λ r. same r.key key) d.idempotency_keys) e
      ∙ complete-IsTaken k uid result now db h
  Step-IsTaken (elsewhere e) h = ap (exists_where (λ r. same r.key key)) e ∙ h

  Later-IsTaken : {db after : Db} → Later db after → IsTaken db → IsTaken after
  Later-IsTaken here h = h
  Later-IsTaken (next l s) h = Step-IsTaken s (Later-IsTaken l h)

  -- A grant stores the row, if the COMMIT got through.
  claim_grant-IsTaken :
      (uid : ℤ) (method path hash : String) (now : ℤ) (db : Db)
      → (claim mysql key uid method path hash now db).0 ≡ ok none
      → db.fails (db.calls + 1 + 1) ≡ false
      → IsTaken (claim mysql key uid method path hash now db).1
  unfolding claim exists_where
  claim_grant-IsTaken uid method path hash now db granted sent = ground (arith, same_refl key)

  taken-refused :
      (uid : ℤ) (method path hash : String) (now : ℤ) (db : Db)
      → IsTaken db
      → (claim mysql key uid method path hash now db).0 ≢ ok none
  unfolding claim
  taken-refused uid method path hash now db h = ground arith

  -- Once a claim of a key was granted and its COMMIT got through, no later claim of the key by
  -- anyone is granted, after any steps on the keys in between.
  pub claim_granted_once :
      (uid : ℤ) (method path hash : String) (now : ℤ) (db after : Db) (uid' : ℤ)
      (method' path' hash' : String) (now' : ℤ)
      → (claim mysql key uid method path hash now db).0 ≡ ok none
      → db.fails (db.calls + 1 + 1) ≡ false
      → Later (claim mysql key uid method path hash now db).1 after
      → (claim mysql key uid' method' path' hash' now' after).0 ≢ ok none
  claim_granted_once uid method path hash now db after uid' method' path' hash' now' granted sent
        l =
      taken-refused uid' method' path' hash' now' after
        (Later-IsTaken l (claim_grant-IsTaken uid method path hash now db granted sent))

  -- If the key is not taken, and BEGIN and the INSERT get through but the COMMIT fails and was
  -- not carried out, Idem.Claim grants the key and has changed no table.
  pub claim-unstored :
      (uid : ℤ) (method path hash : String) (now : ℤ) (db : Db)
      → exists_where (λ r. same r.key key) db.idempotency_keys ≡ false
      → db.fails db.calls ≡ false
      → db.fails (db.calls + 1) ≡ false
      → db.fails (db.calls + 1 + 1) ≡ true
      → db.kept (db.calls + 1 + 1) ≡ false
      → ((claim mysql key uid method path hash now db).0 ≡ ok none)
        × ((claim mysql key uid method path hash now db).1.tables ≡ db.tables)
  unfolding claim
  claim-unstored uid method path hash now db new begun sent lost dropped = ground arith
