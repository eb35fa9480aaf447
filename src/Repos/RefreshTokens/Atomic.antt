-- ===== src/Repos/RefreshTokens/Atomic.antt =====
-- internal/repos/refresh_tokens.go: the transactions that return an error.
use go_notes_api.Base.{
  ◌≡◌, ◌∙◌, ap, ℕ, ◌+◌, ◌<◌, ◌⊎◌, inl, inr, List, String, Result, ok, err, arith, true, false, Bool,
  Bool-cases, Result-cases, ◌==◌, eq_of_nat, if◌then◌else◌,
}
use go_notes_api.Base.Int.{ℤ}
use go_notes_api.Base.Text.{hex}
use go_notes_api.Schema.{Db, Tables, RefreshToken}
use go_notes_api.Sql.{Mysql, Sql, SqlError, exec, query, begin_tx, rollback, commit}
use go_notes_api.Repos.RefreshTokens.{
  Rotation, is_used, insert_token, select_token, mark_used, abort, revoke_family, rotate,
  use_and_rotate,
}
use go_notes_api.Repos.RefreshTokens.Runs.{marked}

-- The call that is a transaction's COMMIT, behind BEGIN and three statements.
abbrev pub commit_call : Db → ℕ
commit_call db = db.calls + 1 + 1 + 1 + 1

-- The same database, where the COMMIT is answered.
abbrev pub answering : Db → Db
answering db = record db { fails = λ n. if n == commit_call db then false else db.fails n }

answering-before : (db : Db) (n : ℕ) → n < commit_call db → (answering db).fails n ≡ db.fails n
answering-before db n h = ground arith

answering-commit : (db : Db) → (answering db).fails (commit_call db) ≡ false
answering-commit db = ground arith

module _ (mysql : Mysql) (token : String) (exp : ℤ) (b : List ℕ) (now : ℤ) where
  -- A transaction that began on `before` has no effect, or only the answer of its COMMIT is lost,
  -- which it would get on `answered`.
  abbrev pub IsAtomic :
      Tables → (lost kept : Bool) → (run answered : Result SqlError Rotation × Db) → Type 0
  IsAtomic before lost kept run answered =
      (run.1.tables ≡ before)
      ⊎ ((lost ≡ true)
          × (kept ≡ true)
          × (run.1.tables ≡ answered.1.tables)
          × ((rot : Rotation) × (answered.0 ≡ ok rot)))

  -- Behind the UPDATE.
  rest : Tables → RefreshToken → Sql Rotation
  rest before r =
      if is_used r then revoke_family mysql before r now else rotate mysql before r exp b

  rest-used :
      (before : Tables) (r : RefreshToken)
      → is_used r ≡ true
      → rest before r ≡ revoke_family mysql before r now
  unfolding rest
  rest-used before r used =
      ap (λ c. if c then revoke_family mysql before r now else rotate mysql before r exp b) used

  rest-new :
      (before : Tables) (r : RefreshToken)
      → is_used r ≡ false
      → rest before r ≡ rotate mysql before r exp b
  unfolding rest
  rest-new before r new =
      ap (λ c. if c then revoke_family mysql before r now else rotate mysql before r exp b) new

  module _ (before : Tables) (r : RefreshToken) (d : Db) (f : ℕ → Bool)
      (sent : f d.calls ≡ d.fails d.calls) (answer : f (d.calls + 1) ≡ false) (e : SqlError) where
    revoke_family-IsAtomic :
        (revoke_family mysql before r now d).0 ≡ err e
        → IsAtomic before
            (d.fails (d.calls + 1))
            (d.kept (d.calls + 1))
            (revoke_family mysql before r now d)
            (revoke_family mysql before r now (record d { fails = f }))
    unfolding revoke_family exec commit
    revoke_family-IsAtomic h = elim (Bool-cases (d.fails (d.calls + 1))) [
      | inr sent ↦ inl (ground arith)
      | inl lost ↦ elim (Bool-cases (d.kept (d.calls + 1))) [
        | inr dropped ↦ inl (ground arith)
        | inl kept ↦ inr (
          lost,
          kept,
          ground arith,
          (record { uid = r.user_id; new_tok = ""; reused = true }, ground arith),
        )
      ]
    ]

    rotate-IsAtomic :
        (rotate mysql before r exp b d).0 ≡ err e
        → IsAtomic before
            (d.fails (d.calls + 1))
            (d.kept (d.calls + 1))
            (rotate mysql before r exp b d)
            (rotate mysql before r exp b (record d { fails = f }))
    unfolding rotate exec commit abort rollback
    rotate-IsAtomic h = elim (Bool-cases (d.fails (d.calls + 1))) [
      | inr sent ↦ inl (ground arith)
      | inl lost ↦ elim (Bool-cases (d.kept (d.calls + 1))) [
        | inr dropped ↦ inl (ground arith)
        | inl kept ↦ elim (Result-cases (exec (insert_token mysql (hex b) r.user_id exp) d).0) [
          | inl (e', refused) ↦ inl (ground arith)
          | inr (done, inserted) ↦ inr (
            lost,
            kept,
            ground arith,
            (record { uid = r.user_id; new_tok = hex b; reused = false }, ground arith),
          )
        ]
      ]
    ]

    rest-IsAtomic :
        (rest before r d).0 ≡ err e
        → IsAtomic before
            (d.fails (d.calls + 1))
            (d.kept (d.calls + 1))
            (rest before r d)
            (rest before r (record d { fails = f }))
    rest-IsAtomic h = elim (Bool-cases (is_used r)) [
      | inl used ↦
          let family = rest-used before r used in
          rw family (revoke_family-IsAtomic (rw (← family) h))
      | inr new ↦ let fresh = rest-new before r new in rw fresh (rotate-IsAtomic (rw (← fresh) h))
    ]

  -- The database when the UPDATE has got through.
  abbrev reached : Db → Db
  reached db = record db {
    tables = record db.tables { refresh_tokens = marked mysql token now db };
    calls = db.calls + 1 + 1 + 1;
  }

  use_and_rotate-rest :
      (db : Db) (r : RefreshToken)
      → db.fails db.calls ≡ false
      → db.fails (db.calls + 1) ≡ false
      → db.fails (db.calls + 1 + 1) ≡ false
      → select_token mysql token now db.tables ≡ ok r
      → use_and_rotate mysql token exp b now db ≡ rest db.tables r (reached db)
  unfolding use_and_rotate rest begin_tx query exec mark_used
  use_and_rotate-rest db r begun read written found = ground arith

  module _ (db : Db) (e : SqlError) (h : (use_and_rotate mysql token exp b now db).0 ≡ err e) where
    early :
        (db.fails db.calls ≡ true)
          ⊎ (db.fails (db.calls + 1) ≡ true)
          ⊎ (db.fails (db.calls + 1 + 1) ≡ true)
          ⊎ ((e' : SqlError) × (select_token mysql token now db.tables ≡ err e'))
        → (use_and_rotate mysql token exp b now db).1.tables ≡ db.tables
    unfolding use_and_rotate begin_tx query exec mark_used abort rollback
    early failed = elim failed [
      | inl lost ↦ ground arith
      | inr (inl lost) ↦ ground arith
      | inr (inr (inl lost)) ↦ ground arith
      | inr (inr (inr (e', missing))) ↦ ground arith
    ]

    -- If UseAndRotate returns an error, whichever statements failed, carried out by the server or
    -- not, it has changed no table; or the server carried out the COMMIT, whose answer was lost,
    -- and the tables are those of the run that is answered and returns a rotation.
    pub use_and_rotate-eq-err :
        IsAtomic db.tables
          (db.fails (commit_call db))
          (db.kept (commit_call db))
          (use_and_rotate mysql token exp b now db)
          (use_and_rotate mysql token exp b now (answering db))
    use_and_rotate-eq-err = elim (Bool-cases (db.fails db.calls)) [
      | inl lost ↦ inl (early (inl lost))
      | inr begun ↦ elim (Bool-cases (db.fails (db.calls + 1))) [
        | inl lost ↦ inl (early (inr (inl lost)))
        | inr read ↦ elim (Bool-cases (db.fails (db.calls + 1 + 1))) [
          | inl lost ↦ inl (early (inr (inr (inl lost))))
          | inr written ↦ elim (Result-cases (select_token mysql token now db.tables)) [
            | inl missing ↦ inl (early (inr (inr (inr missing))))
            | inr (r, found) ↦
                let run = use_and_rotate-rest db r begun read written found in
                let answered =
                  use_and_rotate-rest (answering db) r
                    (answering-before db db.calls (omega arith) ∙ begun)
                    (answering-before db (db.calls + 1) (omega arith) ∙ read)
                    (answering-before db (db.calls + 1 + 1) (omega arith) ∙ written) found in
                rw (run, answered)
                  (rest-IsAtomic db.tables r (reached db) (answering db).fails
                    (answering-before db (db.calls + 1 + 1 + 1) (omega arith)) (answering-commit db)
                    e (rw (← run) h))
          ]
        ]
      ]
    ]
