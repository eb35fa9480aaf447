-- ===== src/Repos/RefreshTokens/Once.antt =====
-- internal/repos/refresh_tokens.go: how often a token can be rotated.
use go_notes_api.Base.{
  ◌≡◌, refl, Bool, true, false, ℕ, List, String, ok, arith, All, update_where, delete_where, subst,
  ◌∙◌, sym,
}
use go_notes_api.Base.Int.{ℤ}
use go_notes_api.Base.Text.{hex}
use go_notes_api.Base.Rows.{
  All-update_where, All-delete_where, All-of_update_where, All-first_where, first_where-holds,
  first_where-exists, exists_where-update_where,
}
use go_notes_api.Schema.{Db, RefreshToken}
use go_notes_api.Sql.{Mysql, exec, query, begin_tx, rollback, commit}
use go_notes_api.Repos.RefreshTokens.{
  Rotation, is_used, insert_token, select_token, mark_used, delete_live, delete_token, abort, issue,
  use_token, revoke_family, rotate, use_and_rotate, revoke,
}
use go_notes_api.Repos.RefreshTokens.Keys.{mark}
use go_notes_api.Repos.RefreshTokens.Runs.{IsRun, use_and_rotate-IsRun}

module _ (mysql : Mysql) (token : String) where
  open mysql use {same, same_sym, same_trans}

  abbrev pub IsSpentRow : RefreshToken → Type 0
  IsSpentRow r = same r.token token ≡ true → is_used r ≡ true

  -- Every row that the text `token` selects is used. (There may be none.)
  abbrev pub IsSpent : Db → Type 0
  IsSpent db = All IsSpentRow db.refresh_tokens

  -- What the service can do with the table. The random tokens that it makes are not `token`.
  pub data Step (db after : Db) : Type 0 where
    rotating :
        (t : String) (exp : ℤ) (b : List ℕ) (now : ℤ)
        → same (hex b) token ≡ false
        → after ≡ (use_and_rotate mysql t exp b now db).1
        → Step db after
    using : (t : String) (now : ℤ) → after ≡ (use_token mysql t now db).1 → Step db after
    issuing :
        (b : List ℕ) (uid exp : ℤ)
        → same (hex b) token ≡ false
        → after ≡ (issue mysql b uid exp db).1
        → Step db after
    revoking : (t : String) → after ≡ (revoke mysql t db).1 → Step db after
    elsewhere : after.refresh_tokens ≡ db.refresh_tokens → Step db after

  pub data Later (db : Db) : Db → Type 0 where
    here : Later db db
    next : {mid after : Db} → Later db mid → Step mid after → Later db after

  module _ (t : String) (now : ℤ) (db : Db) (h : IsSpent db) where
    IsSpent-mark : All IsSpentRow (update_where (λ r. same r.token t) (mark now) db.refresh_tokens)
    IsSpent-mark =
        All-update_where IsSpentRow (λ r. same r.token t) (mark now) db.refresh_tokens h
          (λ r e k m. refl)

    IsSpent-swept :
        (p : RefreshToken → Bool)
        → All IsSpentRow
            (delete_where p (update_where (λ r. same r.token t) (mark now) db.refresh_tokens))
    IsSpent-swept p = All-delete_where IsSpentRow p _ IsSpent-mark

    pub use_and_rotate-IsSpent :
        (exp : ℤ) (b : List ℕ)
        → same (hex b) token ≡ false
        → IsSpent (use_and_rotate mysql t exp b now db).1
    unfolding use_and_rotate abort rollback exec query begin_tx rotate revoke_family commit
        insert_token select_token mark_used delete_live
    use_and_rotate-IsSpent exp b fresh = grind (arith, IsSpent-mark, IsSpent-swept)

    use_token-IsSpent : IsSpent (use_token mysql t now db).1
    unfolding use_token abort rollback exec query begin_tx commit select_token mark_used delete_live
    use_token-IsSpent = grind (arith, IsSpent-mark, IsSpent-swept)

  pub issue-IsSpent :
      (b : List ℕ) (uid exp : ℤ) (db : Db)
      → IsSpent db
      → same (hex b) token ≡ false
      → IsSpent (issue mysql b uid exp db).1
  unfolding issue exec insert_token
  issue-IsSpent b uid exp db h fresh = ground arith

  pub revoke-IsSpent : (t : String) (db : Db) → IsSpent db → IsSpent (revoke mysql t db).1
  unfolding revoke exec delete_token
  revoke-IsSpent t db h =
      ground (arith, All-delete_where IsSpentRow (λ r. same r.token t) db.refresh_tokens h)

  Step-IsSpent : {db after : Db} → Step db after → IsSpent db → IsSpent after
  Step-IsSpent {db} (rotating t exp b now fresh e) h =
      subst IsSpent (sym e) (use_and_rotate-IsSpent t now db h exp b fresh)
  Step-IsSpent {db} (using t now e) h = subst IsSpent (sym e) (use_token-IsSpent t now db h)
  Step-IsSpent {db} (issuing b uid exp fresh e) h =
      subst IsSpent (sym e) (issue-IsSpent b uid exp db h fresh)
  Step-IsSpent {db} (revoking t e) h = subst IsSpent (sym e) (revoke-IsSpent t db h)
  Step-IsSpent (elsewhere e) h = subst (All IsSpentRow) (sym e) h

  Later-IsSpent : {db after : Db} → Later db after → IsSpent db → IsSpent after
  Later-IsSpent here h = h
  Later-IsSpent (next l s) h = Step-IsSpent s (Later-IsSpent l h)

  module _ (exp : ℤ) (b : List ℕ) (now : ℤ) (db : Db) (rot : Rotation)
      (done : (use_and_rotate mysql token exp b now db).0 ≡ ok rot)
      (first : rot.reused ≡ false) where
    run : IsRun mysql token now exp b db (use_and_rotate mysql token exp b now db).1 rot
    run = use_and_rotate-IsRun mysql token now exp b db rot done

    -- The new token is not the spent one: the INSERT would have met its row.
    renewed : same (hex b) token ≡ false
    renewed =
        let unused : is_used run.r ≡ false = sym run.detected ∙ first in
        let clear =
          sym (
            exists_where-update_where (λ r. same r.token token) (λ s. same s.token (hex b))
              (mark now) db.refresh_tokens (λ s. refl))
          ∙ run.unknown unused in
        let apart =
          first_where-exists _ (λ s. same s.token (hex b)) db.refresh_tokens run.r run.found
            clear in
        let held = first_where-holds _ db.refresh_tokens run.r run.found in
        ground (arith, same_sym (hex b) token, same_trans run.r.token token (hex b))

    pub use_and_rotate_spends : IsSpent (use_and_rotate mysql token exp b now db).1
    use_and_rotate_spends = subst (All IsSpentRow) (sym (run.rotated (sym run.detected ∙ first))) (
      (λ m. cc renewed),
      All-of_update_where IsSpentRow (λ r. same r.token token) (mark now) db.refresh_tokens
          (λ r k m. refl) (λ r k m. cc),
    )

  -- A text that the server takes for the spent token finds a used row, if any.
  pub spent-reused :
      (t : String) (exp : ℤ) (b : List ℕ) (now : ℤ) (db : Db) (rot : Rotation)
      → IsSpent db
      → same t token ≡ true
      → (use_and_rotate mysql t exp b now db).0 ≡ ok rot
      → rot.reused ≡ true
  spent-reused t exp b now db rot h alike done =
      let run = use_and_rotate-IsRun mysql t now exp b db rot done in
      let held = first_where-holds _ db.refresh_tokens run.r run.found in
      let spent = All-first_where IsSpentRow _ db.refresh_tokens run.r h run.found in
      run.detected ∙ spent (ground (arith, same_trans run.r.token t token))

  -- Once UseAndRotate has rotated a refresh token, any later UseAndRotate of it that returns a
  -- result reports reuse, whatever steps the service takes in between and whichever statements
  -- fail, provided that the random tokens made in between are not this token as the server compares
  -- texts.
  pub token_rotates_once :
      (exp : ℤ) (b : List ℕ) (now : ℤ) (db after : Db) (rot : Rotation) (t : String) (exp' : ℤ)
      (b' : List ℕ) (now' : ℤ) (rot' : Rotation)
      → (use_and_rotate mysql token exp b now db).0 ≡ ok rot
      → rot.reused ≡ false
      → Later (use_and_rotate mysql token exp b now db).1 after
      → same t token ≡ true
      → (use_and_rotate mysql t exp' b' now' after).0 ≡ ok rot'
      → rot'.reused ≡ true
  token_rotates_once exp b now db after rot t exp' b' now' rot' done first later alike again =
      spent-reused t exp' b' now' after rot'
        (Later-IsSpent later (use_and_rotate_spends exp b now db rot done first)) alike again
