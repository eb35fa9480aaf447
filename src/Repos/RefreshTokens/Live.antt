-- ===== src/Repos/RefreshTokens/Live.antt =====
-- internal/repos/refresh_tokens.go: issue, rotation and revocation while no statement fails.
use go_notes_api.Base.{
  ◌≡◌, refl, ◌&&◌, true, false, ℕ, ◌+◌, List, String, ok, arith, first_where, exists_where,
  update_where, delete_where, err,
}
use go_notes_api.Base.Int.{ℤ, int_lt}
use go_notes_api.Base.Text.{hex}
use go_notes_api.Base.Rows.{
  exists_where-update_where, exists_where-delete_where, first_where-missing,
}
use go_notes_api.Schema.{Db}
use go_notes_api.Sql.{no_rows, Mysql, exec, query, begin_tx, rollback, commit}
use go_notes_api.Repos.RefreshTokens.{
  insert_token, select_token, mark_used, delete_live, abort, issue, revoke_family, rotate,
  use_and_rotate, revoke, delete_token,
}
use go_notes_api.Repos.RefreshTokens.Keys.{mark}

module _ (mysql : Mysql) where
  open mysql use {same, same_refl, same_trans}

  abbrev pub IsHealthy : Db → Type 0
  IsHealthy db = (n : ℕ) → db.fails n ≡ false

  -- No row has the token that the random bytes make.
  abbrev pub IsFresh : List ℕ → Db → Type 0
  IsFresh b db = exists_where (λ r. same r.token (hex b)) db.refresh_tokens ≡ false

  -- While no statement fails, a token that was just issued is rotated for its user before it
  -- expires, if the random bytes of both tokens make new and different ones.
  pub issue-use_and_rotate :
      (b b' : List ℕ) (uid exp exp' now : ℤ) (db : Db)
      → IsHealthy db
      → IsFresh b db
      → IsFresh b' db
      → same (hex b) (hex b') ≡ false
      → int_lt now exp ≡ true
      → (use_and_rotate mysql (hex b) exp' b' now (issue mysql b uid exp db).1).0
        ≡ ok (record { uid = uid; new_tok = hex b'; reused = false })
  unfolding use_and_rotate abort rollback exec query begin_tx rotate revoke_family commit
      insert_token select_token mark_used delete_live issue first_where exists_where update_where
  issue-use_and_rotate b b' uid exp exp' now db healthy fresh fresh' ne live = ground (
    arith,
    healthy db.calls,
    healthy (db.calls + 1),
    healthy (db.calls + 1 + 1),
    healthy (db.calls + 1 + 1 + 1),
    healthy (db.calls + 1 + 1 + 1 + 1),
    healthy (db.calls + 1 + 1 + 1 + 1 + 1),
    same_refl (hex b),
    exists_where-update_where (λ r. same r.token (hex b)) (λ r. same r.token (hex b')) (mark now)
        db.refresh_tokens (λ r. refl),
  )

  -- A token that was revoked, as the server compares texts, is not found any more.
  pub revoke-use_and_rotate :
      (token t : String) (exp now : ℤ) (b : List ℕ) (db : Db)
      → IsHealthy db
      → same t token ≡ true
      → (use_and_rotate mysql t exp b now (revoke mysql token db).1).0 ≡ err no_rows
  unfolding use_and_rotate revoke abort rollback exec query begin_tx select_token delete_token
  revoke-use_and_rotate token t exp now b db healthy alike =
      let gone = exists_where-delete_where (λ r. same r.token token) db.refresh_tokens in
      let missing =
        first_where-missing (λ r. same r.token t && int_lt now r.expires_at)
          (λ r. same r.token token) (delete_where (λ r. same r.token token) db.refresh_tokens)
          (λ r k. same_trans r.token t token (ground arith) alike) gone in
      ground (arith, healthy db.calls, healthy (db.calls + 1), healthy (db.calls + 1 + 1))

  pub issue_lem :
      (b : List ℕ) (uid exp : ℤ) (db : Db)
      → IsHealthy db
      → IsFresh b db
      → (issue mysql b uid exp db).0 ≡ ok (hex b)
  unfolding issue exec insert_token
  issue_lem b uid exp db healthy fresh = ground (arith, healthy db.calls)
