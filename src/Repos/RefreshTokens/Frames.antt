-- ===== src/Repos/RefreshTokens/Frames.antt =====
-- internal/repos/refresh_tokens.go: the other tables.
use go_notes_api.Base.{◌≡◌, arith, String, ℕ, List}
use go_notes_api.Base.Int.{ℤ}
use go_notes_api.Schema.{Db}
use go_notes_api.Sql.{Mysql, exec, query, begin_tx, commit, rollback}
use go_notes_api.Repos.RefreshTokens.{
  issue, use_and_rotate, revoke, revoke_family, rotate, abort, insert_token, delete_token,
  mark_used, delete_live, select_token,
}

module _ (mysql : Mysql) (d : Db) where
  pub issue-frame :
      (b : List ℕ) (uid exp : ℤ)
      → let t = (issue mysql b uid exp d).1.tables in
        t ≡ record d.tables { refresh_tokens = t.refresh_tokens }
  unfolding issue exec insert_token
  issue-frame b uid exp = ground arith

  pub rotate-frame :
      (token : String) (exp : ℤ) (b : List ℕ) (now : ℤ)
      → let t = (use_and_rotate mysql token exp b now d).1.tables in
        t ≡ record d.tables { refresh_tokens = t.refresh_tokens }
  unfolding use_and_rotate revoke_family rotate abort exec query begin_tx commit rollback
      insert_token mark_used delete_live select_token
  rotate-frame token exp b now = ground arith

  pub revoke-frame :
      (token : String)
      → let t = (revoke mysql token d).1.tables in
        t ≡ record d.tables { refresh_tokens = t.refresh_tokens }
  unfolding revoke exec delete_token
  revoke-frame token = ground arith

  pub issue-fails : (b : List ℕ) (uid exp : ℤ) → (issue mysql b uid exp d).1.fails ≡ d.fails
  unfolding issue exec insert_token
  issue-fails b uid exp = ground arith
