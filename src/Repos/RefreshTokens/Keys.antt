-- ===== src/Repos/RefreshTokens/Keys.antt =====
-- internal/repos/refresh_tokens.go: `token` as the primary key of refresh_tokens.
use go_notes_api.Base.{
  ◌≡◌, refl, ◌&&◌, Bool, true, ℕ, List, some, String, arith, first_where, update_where,
  delete_where, All,
}
use go_notes_api.Base.Int.{ℤ, int_lt}
use go_notes_api.Base.Keys.{
  IsKeyed, IsKeyed-delete_where, IsKeyed-update_where, IsKeyed-first_where,
}
use go_notes_api.Schema.{Db, RefreshToken}
use go_notes_api.Sql.{Mysql, exec, query, begin_tx, rollback, commit}
use go_notes_api.Repos.RefreshTokens.{
  insert_token, select_token, mark_used, delete_live, delete_token, abort, issue, use_token,
  revoke_family, rotate, use_and_rotate, revoke,
}

abbrev pub mark : ℤ → RefreshToken → RefreshToken
mark now r = record r { used_at = some now }

module _ (mysql : Mysql) where
  open mysql use {same, same_sym, same_trans}

  abbrev pub clash : RefreshToken → RefreshToken → Bool
  clash r s = same s.token r.token

  abbrev pub IsKeyedDb : Db → Type 0
  IsKeyedDb db = IsKeyed clash db.refresh_tokens

  IsKeyed-mark :
      (token : String) (now : ℤ) (db : Db)
      → IsKeyedDb db
      → IsKeyed clash (update_where (λ r. same r.token token) (mark now) db.refresh_tokens)
  IsKeyed-mark token now db h =
      IsKeyed-update_where clash (λ r. same r.token token) (mark now) (λ r s. refl) (λ r s. refl)
        db.refresh_tokens h

  module _ (token : String) (now : ℤ) (db : Db) (h : IsKeyedDb db) where
    -- After an UPDATE and a DELETE.
    swept :
        (p : RefreshToken → Bool)
        → IsKeyed clash
            (delete_where p (update_where (λ r. same r.token token) (mark now) db.refresh_tokens))
    swept p = IsKeyed-delete_where clash p _ (IsKeyed-mark token now db h)

    -- UseAndRotate keeps tokens unique, whatever it returns.
    pub use_and_rotate-IsKeyed :
        (exp : ℤ) (b : List ℕ) → IsKeyedDb (use_and_rotate mysql token exp b now db).1
    unfolding use_and_rotate abort rollback exec query begin_tx rotate revoke_family commit
        insert_token select_token mark_used delete_live
    use_and_rotate-IsKeyed exp b = grind (arith, IsKeyed-mark token now db h, swept)

    pub use_token-IsKeyed : IsKeyedDb (use_token mysql token now db).1
    unfolding use_token abort rollback exec query begin_tx commit select_token mark_used delete_live
    use_token-IsKeyed = grind (arith, IsKeyed-mark token now db h, swept)

  pub issue-IsKeyed :
      (b : List ℕ) (uid exp : ℤ) (db : Db) → IsKeyedDb db → IsKeyedDb (issue mysql b uid exp db).1
  unfolding issue exec insert_token
  issue-IsKeyed b uid exp db h = ground arith

  pub revoke-IsKeyed :
      (token : String) (db : Db) → IsKeyedDb db → IsKeyedDb (revoke mysql token db).1
  unfolding revoke exec delete_token
  revoke-IsKeyed token db h =
      ground (arith, IsKeyed-delete_where clash (λ r. same r.token token) db.refresh_tokens h)

  -- All rows with a token are the row that a query for the live one finds.
  pub IsKeyed-only :
      (token : String) (now : ℤ) (rs : List RefreshToken) (r : RefreshToken)
      → IsKeyed clash rs
      → first_where (λ s. same s.token token && int_lt now s.expires_at) rs ≡ some r
      → All (λ s. same s.token token ≡ true → s ≡ r) rs
  IsKeyed-only token now rs r h e =
      IsKeyed-first_where clash (λ s. same s.token token && int_lt now s.expires_at)
        (λ s. same s.token token) (λ s k. ground arith)
        (λ s t k m. same_trans t.token token s.token m (same_sym s.token token k)) rs r h e
