-- ===== src/Repos/RefreshTokens/Runs.antt =====
-- internal/repos/refresh_tokens.go, UseAndRotate: what a run that succeeds has found and stored.
use go_notes_api.Base.{
  ◌≡◌, ◌&&◌, Bool, true, false, ℕ, ◌+◌, List, ◌∷◌, some, none, String, ok, arith, first_where,
  exists_where, update_where, delete_where, ◌==◌, Option-cases, inl, inr,
}
use go_notes_api.Base.Int.{ℤ, int_lt, eq_of_int}
use go_notes_api.Base.Text.{hex}
use go_notes_api.Schema.{Db, RefreshToken}
use go_notes_api.Sql.{Mysql, exec, query, begin_tx, rollback, commit}
use go_notes_api.Repos.RefreshTokens.{
  Rotation, is_used, insert_token, select_token, mark_used, delete_live, abort, revoke_family,
  rotate, use_and_rotate,
}
use go_notes_api.Repos.RefreshTokens.Keys.{mark}

module _ (mysql : Mysql) (token : String) (now : ℤ) where
  open mysql use {same}

  abbrev pub is_live : RefreshToken → Bool
  is_live r = same r.token token && int_lt now r.expires_at

  abbrev pub marked : Db → List RefreshToken
  marked db = update_where (λ r. same r.token token) (mark now) db.refresh_tokens

  abbrev pub of_user : ℤ → RefreshToken → Bool
  of_user uid r = r.user_id == uid && int_lt now r.expires_at

  module _ (exp : ℤ) (b : List ℕ) where
    abbrev pub fresh : RefreshToken → RefreshToken
    fresh r = record { token = hex b; user_id = r.user_id; expires_at = exp; used_at = none }

    -- The run that finds the row `r`, from the state `db` to the state `after`.
    pub record IsRun (db after : Db) (rot : Rotation) : Type 0 where
      pub r : RefreshToken
      pub found : first_where is_live db.refresh_tokens ≡ some r
      pub user : rot.uid ≡ r.user_id
      pub detected : rot.reused ≡ is_used r
      pub renewed : is_used r ≡ false → rot.new_tok ≡ hex b
      pub unknown : is_used r ≡ false → exists_where (λ s. same s.token (hex b)) (marked db) ≡ false
      pub rotated : is_used r ≡ false → after.refresh_tokens ≡ fresh r ∷ marked db
      pub revoked :
          is_used r ≡ true
          → db.fails (db.calls + 1 + 1 + 1) ≡ false
          → after.refresh_tokens ≡ delete_where (of_user r.user_id) (marked db)

    IsRun-at :
        (db : Db) (rot : Rotation) (r : RefreshToken)
        → first_where is_live db.refresh_tokens ≡ some r
        → (use_and_rotate mysql token exp b now db).0 ≡ ok rot
        → IsRun db (use_and_rotate mysql token exp b now db).1 rot
    unfolding use_and_rotate abort rollback exec query begin_tx rotate revoke_family commit
        insert_token select_token mark_used delete_live
    IsRun-at db rot r f h = record {
      r = r;
      found = f;
      user = ground arith;
      detected = ground arith;
      renewed = ground arith;
      unknown = ground arith;
      rotated = ground arith;
      revoked = ground arith;
    }

    run_ne-none :
        (db : Db) (rot : Rotation)
        → first_where is_live db.refresh_tokens ≡ none
        → (use_and_rotate mysql token exp b now db).0 ≡ ok rot
        → ⊥
    unfolding use_and_rotate abort rollback exec query begin_tx select_token
    run_ne-none db rot f h = ground arith

    pub use_and_rotate-IsRun :
        (db : Db) (rot : Rotation)
        → (use_and_rotate mysql token exp b now db).0 ≡ ok rot
        → IsRun db (use_and_rotate mysql token exp b now db).1 rot
    use_and_rotate-IsRun db rot h = elim (Option-cases (first_where is_live db.refresh_tokens)) [
      | inl missing ↦ absurd (run_ne-none db rot missing h)
      | inr (r, found) ↦ IsRun-at db rot r found h
    ]
