-- ===== src/Repos/RefreshTokens/Reuse.antt =====
-- internal/repos/refresh_tokens.go, UseAndRotate: what is stored when a used token comes back.
use go_notes_api.Base.{
  ◌≡◌, ◌≢◌, ◌∙◌, ap, true, false, ℕ, ◌+◌, List, String, ok, arith, rows_where, exists_where,
  delete_where, ◌==◌,
}
use go_notes_api.Base.Int.{ℤ, int_eq_iff, eq_of_int}
use go_notes_api.Base.Rows.{
  exists_where-delete_where, rows_where-delete_where, rows_where-update_where, All-map,
}
use go_notes_api.Schema.{Db, RefreshToken}
use go_notes_api.Sql.{Mysql}
use go_notes_api.Repos.RefreshTokens.{Rotation, use_and_rotate}
use go_notes_api.Repos.RefreshTokens.Keys.{IsKeyedDb, IsKeyed-only, mark}
use go_notes_api.Repos.RefreshTokens.Runs.{IsRun, use_and_rotate-IsRun, marked, of_user}

module _ (mysql : Mysql) (token : String) (exp : ℤ) (b : List ℕ) (now : ℤ) (db : Db) where
  open mysql use {same}

  abbrev after : Db
  after = (use_and_rotate mysql token exp b now db).1

  module _ (rot : Rotation) (done : (use_and_rotate mysql token exp b now db).0 ≡ ok rot)
      (reused : rot.reused ≡ true) (sent : db.fails (db.calls + 1 + 1 + 1) ≡ false) where
    reuse-IsRun : IsRun mysql token now exp b db after rot
    reuse-IsRun = use_and_rotate-IsRun mysql token now exp b db rot done

    reuse_rows :
        after.refresh_tokens
        ≡ delete_where (of_user mysql token now rot.uid) (marked mysql token now db)
    reuse_rows = let run = reuse-IsRun in ground (arith, run.revoked, run.detected, run.user)

    reuse-revokes : exists_where (of_user mysql token now rot.uid) after.refresh_tokens ≡ false
    reuse-revokes =
        ap (exists_where (of_user mysql token now rot.uid)) reuse_rows
        ∙ exists_where-delete_where (of_user mysql token now rot.uid) (marked mysql token now db)

    apart :
        (uid : ℤ) (r s : RefreshToken)
        → uid ≢ r.user_id
        → s ≡ r
        → ((s.user_id == uid) ≡ false) × (((mark now s).user_id == uid) ≡ false)
    apart uid r s ne e = ground (arith, int_eq_iff s.user_id uid)

    other_user :
        (uid : ℤ) (s : RefreshToken)
        → uid ≢ rot.uid
        → of_user mysql token now rot.uid s ≡ true
        → (s.user_id == uid) ≡ false
    other_user uid s ne h = ground (arith, int_eq_iff s.user_id uid, int_eq_iff s.user_id rot.uid)

    reuse-keeps_others :
        (uid : ℤ)
        → IsKeyedDb mysql db
        → uid ≢ rot.uid
        → rows_where (λ r. r.user_id == uid) after.refresh_tokens
          ≡ rows_where (λ r. r.user_id == uid) db.refresh_tokens
    reuse-keeps_others uid keyed ne =
        let run = reuse-IsRun in
        let only = IsKeyed-only mysql token now db.refresh_tokens run.r keyed run.found in
        ap (rows_where (λ r. r.user_id == uid)) reuse_rows
        ∙ rows_where-delete_where (of_user mysql token now rot.uid) (λ r. r.user_id == uid)
            (marked mysql token now db) (λ s h. other_user uid s ne h)
        ∙ rows_where-update_where (λ r. same r.token token) (λ r. r.user_id == uid) (mark now)
            db.refresh_tokens
            (All-map db.refresh_tokens only (λ s e m. apart uid run.r s (rw (← run.user) ne) (e m)))

    -- If tokens are unique and UseAndRotate reports reuse, and its DELETE gets through, the user
    -- whose token it was has no token left that has not expired, and the token rows of every other
    -- user stay exactly as they were.
    pub reuse_lem :
        IsKeyedDb mysql db
        → (exists_where (of_user mysql token now rot.uid) after.refresh_tokens ≡ false)
          × ((uid : ℤ)
              → uid ≢ rot.uid
              → rows_where (λ r. r.user_id == uid) after.refresh_tokens
                ≡ rows_where (λ r. r.user_id == uid) db.refresh_tokens)
    reuse_lem keyed = (reuse-revokes, λ uid. reuse-keeps_others uid keyed)
