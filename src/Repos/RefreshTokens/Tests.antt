-- ===== src/Repos/RefreshTokens/Tests.antt =====
-- Runs of refresh_tokens.go on small tables.
use go_notes_api.Base.{
  ◌==◌, eq_of_nat, ◌+◌, ◌≡◌, ◌≢◌, refl, true, false, [], ◌∷◌, ok, err, rows_where, exists_where,
  first_where, update_where, delete_where, ◌==◌,
}
use go_notes_api.Base.Int.{ℤ, pos, int_lt, int_eq, eq_of_int}
use go_notes_api.Base.Text.{hex}
use go_notes_api.Schema.{Db}
use go_notes_api.Sql.{connection_lost, exec, query, begin_tx, rollback, commit}
use go_notes_api.Fixtures.{plain_mysql, empty_db}
use go_notes_api.Repos.RefreshTokens.{
  Rotation, insert_token, select_token, mark_used, delete_live, abort, issue, use_token,
  revoke_family, rotate, use_and_rotate,
}
use go_notes_api.Repos.RefreshTokens.Atomic.{
  commit_call, answering, IsAtomic, use_and_rotate-eq-err,
}
use go_notes_api.Repos.RefreshTokens.Keys.{IsKeyedDb, use_and_rotate-IsKeyed}
use go_notes_api.Repos.RefreshTokens.Runs.{of_user}
use go_notes_api.Repos.RefreshTokens.Reuse.{reuse_lem}
use go_notes_api.Repos.RefreshTokens.Once.{here, next, using, token_rotates_once}
use go_notes_api.Repos.RefreshTokens.Live.{issue-use_and_rotate}

tokens : Unit {0}
unfolding insert_token select_token mark_used delete_live abort issue use_token revoke_family rotate
    use_and_rotate exec query begin_tx rollback commit exists_where first_where update_where
    delete_where rows_where int_lt int_eq hex
tokens = tt

-- User 7 has the token "01", and user 8 the token "02", until the time 100.
abbrev issued : Db
issued =
    (issue plain_mysql (2 ∷ []) (pos 8) (pos 100)
      (issue plain_mysql (1 ∷ []) (pos 7) (pos 100) empty_db).1).1

-- The first use of "01", at the time 10, and a use of it at the time 20, when it is spent.
abbrev first_use : Db
first_use = (use_and_rotate plain_mysql "01" (pos 200) (3 ∷ []) (pos 10) issued).1

abbrev fresh : Rotation
fresh = record { uid = pos 7; new_tok = "03"; reused = false }

abbrev stolen : Rotation
stolen = record { uid = pos 7; new_tok = ""; reused = true }

rotated : (use_and_rotate plain_mysql "01" (pos 200) (3 ∷ []) (pos 10) issued).0 ≡ ok fresh
unfolding tokens
rotated = refl

detected : (use_and_rotate plain_mysql "01" (pos 200) (4 ∷ []) (pos 20) first_use).0 ≡ ok stolen
unfolding tokens
detected = refl

-- The answer of the COMMIT is lost.
abbrev losing : Db
losing = record issued { fails = λ n. n == commit_call issued; kept = λ n. true }

lost : (use_and_rotate plain_mysql "01" (pos 200) (3 ∷ []) (pos 10) losing).0 ≡ err connection_lost
unfolding tokens
lost = refl

use_and_rotate-eq-err_example :
    IsAtomic plain_mysql "01"
      (pos 200)
      (3 ∷ [])
      (pos 10)
      losing.tables
      true
      true
      (use_and_rotate plain_mysql "01" (pos 200) (3 ∷ []) (pos 10) losing)
      (use_and_rotate plain_mysql "01" (pos 200) (3 ∷ []) (pos 10) (answering losing))
unfolding tokens
use_and_rotate-eq-err_example =
    use_and_rotate-eq-err plain_mysql "01" (pos 200) (3 ∷ []) (pos 10) losing connection_lost lost

issued-IsKeyed : IsKeyedDb plain_mysql issued
unfolding tokens
issued-IsKeyed = (refl, (refl, tt))

first_use-IsKeyed : IsKeyedDb plain_mysql first_use
first_use-IsKeyed =
    use_and_rotate-IsKeyed plain_mysql "01" (pos 10) issued issued-IsKeyed (pos 200) (3 ∷ [])

no_fault : first_use.fails (first_use.calls + 1 + 1 + 1) ≡ false
unfolding tokens
no_fault = refl

reuse_lem_example :
    (exists_where
        (of_user plain_mysql "01" (pos 20) (pos 7))
        (use_and_rotate plain_mysql "01" (pos 200) (4 ∷ []) (pos 20) first_use).1.refresh_tokens
      ≡ false)
    × ((uid : ℤ)
        → uid ≢ pos 7
        → rows_where
            (λ r. r.user_id == uid)
            (use_and_rotate plain_mysql "01" (pos 200) (4 ∷ []) (pos 20) first_use).1.refresh_tokens
          ≡ rows_where (λ r. r.user_id == uid) first_use.refresh_tokens)
reuse_lem_example =
    reuse_lem plain_mysql "01" (pos 200) (4 ∷ []) (pos 20) first_use stolen detected refl no_fault
      first_use-IsKeyed

-- In between, user 8 uses its token.
abbrev between : Db
between = (use_token plain_mysql "02" (pos 15) first_use).1

detected_later : (use_and_rotate plain_mysql "01" (pos 200) (4 ∷ []) (pos 20) between).0 ≡ ok stolen
unfolding tokens
detected_later = refl

token_rotates_once_example : stolen.reused ≡ true
token_rotates_once_example =
    token_rotates_once plain_mysql "01" (pos 200) (3 ∷ []) (pos 10) issued between fresh "01"
      (pos 200) (4 ∷ []) (pos 20) stolen rotated refl (next here (using "02" (pos 15) refl)) refl
      detected_later

issue-use_and_rotate_example :
    (use_and_rotate plain_mysql
      (hex (1 ∷ []))
      (pos 200)
      (3 ∷ [])
      (pos 10)
      (issue plain_mysql (1 ∷ []) (pos 7) (pos 100) empty_db).1).0
    ≡ ok (record { uid = pos 7; new_tok = hex (3 ∷ []); reused = false })
unfolding tokens
issue-use_and_rotate_example =
    issue-use_and_rotate plain_mysql (1 ∷ []) (3 ∷ []) (pos 7) (pos 100) (pos 200) (pos 10) empty_db
      (λ n. refl) refl refl refl refl
