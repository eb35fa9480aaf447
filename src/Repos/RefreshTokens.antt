-- ===== src/Repos/RefreshTokens.antt =====
-- internal/repos/refresh_tokens.go: refresh tokens that are used once, with reuse detection.
-- `now` is the value of NOW() and `b` are the 32 bytes of rand.Read.
pub mod Atomic
pub mod Frames
pub mod Keys
pub mod Runs
pub mod Reuse
pub mod Once
pub mod Live
mod Tests
use go_notes_api.Base.{
  ◌&&◌, Bool, true, false, ℕ, none, some, List, ◌∷◌, String, Result, ok, err, pure, ◌>>=◌, ◌>>◌,
  on_result, ◌==◌, if◌then◌else◌, first_where, exists_where, update_where, delete_where,
}
use go_notes_api.Base.Int.{ℤ, int_lt, eq_of_int}
use go_notes_api.Base.Text.{hex}
use go_notes_api.Schema.{RefreshToken, Tables}
use go_notes_api.Sql.{
  Mysql, SqlError, duplicate_key, Sql, exec, query, one_row, begin_tx, rollback, commit,
}

-- The results of UseAndRotate and of Use.
pub record Rotation : Type 0 where
  pub uid : ℤ
  pub new_tok : String
  pub reused : Bool

pub record Used : Type 0 where
  pub uid : ℤ
  pub reused : Bool

-- usedAt.Valid
abbrev pub is_used : RefreshToken → Bool
is_used r = elim r.used_at [ none ↦ false | some _ ↦ true ]

module _ (mysql : Mysql) where
  open mysql use {same}

  -- INSERT INTO refresh_tokens(token,user_id,expires_at,used_at) VALUES(?,?,?,NULL)
  insert_token : String → ℤ → ℤ → Tables → Result SqlError Tables
  insert_token token uid exp t =
      if exists_where (λ r. same r.token token) t.refresh_tokens
      then err duplicate_key
      else ok (record t {
        refresh_tokens =
            record { token = token; user_id = uid; expires_at = exp; used_at = none }
            ∷ t.refresh_tokens;
      })

  -- SELECT user_id, used_at FROM refresh_tokens WHERE token=? AND expires_at>NOW() FOR UPDATE
  select_token : String → ℤ → Tables → Result SqlError RefreshToken
  select_token token now t =
      one_row (first_where (λ r. same r.token token && int_lt now r.expires_at) t.refresh_tokens)

  -- UPDATE refresh_tokens SET used_at=NOW() WHERE token=?
  mark_used : String → ℤ → Tables → Result SqlError Tables
  mark_used token now t = ok (record t {
    refresh_tokens =
        update_where (λ r. same r.token token) (λ r. record r { used_at = some now })
          t.refresh_tokens;
  })

  -- DELETE FROM refresh_tokens WHERE user_id=? AND expires_at>NOW()
  delete_live : ℤ → ℤ → Tables → Result SqlError Tables
  delete_live uid now t = ok (record t {
    refresh_tokens =
        delete_where (λ r. r.user_id == uid && int_lt now r.expires_at) t.refresh_tokens;
  })

  -- DELETE FROM refresh_tokens WHERE token=?
  delete_token : String → Tables → Result SqlError Tables
  delete_token token t =
      ok (record t { refresh_tokens = delete_where (λ r. same r.token token) t.refresh_tokens })

  pub issue : List ℕ → ℤ → ℤ → Sql String
  issue b uid exp = do
    let tok = hex b
    inserted ← exec (insert_token tok uid exp)
    pure (on_result inserted err (λ _. ok tok))

  -- A failed statement of the transaction: `_ = tx.Rollback(); return …, err`.
  abort : {A : Type 0} → Tables → SqlError → Sql A
  abort before e = do rollback before; pure (err e)

  pub use_token : String → ℤ → Sql Used
  use_token token now = do
    tx ← begin_tx
    on_result tx (λ e. pure (err e))
        λ before. do
          row ← query (select_token token now)
          on_result row (abort before) λ r. do
            marked ← exec (mark_used token now)
            on_result marked (abort before) λ _. do
              if is_used r then exec (delete_live r.user_id now) else pure (ok tt)
              committed ← commit before
              pure (
                  on_result committed err
                    (λ _. ok (record { uid = r.user_id; reused = is_used r })))

  -- The token was used before: every live token of the user goes.
  revoke_family : Tables → RefreshToken → ℤ → Sql Rotation
  revoke_family before r now = do
    exec (delete_live r.user_id now)
    committed ← commit before
    pure (
        on_result committed err (λ _. ok (record { uid = r.user_id; new_tok = ""; reused = true })))

  -- The token is used for the first time: a new one takes its place.
  rotate : Tables → RefreshToken → ℤ → List ℕ → Sql Rotation
  rotate before r new_exp b = do
    let new_tok = hex b
    inserted ← exec (insert_token new_tok r.user_id new_exp)
    on_result inserted (abort before) λ _. do
      committed ← commit before
      pure (
          on_result committed err
            (λ _. ok (record { uid = r.user_id; new_tok = new_tok; reused = false })))

  pub use_and_rotate : String → ℤ → List ℕ → ℤ → Sql Rotation
  use_and_rotate token new_exp b now = do
    tx ← begin_tx
    on_result tx (λ e. pure (err e))
        λ before. do
          row ← query (select_token token now)
          on_result row (abort before) λ r. do
            marked ← exec (mark_used token now)
            on_result marked (abort before)
                λ _. if is_used r then revoke_family before r now else rotate before r new_exp b

  pub revoke : String → Sql (Unit {0})
  revoke token = exec (delete_token token)
