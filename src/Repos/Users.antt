-- ===== src/Repos/Users.antt =====
-- internal/repos/users.go: the accounts. The column email is UNIQUE.
pub mod Accounts
pub mod Keys
mod Tests
use Prim.Native.String.{◌++◌}
use go_notes_api.Base.{
  Bool, true, map, ℕ, [], ◌+◌, List, ◌∷◌, String, Result, ok, err, pure, ◌>>=◌, on_result, ◌==◌,
  eq_of_text, if◌then◌else◌, rows_where, first_where, exists_where, length, take, drop, none, some,
}
use go_notes_api.Base.Int.{ℤ, pos, negsuc, int_lt, ◌-ℤ◌, ◌*ℤ◌}
use go_notes_api.Base.Sorting.{sort_desc}
use go_notes_api.Schema.{User, Tables}
use go_notes_api.Sql.{Mysql, SqlError, duplicate_key, Sql, exec_id, query, one_row, limit_offset}

-- A page of accounts, and the number of all that match. (The code selects the id and the email.)
pub record UserPage : Type 0 where
  pub items : List (ℤ × String)
  pub total : ℕ

abbrev pub user_row : User → ℤ × String
user_row u = (u.id, u.email)

-- `if page < 1 { page = 1 }`, and the size, which is cut at 100 here
unfoldable pub clamp_page : ℤ → ℤ
clamp_page page = if int_lt page (pos 1) then pos 1 else page

unfoldable pub clamp_size : ℤ → ℤ
clamp_size size =
    if int_lt size (pos 1) then pos 20 else if int_lt (pos 100) size then pos 100 else size

module _ (mysql : Mysql) where
  open mysql use {same, like}

  -- insert into users(email,password_hash) values(?,?)
  unfoldable pub insert_user : String → String → Tables → Result SqlError (ℤ × Tables)
  insert_user email hash t =
      if exists_where (λ u. same u.email email) t.users
      then err duplicate_key
      else ok (
        pos t.next_user,
        record t {
          users = record { id = pos t.next_user; email = email; password_hash = hash } ∷ t.users;
          next_user = t.next_user + 1;
        },
      )

  unfoldable pub create : String → String → Sql ℤ
  unfolding exec_id insert_user
  create email hash = exec_id (insert_user email hash)

  -- select id,email,password_hash from users where email=?
  unfoldable pub select_user : String → Tables → Result SqlError User
  select_user email t = one_row (first_where (λ u. same u.email email) t.users)

  unfoldable pub find_by_email : String → Sql User
  unfolding query select_user
  find_by_email email = query (select_user email)

  -- where email like ?, for a `q`
  abbrev pub matches : String → User → Bool
  matches q u = if q == "" then true else like u.email ("%" ++ q ++ "%")

  -- select count(*) from users …
  unfoldable pub count_users : String → Tables → Result SqlError ℕ
  count_users q t = ok (length (rows_where (matches q) t.users))

  -- select id,email from users … order by id desc limit ? offset ?
  unfoldable pub select_page : String → ℤ → ℤ → Tables → Result SqlError (List (ℤ × String))
  select_page q limit offset t =
      limit_offset limit offset
        (map user_row (sort_desc (λ u. u.id) (rows_where (matches q) t.users)))

  unfoldable pub list : ℤ → ℤ → String → Sql UserPage
  unfolding query count_users select_page
  list page size q = do
    let page = clamp_page page
    let size = clamp_size size
    counted ← query (count_users q)
    on_result counted (λ e. pure (err e))
        λ total. do
          rows ← query (select_page q size ((page -ℤ pos 1) *ℤ size))
          pure (on_result rows err (λ items. ok (record { items = items; total = total })))
