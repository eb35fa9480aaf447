-- ===== src/Repos/Roles.antt =====
-- internal/repos/roles.go: which roles a user has. `name` is UNIQUE in roles, and (user_id, role_id)
-- is the primary key of user_roles, which has no foreign keys.
pub mod Grants
pub mod Escalation
mod Tests
use go_notes_api.Base.{
  ◌&&◌, Bool, ℕ, ◌+◌, List, [], ◌∷◌, String, Result, ok, err, pure, ◌>>=◌, on_result, ◌==◌,
  if◌then◌else◌, rows_where, first_where, exists_where, delete_where, length, ltb,
}
use go_notes_api.Base.Int.{ℤ, eq_of_int}
use go_notes_api.Schema.{Role, UserRole, Tables}
use go_notes_api.Sql.{Mysql, SqlError, Sql, exec, query, one_row}

-- INSERT IGNORE INTO user_roles(user_id,role_id) VALUES(?,?)
unfoldable pub insert_grant : ℤ → ℤ → Tables → Result SqlError Tables
insert_grant uid rid t = ok (record t {
  user_roles =
      if exists_where (λ g. g.user_id == uid && g.role_id == rid) t.user_roles
      then t.user_roles
      else record { user_id = uid; role_id = rid } ∷ t.user_roles;
})

-- DELETE FROM user_roles WHERE user_id=? AND role_id=?
unfoldable pub delete_grant : ℤ → ℤ → Tables → Result SqlError Tables
delete_grant uid rid t = ok (record t {
  user_roles = delete_where (λ g. g.user_id == uid && g.role_id == rid) t.user_roles;
})

module _ (mysql : Mysql) where
  open mysql use {same}

  -- SELECT id FROM roles WHERE name=?
  unfoldable pub select_role : String → Tables → Result SqlError Role
  select_role role t = one_row (first_where (λ o. same o.name role) t.roles)

  -- SELECT COUNT(*) FROM user_roles ur JOIN roles ro ON ro.id=ur.role_id
  -- WHERE ur.user_id=? AND ro.name=?
  unfoldable pub joined : ℤ → String → List Role → List UserRole → ℕ
  joined uid role roles [] = 0
  joined uid role roles (g ∷ gs) =
      (if g.user_id == uid
        then length (rows_where (λ o. o.id == g.role_id && same o.name role) roles)
        else 0)
      + joined uid role roles gs

  unfoldable pub count_grants : ℤ → String → Tables → Result SqlError ℕ
  count_grants uid role t = ok (joined uid role t.roles t.user_roles)

  unfoldable pub assign : ℤ → String → Sql (Unit {0})
  unfolding exec query select_role insert_grant
  assign uid role = do
    row ← query (select_role role)
    on_result row (λ e. pure (err e)) (λ o. exec (insert_grant uid o.id))

  unfoldable pub unassign : ℤ → String → Sql (Unit {0})
  unfolding exec query select_role delete_grant
  unassign uid role = do
    row ← query (select_role role)
    on_result row (λ e. pure (err e)) (λ o. exec (delete_grant uid o.id))

  unfoldable pub has : ℤ → String → Sql Bool
  unfolding query count_grants
  has uid role = do n ← query (count_grants uid role); pure (on_result n err (λ n. ok (ltb 0 n)))
