-- ===== src/Repos/Roles/Tests.antt =====
-- Runs of roles.go on small tables.
use go_notes_api.Base.{◌≡◌, refl, ok, [], ◌∷◌, exists_where, first_where, rows_where, delete_where}
use go_notes_api.Base.Int.{pos, int_eq}
use go_notes_api.Schema.{Db}
use go_notes_api.Sql.{exec, query}
use go_notes_api.Fixtures.{plain_mysql, empty_db, no_tables}
use go_notes_api.Repos.Roles.{
  insert_grant, delete_grant, select_role, joined, count_grants, assign, unassign, has,
}

grants : Unit {0}
unfolding insert_grant delete_grant select_role joined count_grants assign unassign has exec query
    exists_where first_where rows_where delete_where int_eq
grants = tt

-- The two roles of the migration.
abbrev two_roles : Db
two_roles = record empty_db {
  tables = record no_tables {
    roles = record { id = pos 1; name = "admin" } ∷ record { id = pos 2; name = "user" } ∷ [];
  };
}

abbrev granted : Db
granted = (assign plain_mysql (pos 7) "admin" two_roles).1

assigned : (assign plain_mysql (pos 7) "admin" two_roles).0 ≡ ok tt
unfolding grants
assigned = refl

unassigned : (unassign plain_mysql (pos 7) "admin" granted).0 ≡ ok tt
unfolding grants
unassigned = refl
