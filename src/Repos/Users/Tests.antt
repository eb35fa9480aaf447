-- ===== src/Repos/Users/Tests.antt =====
-- Runs of users.go on small tables.
use go_notes_api.Base.{◌≡◌, refl, ok, [], ◌∷◌, rows_where, exists_where, first_where}
use go_notes_api.Base.Int.{pos, int_lt, ◌-ℤ◌, ◌*ℤ◌}
use go_notes_api.Base.Sorting.{insert_desc, sort_desc}
use go_notes_api.Schema.{Db}
use go_notes_api.Sql.{exec_id, query, limit_offset}
use go_notes_api.Fixtures.{plain_mysql, empty_db}
use go_notes_api.Repos.Users.{
  UserPage, insert_user, create, select_user, find_by_email, clamp_page, clamp_size, count_users,
  select_page, list,
}

accounts : Unit {0}
unfolding insert_desc sort_desc insert_user create select_user find_by_email clamp_page clamp_size
    count_users select_page list exec_id query limit_offset rows_where exists_where first_where
    int_lt ◌-ℤ◌ ◌*ℤ◌
accounts = tt

abbrev first : Db
first = (create plain_mysql "a@b.c" "x" empty_db).1

abbrev second : Db
second = (create plain_mysql "d@e.f" "y" first).1

abbrev page : UserPage
page = record { items = (pos 2, "d@e.f") ∷ (pos 1, "a@b.c") ∷ []; total = 2 }

listed : (list plain_mysql (pos 0) (pos 500) "" second).0 ≡ ok page
unfolding accounts
listed = refl
