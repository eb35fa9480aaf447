-- ===== src/Repos/Audit/Tests.antt =====
-- A log with two rows.
use go_notes_api.Base.{◌≡◌, refl, ok, List, [], ◌∷◌, rows_where, take, drop}
use go_notes_api.Base.Int.{pos, int_lt}
use go_notes_api.Base.Sorting.{sort_desc, insert_desc}
use go_notes_api.Schema.{AuditLog, Db}
use go_notes_api.Sql.{query, limit_offset}
use go_notes_api.Fixtures.{empty_db, no_tables, audit_row}
use go_notes_api.Repos.Audit.{clamp_limit, select_window, list}
use go_notes_api.Repos.Audit.Window.{IsWindow, list-IsWindow}

abbrev rows : List AuditLog
rows = audit_row (pos 1) (pos 5) ∷ audit_row (pos 2) (pos 6) ∷ audit_row (pos 3) (pos 9) ∷ []

abbrev logged : Db
logged = record empty_db { tables = record no_tables { audit_logs = rows } }

listed :
    (list (pos 5) (pos 8) (pos 0) logged).0
    ≡ ok (audit_row (pos 2) (pos 6) ∷ audit_row (pos 1) (pos 5) ∷ [])
unfolding list query clamp_limit select_window sort_desc insert_desc rows_where limit_offset take
    drop int_lt
listed = refl

list-IsWindow_example :
    IsWindow (pos 5) (pos 8) (audit_row (pos 2) (pos 6) ∷ audit_row (pos 1) (pos 5) ∷ [])
list-IsWindow_example =
    list-IsWindow (pos 5) (pos 8) logged (pos 0)
      (audit_row (pos 2) (pos 6) ∷ audit_row (pos 1) (pos 5) ∷ []) listed
