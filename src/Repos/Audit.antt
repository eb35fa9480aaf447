-- ===== src/Repos/Audit.antt =====
-- internal/repos/audit.go: the rows of the audit log within a time, the newest first.
pub mod Window
mod Tests
use go_notes_api.Base.{
  ◌&&◌, ◌||◌, Bool, not, ℕ, ok, List, Result, on_result, if◌then◌else◌, rows_where,
}
use go_notes_api.Base.Int.{ℤ, pos, int_lt}
use go_notes_api.Base.Sorting.{sort_desc}
use go_notes_api.Schema.{AuditLog, Tables}
use go_notes_api.Sql.{Sql, SqlError, query, limit_offset}

-- `if limit <= 0 || limit > 1000 { limit = 100 }`
unfoldable pub clamp_limit : ℤ → ℤ
clamp_limit limit = if int_lt limit (pos 1) || int_lt (pos 1000) limit then pos 100 else limit

-- WHERE created_at BETWEEN ? AND ?
abbrev pub is_between : ℤ → ℤ → AuditLog → Bool
is_between from to a = not (int_lt a.created_at from) && not (int_lt to a.created_at)

-- SELECT … FROM audit_logs WHERE … ORDER BY id DESC LIMIT ?
unfoldable pub select_window : ℤ → ℤ → ℤ → Tables → Result SqlError (List AuditLog)
select_window from to limit t =
    limit_offset limit (pos 0)
      (sort_desc (λ a. a.id) (rows_where (is_between from to) t.audit_logs))

unfoldable pub list : ℤ → ℤ → ℤ → Sql (List AuditLog)
unfolding query select_window
list from to limit = query (select_window from to (clamp_limit limit))
