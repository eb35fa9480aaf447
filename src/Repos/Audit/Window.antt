-- ===== src/Repos/Audit/Window.antt =====
-- internal/repos/audit.go, List: what an answer holds.
use go_notes_api.Base.{
  ◌≡◌, sym, subst, true, ℕ, ◌≤◌, List, ok, arith, All, rows_where, take, length, length-take, ltb,
  if◌then◌else◌,
}
use mathlib.Core.Bool.{Bool-set}
use mathlib.Core.List.Perm
use go_notes_api.Base.Int.{ℤ, pos, negsuc, int_lt}
use go_notes_api.Base.Rows.{rows_where-All}
use go_notes_api.Base.Perms.{All-Perm, All-take}
use go_notes_api.Base.Sorting.{
  sort_desc, sort_desc-Perm, sort_desc-IsDescending, take-IsDescending, IsDescending,
}
use go_notes_api.Schema.{AuditLog, Db}
use go_notes_api.Sql.{limit_offset}
use go_notes_api.Repos.Audit.{clamp_limit, is_between, list}

-- At most a thousand rows, all within the times, the newest first.
pub record IsWindow (from to : ℤ) (rows : List AuditLog) : Type 0 where
  pub short : length rows ≤ 1000
  pub within : All (λ a. is_between from to a ≡ true) rows
  pub newest : IsDescending (λ a. a.id) rows

clamp_limit-in_range : (limit : ℤ) → (n : ℕ) × (clamp_limit limit ≡ pos n) × (n ≤ 1000)
unfolding clamp_limit int_lt
clamp_limit-in_range (pos n) =
    (if ltb n 1 then 100 else if ltb 1000 n then 100 else n, ground arith, ground arith)
clamp_limit-in_range (negsuc n) = (100, ground arith, ground arith)

module _ (from to : ℤ) (db : Db) where
  abbrev matching : List AuditLog
  matching = sort_desc (λ a. a.id) (rows_where (is_between from to) db.audit_logs)

  matching-within : All (λ a. is_between from to a ≡ true) matching
  matching-within =
      All-Perm (λ a. is_between from to a ≡ true) (λ a. Bool-set _ _)
        (rows_where (is_between from to) db.audit_logs) matching
        (Perm.symm (sort_desc-Perm (λ (a : AuditLog). a.id) _))
        (rows_where-All (is_between from to) db.audit_logs)

  take-IsWindow : (n : ℕ) → n ≤ 1000 → IsWindow from to (take n matching)
  take-IsWindow n fits = record {
    short = omega (arith, length-take n matching);
    within = All-take _ n matching matching-within;
    newest =
        take-IsDescending (λ (a : AuditLog). a.id) n matching
          (sort_desc-IsDescending (λ (a : AuditLog). a.id) _);
  }

  -- Whatever limit is asked for, an answer of the audit log holds a thousand rows at most, all with
  -- a time from `from` to `to`, in descending order of their ids.
  pub list-IsWindow :
      (limit : ℤ) (rows : List AuditLog)
      → (list from to limit db).0 ≡ ok rows
      → IsWindow from to rows
  unfolding list limit_offset
  list-IsWindow limit rows h =
      let (n, e, fits) = clamp_limit-in_range limit in
      let cut : rows ≡ take n matching = ground arith in
      subst (IsWindow from to) (sym cut) (take-IsWindow n fits)
