-- ===== src/Repos/Notes/Pages.antt =====
-- internal/repos/notes.go, ListFiltered: the pages of a listing together.
use mathlib.Core.List.{Perm}
use go_notes_api.Base.{
  ◌≡◌, ◌∙◌, ap, sym, ℕ, zero, suc, ◌+◌, ◌-◌, ◌*◌, ◌<◌, ◌≤◌, List, [], ◌++◌, String, arith,
  rows_where, length, take, drop, on_result, subst,
}
use go_notes_api.Base.Int.{ℤ, pos, two63}
use go_notes_api.Base.Perms.{length-Perm, take-append-take-drop, take_all}
use go_notes_api.Schema.{Note, Db}
use go_notes_api.Sql.{Mysql, EndsById, same_id}
use go_notes_api.Base.Keys.{IsKeyed, IsKeyed-rows_where}
use go_notes_api.Repos.Notes.{matches, sanitize_sort, list_filtered}
use go_notes_api.Repos.Notes.Effects.{IsSent}
use go_notes_api.Repos.Notes.Page.{
  all_matches, list_filtered_lem, fits_alone, zero_times, suc-times, pred-suc,
}

module _ (mysql : Mysql) (uid : ℤ) (q sort : String) (rows : List Note) (at : ℕ → Db) where
  open mysql use {sorted, sorted_perm, sorted_total}

  -- The items of page `k`, asked of the database `at k`, and of the first `k` pages, as a client
  -- collects them.
  module _ (size : ℕ) where
    abbrev pub page_items : ℕ → List Note
    page_items k =
        on_result (list_filtered mysql uid (pos k) (pos size) q sort (at k)).0 (λ _. [])
          (λ l. l.items)

    abbrev pub collect : ℕ → List Note
    collect zero = []
    collect (suc k) = collect k ++ page_items (suc k)

    module _ (unchanged : (k : ℕ) → (at k).notes ≡ rows) (keyed : IsKeyed same_id rows)
        (total_order : EndsById (sanitize_sort sort)) (size_pos : 0 < size) (size_fits : size ≤ 100)
        (sent : (k : ℕ) → IsSent (at k)) where
      abbrev listed : List Note
      listed = rows_where (matches mysql uid q) rows

      -- All notes that match, in an order that is that of each statement.
      abbrev ordered : List Note
      ordered = sorted 0 (sanitize_sort sort) listed

      ordered_lem : (k : ℕ) → all_matches mysql uid q sort (at k) ≡ ordered
      ordered_lem k =
          ap
            (λ (l : List Note).
              sorted ((at k).calls + 1) (sanitize_sort sort) (rows_where (matches mysql uid q) l))
            (unchanged k)
          ∙ sorted_total ((at k).calls + 1) 0 (sanitize_sort sort) listed total_order
              (IsKeyed-rows_where same_id (matches mysql uid q) rows keyed)

      page_items_lem :
          (k : ℕ) → suc k * size < two63 → page_items (suc k) ≡ take size (drop (k * size) ordered)
      page_items_lem k h =
          let page =
            list_filtered_lem mysql uid q sort (at (suc k)) (suc k) size (omega arith)
              (fits_alone k size size_pos h) size_pos size_fits (sent (suc k))
              (omega (arith, suc-times k size, pred-suc k size)) in
          ap (λ r. on_result r (λ _. []) (λ l. l.items)) page
          ∙ ap (λ l. take size (drop ((suc k - 1) * size) l)) (ordered_lem (suc k))
          ∙ ap (λ o. take size (drop o ordered)) (pred-suc k size)

      pub collect_lem : (k : ℕ) → k * size < two63 → collect k ≡ take (k * size) ordered
      collect_lem zero h = ap (λ n. take n ordered) (zero_times size)
      collect_lem (suc k) h =
          ap (λ l. l ++ page_items (suc k)) (collect_lem k (omega (arith, suc-times k size)))
          ∙ ap (λ l. take (k * size) ordered ++ l) (page_items_lem k h)
          ∙ take-append-take-drop (k * size) size ordered
          ∙ ap (λ n. take n ordered) (sym (suc-times k size))

      -- For a page size from 1 to 100, while both statements of a listing get through, the items of
      -- pages 1 to k together are a permutation of all notes that match, if k pages hold that many
      -- and k times the size is below 2^63, the notes stay as they are from one page to the next
      -- and have different ids, and the sort is "title" or one that sanitizeSort answers by "id
      -- DESC". For "oldest" and "updated" nothing is said: the server may order ties otherwise each
      -- time.
      pub pages_complete :
          (k : ℕ) → k * size < two63 → length listed ≤ k * size → Perm (collect k) listed
      pages_complete k h enough =
          let same : length ordered ≡ length listed =
            length-Perm (sorted_perm 0 (sanitize_sort sort) listed) in
          subst (λ l. Perm l listed)
            (sym (collect_lem k h ∙ take_all (k * size) ordered (omega (arith, same))))
            (sorted_perm 0 (sanitize_sort sort) listed)
