-- ===== src/Repos/Notes/Page.antt =====
-- internal/repos/notes.go, ListFiltered: what a page holds, and the OFFSET.
use mathlib.Core.Bool.{Bool-set}
use mathlib.Core.List.Perm
use go_notes_api.Base.{
  ◌≡◌, ◌∙◌, ap, sym, ◌||◌, true, ℕ, zero, suc, ◌+◌, ◌-◌, ◌*◌, ◌%◌, ◌<◌, ◌≤◌, List, String, ok, err,
  arith, All, rows_where, length, take, drop, ltb, if◌then◌else◌, subst, length-take, length-drop,
}
use go_notes_api.Base.Int.{ℤ, pos, negsuc, two63, two64, int_lt, ◌-ℤ◌, ◌*ℤ◌, of_u64, wrap64, sub_ℕ}
use go_notes_api.Base.Rows.{rows_where-All}
use go_notes_api.Base.Perms.{length-Perm, All-Perm, All-take, All-drop}
use go_notes_api.Schema.{Note, Db}
use go_notes_api.Sql.{Mysql, bad_statement, limit_offset}
use go_notes_api.Repos.Notes.{
  Listing, matches, clamp_page, clamp_size, sanitize_sort, list_filtered,
}
use go_notes_api.Repos.Notes.Effects.{IsSent}

sub-one_lem : (page : ℕ) → 0 < page → page < two63 → pos page -ℤ pos 1 ≡ pos (page - 1)
unfolding ◌-ℤ◌
sub-one_lem page h k = ground arith

mul-pos : (a b : ℕ) → pos a *ℤ pos b ≡ of_u64 (a * b % two64)
unfolding ◌*ℤ◌
mul-pos a b =
    let product : sub_ℕ (a * b + 0 * 0) (a * 0 + 0 * b) ≡ pos (a * b) = ground arith in
    ap wrap64 product

of_u64-small : (n : ℕ) → n < two63 → of_u64 (n % two64) ≡ pos n
of_u64-small n h = ground arith

of_u64-large : (n : ℕ) → two63 ≤ n → n < two64 → of_u64 (n % two64) ≡ negsuc (two64 - 1 - n)
of_u64-large n h k = ground arith

offset_lem :
    (page size : ℕ)
    → 0 < page
    → page < two63
    → (pos page -ℤ pos 1) *ℤ pos size ≡ of_u64 ((page - 1) * size % two64)
offset_lem page size h k = ap (λ o. o *ℤ pos size) (sub-one_lem page h k) ∙ mul-pos (page - 1) size

clamp_page_lem : (page : ℕ) → 0 < page → clamp_page (pos page) ≡ pos page
unfolding clamp_page int_lt
clamp_page_lem page h = ground arith

clamp_size_lem : (size : ℕ) → 0 < size → size ≤ 100 → clamp_size (pos size) ≡ pos size
unfolding clamp_size int_lt
clamp_size_lem size h k = ground arith

clamp_size-in_range : (size : ℤ) → (n : ℕ) × (clamp_size size ≡ pos n) × (n ≤ 100)
unfolding clamp_size int_lt
clamp_size-in_range (pos n) = (if ltb n 1 || ltb 100 n then 20 else n, ground arith, ground arith)
clamp_size-in_range (negsuc n) = (20, ground arith, ground arith)

pub zero_times : (n : ℕ) → 0 ≡ 0 * n
zero_times n = omega arith

pub suc-times : (k n : ℕ) → suc k * n ≡ k * n + n
suc-times k n = omega arith

pub pred-suc : (k n : ℕ) → (suc k - 1) * n ≡ k * n
pred-suc k n = ap (λ m. m * n) (omega arith)

pub fits_alone : (k n : ℕ) → 0 < n → suc k * n < two63 → suc k < two63
fits_alone k zero h fits = elim h [ ]
fits_alone k (suc n) h fits = grind arith

module _ (mysql : Mysql) (uid : ℤ) (q sort : String) (db : Db) where
  open mysql use {sorted, sorted_perm}

  -- All notes that match, in the order of the query.
  abbrev pub all_matches : List Note
  all_matches =
      sorted (db.calls + 1) (sanitize_sort sort) (rows_where (matches mysql uid q) db.notes)

  abbrev pub total : ℕ
  total = length (rows_where (matches mysql uid q) db.notes)

  module _ (page size : ℕ) (page_pos : 0 < page) (page_fits : page < two63) (size_pos : 0 < size)
      (size_fits : size ≤ 100) (sent : IsSent db) where
    -- A page whose offset fits an `int`.
    pub list_filtered_lem :
        (page - 1) * size < two63
        → (list_filtered mysql uid (pos page) (pos size) q sort db).0
          ≡ ok (record { items = take size (drop ((page - 1) * size) all_matches); total = total })
    unfolding list_filtered limit_offset
    list_filtered_lem fits =
        let offset : (pos page -ℤ pos 1) *ℤ pos size ≡ pos ((page - 1) * size) =
          offset_lem page size page_pos page_fits ∙ of_u64-small _ fits in
        ground (arith, clamp_page_lem page page_pos, clamp_size_lem size size_pos size_fits)

    -- If both statements get through, for a page size from 1 to 100 and a page from 1 and below
    -- 2^63 whose offset lies from 2^63 to 2^64, a listing is refused by the server as a bad
    -- statement.
    pub list_filtered_overflow :
        two63 ≤ (page - 1) * size
        → (page - 1) * size < two64
        → (list_filtered mysql uid (pos page) (pos size) q sort db).0 ≡ err bad_statement
    unfolding list_filtered limit_offset
    list_filtered_overflow wraps below =
        let offset : (pos page -ℤ pos 1) *ℤ pos size ≡ negsuc (two64 - 1 - (page - 1) * size) =
          offset_lem page size page_pos page_fits ∙ of_u64-large _ wraps below in
        ground (arith, clamp_page_lem page page_pos, clamp_size_lem size size_pos size_fits)

  -- What a page is, whatever was asked: notes of the user that are not deleted, a hundred at most,
  -- out of `total`.
  pub record IsPage (l : Listing) : Type 0 where
    pub short : length l.items ≤ 100
    pub counted : length l.items ≤ l.total
    pub matched : All (λ n. matches mysql uid q n ≡ true) l.items

  matches-All : All (λ n. matches mysql uid q n ≡ true) all_matches
  matches-All =
      All-Perm (λ n. matches mysql uid q n ≡ true) (λ n. Bool-set _ _)
        (rows_where (matches mysql uid q) db.notes) all_matches
        (Perm.symm (sorted_perm (db.calls + 1) (sanitize_sort sort) _))
        (rows_where-All (matches mysql uid q) db.notes)

  length-all : length all_matches ≡ total
  length-all = length-Perm (sorted_perm (db.calls + 1) (sanitize_sort sort) _)

  limit_offset-IsPage :
      (n : ℕ) (offset : ℤ) (items : List Note)
      → n ≤ 100
      → limit_offset (pos n) offset all_matches ≡ ok items
      → IsPage (record { items = items; total = total })
  unfolding limit_offset
  limit_offset-IsPage n (pos m) items h e =
      let cut : items ≡ take n (drop m all_matches) = cc in
      subst (λ l. IsPage (record { items = l; total = total })) (sym cut)
        (record {
          short = omega (arith, length-take n (drop m all_matches));
          counted =
              omega
                (arith, length-take n (drop m all_matches), length-drop m all_matches, length-all);
          matched = All-take _ n _ (All-drop _ m all_matches matches-All);
        })
  limit_offset-IsPage n (negsuc m) items h e = cc

  -- Whatever page and size are asked for, a listing that is answered holds a hundred notes at most,
  -- not more than its total, and only notes of the user that match and are not deleted.
  pub list_filtered-IsPage :
      (page size : ℤ) (l : Listing)
      → (list_filtered mysql uid page size q sort db).0 ≡ ok l
      → IsPage l
  unfolding list_filtered
  list_filtered-IsPage page size l h =
      let (n, e, fits) = clamp_size-in_range size in
      let counted : total ≡ l.total = ground arith in
      let cut : limit_offset (pos n) ((clamp_page page -ℤ pos 1) *ℤ clamp_size size) all_matches
          ≡ ok l.items =
        ground arith in
      subst (λ t. IsPage (record { items = l.items; total = t })) counted
        (limit_offset-IsPage n _ l.items fits cut)
