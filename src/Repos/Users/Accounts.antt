-- ===== src/Repos/Users/Accounts.antt =====
-- internal/repos/users.go: accounts by email address, and pages of accounts.
use go_notes_api.Base.{
  ◌≡◌, ◌≢◌, refl, ◌∙◌, ap, sym, true, false, ℕ, suc, ◌+◌, ◌≤◌, List, [], ◌∷◌, String, ok, arith,
  rows_where, first_where, exists_where, length, take, drop, map, if◌then◌else◌, length-take,
  length-drop, subst, ltb,
}
use go_notes_api.Base.Int.{ℤ, pos, negsuc, int_lt, ◌-ℤ◌, ◌*ℤ◌}
use go_notes_api.Base.Sorting.{sort_desc, sort_desc-Perm}
use go_notes_api.Base.Perms.{length-Perm}
use go_notes_api.Schema.{Db, User}
use go_notes_api.Sql.{Mysql, limit_offset}
use go_notes_api.Repos.Users.{
  UserPage, clamp_page, clamp_size, matches, create, find_by_email, list, user_row,
}

length-map : {A B : Type 0} (f : A → B) (xs : List A) → length (map f xs) ≡ length xs
length-map f [] = refl
length-map f (x ∷ xs) = ap suc (length-map f xs)

clamp_size-in_range : (size : ℤ) → (n : ℕ) × (clamp_size size ≡ pos n) × (n ≤ 100)
unfolding clamp_size int_lt
clamp_size-in_range (pos n) =
    (if ltb n 1 then 20 else if ltb 100 n then 100 else n, ground arith, ground arith)
clamp_size-in_range (negsuc n) = (20, ground arith, ground arith)

module _ (mysql : Mysql) where
  open mysql use {same, same_refl, same_sym, same_trans}

  abbrev pub IsRegistered : String → Db → Type 0
  IsRegistered email db = exists_where (λ u. same u.email email) db.users ≡ true

  -- What the service does with the accounts: none is ever removed or renamed.
  pub data Step (db after : Db) : Type 0 where
    creating : (email hash : String) → after ≡ (create mysql email hash db).1 → Step db after
    elsewhere : after.users ≡ db.users → Step db after

  pub data Later (db : Db) : Db → Type 0 where
    here : Later db db
    next : {mid after : Db} → Later db mid → Step mid after → Later db after

  module _ (email : String) where
    create-IsRegistered :
        (email' hash : String) (db : Db)
        → IsRegistered email db
        → IsRegistered email (create mysql email' hash db).1
    unfolding create exists_where
    create-IsRegistered email' hash db h = ground arith

    Step-IsRegistered :
        {db after : Db} → Step db after → IsRegistered email db → IsRegistered email after
    Step-IsRegistered {db} (creating email' hash e) h =
        ap (λ (d : Db). exists_where (λ u. same u.email email) d.users) e
        ∙ create-IsRegistered email' hash db h
    Step-IsRegistered (elsewhere e) h = ap (exists_where (λ u. same u.email email)) e ∙ h

    Later-IsRegistered :
        {db after : Db} → Later db after → IsRegistered email db → IsRegistered email after
    Later-IsRegistered here h = h
    Later-IsRegistered (next l s) h = Step-IsRegistered s (Later-IsRegistered l h)

    created-IsRegistered :
        (hash : String) (db : Db) (id : ℤ)
        → (create mysql email hash db).0 ≡ ok id
        → IsRegistered email (create mysql email hash db).1
    unfolding create exists_where
    created-IsRegistered hash db id h = ground (arith, same_refl email)

    -- Once an account was created for an email address, no second one is, after any later creates
    -- and steps that leave the accounts alone.
    pub registered_once :
        (hash hash' : String) (db after : Db) (id id' : ℤ)
        → (create mysql email hash db).0 ≡ ok id
        → Later (create mysql email hash db).1 after
        → (create mysql email hash' after).0 ≢ ok id'
    unfolding create
    registered_once hash hash' db after id id' made later =
        let taken = Later-IsRegistered later (created-IsRegistered hash db id made) in ground arith

    -- If the read gets through, an account that was created is found by its email address, and by
    -- any other text that the server takes for the same.
    pub create-find_by_email :
        (hash email' : String) (db : Db) (id : ℤ)
        → same email email' ≡ true
        → db.fails (db.calls + 1) ≡ false
        → (create mysql email hash db).0 ≡ ok id
        → (find_by_email mysql email' (create mysql email hash db).1).0
          ≡ ok (record { id = id; email = email; password_hash = hash })
    unfolding create find_by_email first_where
    create-find_by_email hash email' db id alike sent made = ground arith

  -- A page of accounts: a hundred at most, out of `total`.
  pub record IsUserPage (l : UserPage) : Type 0 where
    pub short : length l.items ≤ 100
    pub counted : length l.items ≤ l.total

  module _ (q : String) (db : Db) where
    abbrev found : List (ℤ × String)
    found = map user_row (sort_desc (λ u. u.id) (rows_where (matches mysql q) db.users))

    length-found : length found ≡ length (rows_where (matches mysql q) db.users)
    length-found =
        length-map user_row (sort_desc (λ u. u.id) (rows_where (matches mysql q) db.users))
        ∙ length-Perm (sort_desc-Perm (λ (u : User). u.id) (rows_where (matches mysql q) db.users))

    limit_offset-IsUserPage :
        (n : ℕ) (offset : ℤ) (items : List (ℤ × String))
        → n ≤ 100
        → limit_offset (pos n) offset found ≡ ok items
        → IsUserPage
            (record { items = items; total = length (rows_where (matches mysql q) db.users) })
    unfolding limit_offset
    limit_offset-IsUserPage n (pos m) items h e =
        let cut : items ≡ take n (drop m found) = cc in
        subst
          (λ l.
            IsUserPage
              (record { items = l; total = length (rows_where (matches mysql q) db.users) }))
          (sym cut)
          (record {
            short = omega (arith, length-take n (drop m found));
            counted =
                omega (arith, length-take n (drop m found), length-drop m found, length-found);
          })
    limit_offset-IsUserPage n (negsuc m) items h e = cc

    -- Whatever page and size are asked for, an answer holds a hundred accounts at most, and not more
    -- than its total.
    pub list-IsUserPage :
        (page size : ℤ) (l : UserPage) → (list mysql page size q db).0 ≡ ok l → IsUserPage l
    unfolding list
    list-IsUserPage page size l h =
        let (n, e, fits) = clamp_size-in_range size in
        let counted : length (rows_where (matches mysql q) db.users) ≡ l.total = ground arith in
        let cut : limit_offset (pos n) ((clamp_page page -ℤ pos 1) *ℤ clamp_size size) found
            ≡ ok l.items =
          ground arith in
        subst (λ t. IsUserPage (record { items = l.items; total = t })) counted
          (limit_offset-IsUserPage n _ l.items fits cut)
