-- ===== src/Base/Keys.antt =====
-- Tables with a primary key or a unique index: no two rows clash.
use mathlib.Core.Path.{◌≡◌, ◌∙◌, fun_ext}
use mathlib.Core.Logic.{inl, inr}
use mathlib.Core.Bool.{Bool, true, false}
use mathlib.Core.Option.{some}
use mathlib.Core.List.{List, [], ◌∷◌}
use native.Mathlib.Omega.{arith}
use go_notes_api.Base.Tests.{if◌then◌else◌, Bool-cases}
use go_notes_api.Base.Lists.{All, first_where, exists_where, rows_where, update_where, delete_where}
use go_notes_api.Base.Rows.{
  exists_where-update_where, exists_where_of_delete_where, All-of_exists_where, All-map,
  first_where-holds, first_where-exists,
}

module _ {ℓ} {A : Type ℓ} (clash : A → A → Bool) where
  abbrev pub IsKeyed : List A → Type 0
  IsKeyed [] = Unit
  IsKeyed (x ∷ xs) = (exists_where (clash x) xs ≡ false) × IsKeyed xs

  IsKeyed-if :
      (b : Bool) (x : A) (xs : List A)
      → exists_where (clash x) xs ≡ false
      → IsKeyed xs
      → IsKeyed (if b then xs else x ∷ xs)
  IsKeyed-if true x xs h hs = hs
  IsKeyed-if false x xs h hs = (h, hs)

  pub IsKeyed-delete_where : (p : A → Bool) (xs : List A) → IsKeyed xs → IsKeyed (delete_where p xs)
  unfolding delete_where
  IsKeyed-delete_where p [] h = tt
  IsKeyed-delete_where p (x ∷ xs) (h, hs) =
      IsKeyed-if (p x) x (delete_where p xs) (exists_where_of_delete_where p (clash x) xs h)
        (IsKeyed-delete_where p xs hs)

  exists_where-rows_where :
      (p q : A → Bool) (xs : List A)
      → exists_where q xs ≡ false
      → exists_where q (rows_where p xs) ≡ false
  unfolding exists_where rows_where
  exists_where-rows_where p q [] h = h
  exists_where-rows_where p q (x ∷ xs) h = ground (arith, exists_where-rows_where p q xs)

  pub IsKeyed-rows_where : (p : A → Bool) (xs : List A) → IsKeyed xs → IsKeyed (rows_where p xs)
  unfolding rows_where
  IsKeyed-rows_where p [] h = tt
  IsKeyed-rows_where p (x ∷ xs) (h, hs) = elim (Bool-cases (p x)) [
    | inl hit ↦ rw hit (exists_where-rows_where p (clash x) xs h, IsKeyed-rows_where p xs hs)
    | inr miss ↦ rw miss (IsKeyed-rows_where p xs hs)
  ]

  -- An update of columns outside the key.
  module _ (p : A → Bool) (f : A → A) (left : (x y : A) → clash (f x) y ≡ clash x y)
      (right : (x y : A) → clash y (f x) ≡ clash y x) where
    updated-clash :
        (b : Bool) (x : A) (xs : List A)
        → exists_where (clash x) xs ≡ false
        → exists_where (clash (if b then f x else x)) xs ≡ false
    updated-clash true x xs h = rw (fun_ext (left x)) h
    updated-clash false x xs h = h

    pub IsKeyed-update_where : (xs : List A) → IsKeyed xs → IsKeyed (update_where p f xs)
    unfolding update_where
    IsKeyed-update_where [] h = tt
    IsKeyed-update_where (x ∷ xs) (h, hs) = (
      updated-clash (p x) x (update_where p f xs)
          (exists_where-update_where p (clash x) f xs (λ y. right y x) ∙ h),
      IsKeyed-update_where xs hs,
    )

  -- The row that a query finds is the only one with its key.
  module _ (p q : A → Bool) (weaker : (x : A) → p x ≡ true → q x ≡ true)
      (one_key : (x y : A) → q x ≡ true → q y ≡ true → clash x y ≡ true) where
    -- A row behind `x` does not have the key of `x`.
    found-clash :
        (x a : A) (xs : List A)
        → q x ≡ true
        → exists_where (clash x) xs ≡ false
        → first_where p xs ≡ some a
        → ⊥
    found-clash x a xs m h e =
        let held = first_where-holds p xs a e in
        let apart = first_where-exists p (clash x) xs a e h in
        ground (arith, weaker a held, one_key x a m)

    pub IsKeyed-first_where :
        (xs : List A) (a : A)
        → IsKeyed xs
        → first_where p xs ≡ some a
        → All (λ x. q x ≡ true → x ≡ a) xs
    unfolding first_where
    IsKeyed-first_where [] a h e = tt
    IsKeyed-first_where (x ∷ xs) a (h, hs) e = elim (Bool-cases (p x)) [
      | inl found ↦ (
        (λ _. ground arith),
        All-map xs (All-of_exists_where (clash x) xs h)
            (λ y k m. ground (arith, weaker x found, one_key x y)),
      )
      | inr other ↦
          let later : first_where p xs ≡ some a = ground arith in
          ((λ m. absurd (found-clash x a xs m h later)), IsKeyed-first_where xs a hs later)
    ]
