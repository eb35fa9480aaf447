-- ===== src/Base/Rows.antt =====
-- What the row operations keep, and what they leave behind.
use Prim.Native.Nat.{◌≤◌}
use mathlib.Core.Path.{◌≡◌, refl, subst}
use mathlib.Core.Bool.{Bool, true, false}
use mathlib.Core.Option.{some, none}
use mathlib.Core.Logic.{inl, inr}
use mathlib.Core.List.{List, [], ◌∷◌}
use native.Mathlib.Omega.{arith}
use go_notes_api.Base.Tests.{if◌then◌else◌, Bool-cases}
use go_notes_api.Base.Lists.{
  length, All, rows_where, first_where, exists_where, update_where, delete_where,
}

module _ {ℓ} {A : Type ℓ} (p : A → Bool) where
  pub exists_where-delete_where : (xs : List A) → exists_where p (delete_where p xs) ≡ false
  unfolding exists_where delete_where
  exists_where-delete_where [] = refl
  exists_where-delete_where (x ∷ xs) = ground (arith, exists_where-delete_where xs)

  pub exists_where_of_delete_where :
      (q : A → Bool) (xs : List A)
      → exists_where q xs ≡ false
      → exists_where q (delete_where p xs) ≡ false
  unfolding exists_where delete_where
  exists_where_of_delete_where q [] h = refl
  exists_where_of_delete_where q (x ∷ xs) h = ground (arith, exists_where_of_delete_where q xs)

  pub first_where-holds : (xs : List A) (a : A) → first_where p xs ≡ some a → p a ≡ true
  unfolding first_where
  first_where-holds [] a h = ground arith
  first_where-holds (x ∷ xs) a h = ground (arith, first_where-holds xs a)

  pub first_where-front : (xs : List A) (a : A) → p a ≡ true → first_where p (a ∷ xs) ≡ some a
  unfolding first_where
  first_where-front xs a h = ground arith

  pub first_where-behind :
      (xs : List A) (a : A) → p a ≡ false → first_where p (a ∷ xs) ≡ first_where p xs
  unfolding first_where
  first_where-behind xs a h = ground arith

  -- A row that one query finds satisfies what another says of no row.
  pub first_where-exists :
      (q : A → Bool) (xs : List A) (a : A)
      → first_where p xs ≡ some a
      → exists_where q xs ≡ false
      → q a ≡ false
  unfolding first_where exists_where
  first_where-exists q [] a h e = ground arith
  first_where-exists q (x ∷ xs) a h e = ground (arith, first_where-exists q xs a)

  -- A query that is narrower than one which finds no row.
  pub first_where-missing :
      (q : A → Bool) (xs : List A)
      → ((x : A) → p x ≡ true → q x ≡ true)
      → exists_where q xs ≡ false
      → first_where p xs ≡ none
  unfolding first_where exists_where
  first_where-missing q [] h e = refl
  first_where-missing q (x ∷ xs) h e = ground (arith, h x, first_where-missing q xs h)

  pub rows_where-delete_where :
      (q : A → Bool) (xs : List A)
      → ((x : A) → p x ≡ true → q x ≡ false)
      → rows_where q (delete_where p xs) ≡ rows_where q xs
  unfolding rows_where delete_where
  rows_where-delete_where q [] h = refl
  rows_where-delete_where q (x ∷ xs) h = ground (arith, h x, rows_where-delete_where q xs h)

  -- An update shows in no query that selects none of the rows it meets, before or after.
  pub rows_where-update_where :
      (q : A → Bool) (f : A → A) (xs : List A)
      → All (λ x. p x ≡ true → (q x ≡ false) × (q (f x) ≡ false)) xs
      → rows_where q (update_where p f xs) ≡ rows_where q xs
  unfolding rows_where update_where
  rows_where-update_where q f [] h = refl
  rows_where-update_where q f (x ∷ xs) (h, hs) =
      ground (arith, h, rows_where-update_where q f xs hs)

  pub All-of_exists_where : (xs : List A) → exists_where p xs ≡ false → All (λ x. p x ≡ false) xs
  unfolding exists_where
  All-of_exists_where [] h = tt
  All-of_exists_where (x ∷ xs) h = (ground arith, All-of_exists_where xs (ground arith))

  pub exists_where-update_where :
      (q : A → Bool) (f : A → A) (xs : List A)
      → ((x : A) → q (f x) ≡ q x)
      → exists_where q (update_where p f xs) ≡ exists_where q xs
  unfolding exists_where update_where
  exists_where-update_where q f [] h = refl
  exists_where-update_where q f (x ∷ xs) h = ground (arith, h x, exists_where-update_where q f xs h)

  -- An update that spares the row which a query finds, and moves no other row into the query.
  pub first_where-update_where :
      (q : A → Bool) (f : A → A) (xs : List A) (a : A)
      → first_where q xs ≡ some a
      → p a ≡ false
      → ((x : A) → q (f x) ≡ q x)
      → first_where q (update_where p f xs) ≡ some a
  unfolding first_where update_where
  first_where-update_where q f [] a h e k = ground arith
  first_where-update_where q f (x ∷ xs) a h e k =
      ground (arith, k x, first_where-update_where q f xs a)

  pub first_where-update_where_hit :
      (q : A → Bool) (f : A → A) (xs : List A) (a : A)
      → first_where q xs ≡ some a
      → p a ≡ true
      → ((x : A) → q (f x) ≡ q x)
      → first_where q (update_where p f xs) ≡ some (f a)
  unfolding first_where update_where
  first_where-update_where_hit q f [] a h e k = ground arith
  first_where-update_where_hit q f (x ∷ xs) a h e k =
      ground (arith, k x, first_where-update_where_hit q f xs a)

  -- An update that takes every row it meets out of the query by which it finds them.
  pub first_where-update_where-none :
      (f : A → A) (xs : List A)
      → ((x : A) → p (f x) ≡ false)
      → first_where p (update_where p f xs) ≡ none
  unfolding first_where update_where
  first_where-update_where-none f [] k = refl
  first_where-update_where-none f (x ∷ xs) k =
      ground (arith, k x, first_where-update_where-none f xs k)

  -- An update that moves no row into a query which finds nothing.
  pub first_where-none-update_where :
      (q : A → Bool) (f : A → A) (xs : List A)
      → first_where q xs ≡ none
      → ((x : A) → q x ≡ false → q (f x) ≡ false)
      → first_where q (update_where p f xs) ≡ none
  unfolding first_where update_where
  first_where-none-update_where q f [] h k = refl
  first_where-none-update_where q f (x ∷ xs) h k =
      ground (arith, k x, first_where-none-update_where q f xs)

  -- An update of rows that a query does not select, before or after.
  pub first_where-update_where_apart :
      (q : A → Bool) (f : A → A) (xs : List A)
      → ((x : A) → p x ≡ true → (q x ≡ false) × (q (f x) ≡ false))
      → first_where q (update_where p f xs) ≡ first_where q xs
  unfolding first_where update_where
  first_where-update_where_apart q f [] h = refl
  first_where-update_where_apart q f (x ∷ xs) h =
      ground (arith, h x, first_where-update_where_apart q f xs h)

  pub rows_where-All : (xs : List A) → All (λ x. p x ≡ true) (rows_where p xs)
  unfolding rows_where
  rows_where-All [] = tt
  rows_where-All (x ∷ xs) = elim (Bool-cases (p x)) [
    | inl found ↦ rw found (found, rows_where-All xs)
    | inr other ↦ rw other (rows_where-All xs)
  ]

  pub length-rows_where-le : (xs : List A) → length (rows_where p xs) ≤ length xs
  unfolding rows_where
  length-rows_where-le [] = omega arith
  length-rows_where-le (x ∷ xs) = ground (arith, length-rows_where-le xs)

module _ {ℓ κ} {A : Type ℓ} (P : A → Type κ) (p : A → Bool) where
  All-if : (b : Bool) (x : A) (xs : List A) → P x → All P xs → All P (if b then xs else x ∷ xs)
  All-if true x xs h hs = hs
  All-if false x xs h hs = (h, hs)

  pub All-delete_where : (xs : List A) → All P xs → All P (delete_where p xs)
  unfolding delete_where
  All-delete_where [] h = tt
  All-delete_where (x ∷ xs) (h, hs) = All-if (p x) x (delete_where p xs) h (All-delete_where xs hs)

  if-holds : (b : Bool) (x y : A) → (b ≡ true → P x) → (b ≡ false → P y) → P (if b then x else y)
  if-holds true x y h k = h refl
  if-holds false x y h k = k refl

  pub All-update_where :
      (f : A → A) (xs : List A)
      → All P xs
      → ((x : A) → p x ≡ true → P x → P (f x))
      → All P (update_where p f xs)
  unfolding update_where
  All-update_where f [] h k = tt
  All-update_where f (x ∷ xs) (h, hs) k =
      (if-holds (p x) (f x) x (λ e. k x e h) (λ _. h), All-update_where f xs hs k)

  -- What an update makes true of the rows that it meets, and what is true of all others anyway.
  pub All-of_update_where :
      (f : A → A) (xs : List A)
      → ((x : A) → p x ≡ true → P (f x))
      → ((x : A) → p x ≡ false → P x)
      → All P (update_where p f xs)
  unfolding update_where
  All-of_update_where f [] h k = tt
  All-of_update_where f (x ∷ xs) h k =
      (if-holds (p x) (f x) x (h x) (k x), All-of_update_where f xs h k)

  pub All-first_where : (xs : List A) (a : A) → All P xs → first_where p xs ≡ some a → P a
  unfolding first_where
  All-first_where [] a h e = cc
  All-first_where (x ∷ xs) a (h, hs) e = elim (Bool-cases (p x)) [
    | inl found ↦ let same : x ≡ a = ground arith in subst P same h
    | inr other ↦ All-first_where xs a hs (ground arith)
  ]

module _ {ℓ κ μ} {A : Type ℓ} {P : A → Type κ} {Q : A → Type μ} where
  pub All-map : (xs : List A) → All P xs → ((x : A) → P x → Q x) → All Q xs
  All-map [] h k = tt
  All-map (x ∷ xs) (h, hs) k = (k x h, All-map xs hs k)

module _ {ℓ κ} {A : Type ℓ} (P : A → Type κ) where
  pub All-of : (xs : List A) → ((x : A) → P x) → All P xs
  All-of [] h = tt
  All-of (x ∷ xs) h = (h x, All-of xs h)
