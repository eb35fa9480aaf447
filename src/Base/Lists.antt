-- ===== src/Base/Lists.antt =====
-- Lists measured by native numbers, and the row operations of a table kept as a list.
use Prim.Native.Nat.{ℕ, zero, suc, ◌-◌, min}
use mathlib.Core.Path.{◌≡◌}
use mathlib.Core.Bool.{Bool, false, ◌||◌}
use mathlib.Core.Option.{Option, none, some}
use mathlib.Core.List.{List, [], ◌∷◌}
use native.Mathlib.Omega.{arith}
use go_notes_api.Base.Tests.{if◌then◌else◌}

module _ {ℓ} {A : Type ℓ} where
  abbrev pub length : List A → ℕ
  length [] = 0
  length (x ∷ xs) = suc (length xs)

  abbrev pub take : ℕ → List A → List A
  take zero xs = []
  take (suc n) [] = []
  take (suc n) (x ∷ xs) = x ∷ take n xs

  abbrev pub drop : ℕ → List A → List A
  drop zero xs = xs
  drop (suc n) [] = []
  drop (suc n) (x ∷ xs) = drop n xs

  pub length-take : (n : ℕ) (xs : List A) → length (take n xs) ≡ min n (length xs)
  length-take zero xs = omega arith
  length-take (suc n) [] = omega arith
  length-take (suc n) (x ∷ xs) = omega (arith, length-take n xs)

  pub length-drop : (n : ℕ) (xs : List A) → length (drop n xs) ≡ length xs - n
  length-drop zero xs = omega arith
  length-drop (suc n) [] = omega arith
  length-drop (suc n) (x ∷ xs) = omega (arith, length-drop n xs)

  abbrev pub All {κ} : (A → Type κ) → List A → Type κ
  All P [] = Unit
  All P (x ∷ xs) = P x × All P xs

  -- The rows that a WHERE clause selects, the first of them, and whether there is one.
  unfoldable pub rows_where : (A → Bool) → List A → List A
  rows_where p [] = []
  rows_where p (x ∷ xs) = let rest = rows_where p xs in if p x then x ∷ rest else rest

  unfoldable pub first_where : (A → Bool) → List A → Option A
  first_where p [] = none
  first_where p (x ∷ xs) = if p x then some x else first_where p xs

  unfoldable pub exists_where : (A → Bool) → List A → Bool
  exists_where p [] = false
  exists_where p (x ∷ xs) = p x || exists_where p xs

  -- UPDATE … WHERE and DELETE … WHERE.
  unfoldable pub update_where : (A → Bool) → (A → A) → List A → List A
  update_where p f [] = []
  update_where p f (x ∷ xs) = (if p x then f x else x) ∷ update_where p f xs

  unfoldable pub delete_where : (A → Bool) → List A → List A
  delete_where p [] = []
  delete_where p (x ∷ xs) = let rest = delete_where p xs in if p x then rest else x ∷ rest
