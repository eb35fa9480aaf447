-- ===== src/Base/Perms.antt =====
-- What a reordering of rows keeps, and how pages of a list fit together.
use Prim.Native.Nat.{ℕ, zero, suc, ◌+◌, ◌≤◌}
use Prim.Native.Nat.add
use mathlib.Core.Path.{◌≡◌, refl, ap, sym, ◌∙◌, subst}
use mathlib.Core.Logic.{∥∥₁_elim}
use mathlib.Core.List.{List, [], ◌∷◌, ◌++◌, Perm, Permᴰ}
use mathlib.Core.HLevel.{×_prop}
use native.Mathlib.Nat.{ℕ_set}
use native.Mathlib.Omega.{arith}
use go_notes_api.Base.Lists.{length, take, drop, All}

module _ {ℓ} {A : Type ℓ} where
  length-Permᴰ : {xs ys : List A} → Permᴰ xs ys → length xs ≡ length ys
  length-Permᴰ Permᴰ.nil = refl
  length-Permᴰ (Permᴰ.cons e p) = ap suc (length-Permᴰ p)
  length-Permᴰ (Permᴰ.swap e e') = refl
  length-Permᴰ (Permᴰ.trans p q) = length-Permᴰ p ∙ length-Permᴰ q

  pub length-Perm : {xs ys : List A} → Perm xs ys → length xs ≡ length ys
  length-Perm p = ∥∥₁_elim p (ℕ_set _ _) length-Permᴰ

module _ {ℓ κ} {A : Type ℓ} (P : A → Type κ) where
  All-Permᴰ : {xs ys : List A} → Permᴰ xs ys → All P xs → All P ys
  All-Permᴰ Permᴰ.nil h = tt
  All-Permᴰ (Permᴰ.cons e p) (h, hs) = (subst P e h, All-Permᴰ p hs)
  All-Permᴰ (Permᴰ.swap e e') (h, (k, hs)) = (subst P e' k, (subst P e h, hs))
  All-Permᴰ (Permᴰ.trans p q) h = All-Permᴰ q (All-Permᴰ p h)

  All-prop : ((x : A) → IsProp (P x)) → (xs : List A) → IsProp (All P xs)
  All-prop prop [] = λ a b. refl
  All-prop prop (x ∷ xs) = ×_prop (prop x) (All-prop prop xs)

  pub All-Perm : ((x : A) → IsProp (P x)) → (xs ys : List A) → Perm xs ys → All P xs → All P ys
  All-Perm prop xs ys p h = ∥∥₁_elim p (All-prop prop ys) (λ d. All-Permᴰ d h)

  pub All-take : (n : ℕ) (xs : List A) → All P xs → All P (take n xs)
  All-take zero xs h = tt
  All-take (suc n) [] h = tt
  All-take (suc n) (x ∷ xs) (h, hs) = (h, All-take n xs hs)

  pub All-drop : (n : ℕ) (xs : List A) → All P xs → All P (drop n xs)
  All-drop zero xs h = h
  All-drop (suc n) [] h = tt
  All-drop (suc n) (x ∷ xs) (h, hs) = All-drop n xs hs

module _ {ℓ} {A : Type ℓ} where
  take_nil : (n : ℕ) → take {A = A} n [] ≡ []
  take_nil zero = refl
  take_nil (suc n) = refl

  pub take-append-take-drop :
      (m n : ℕ) (xs : List A) → take m xs ++ take n (drop m xs) ≡ take (m + n) xs
  take-append-take-drop zero n xs = ap (λ k. take k xs) (omega arith)
  take-append-take-drop (suc m) n [] = take_nil n ∙ sym (take_nil (suc m + n))
  take-append-take-drop (suc m) n (x ∷ xs) =
      ap (λ ys. x ∷ ys) (take-append-take-drop m n xs)
      ∙ ap (λ k. take k (x ∷ xs)) (sym (add.suc m n))

  pub take_all : (n : ℕ) (xs : List A) → length xs ≤ n → take n xs ≡ xs
  take_all zero [] h = refl
  take_all zero (x ∷ xs) h = absurd (omega arith)
  take_all (suc n) [] h = refl
  take_all (suc n) (x ∷ xs) h = ap (λ ys. x ∷ ys) (take_all n xs (omega arith))
