-- ===== src/Base/Sorting.antt =====
-- ORDER BY a unique number DESC, as a sort by insertion.
use Prim.Native.Nat.{ℕ, zero, suc}
use mathlib.Core.Path.{◌≡◌}
use mathlib.Core.Logic.{inl, inr}
use mathlib.Core.Bool.{false}
use mathlib.Core.List.{List, [], ◌∷◌, Perm}
use mathlib.Core.List.Perm
use go_notes_api.Base.Tests.{if◌then◌else◌, Bool-cases}
use go_notes_api.Base.Lists.{All, take}
use go_notes_api.Base.Perms.{All-take}
use go_notes_api.Base.Rows.{All-map}
use go_notes_api.Base.Int.{ℤ, int_lt, int_lt-asym, int_lt-trans_not}

module _ {ℓ} {A : Type ℓ} (key : A → ℤ) where
  unfoldable pub insert_desc : A → List A → List A
  insert_desc x [] = x ∷ []
  insert_desc x (y ∷ ys) =
      let rest = insert_desc x ys in if int_lt (key x) (key y) then y ∷ rest else x ∷ y ∷ ys

  unfoldable pub sort_desc : List A → List A
  sort_desc [] = []
  sort_desc (x ∷ xs) = insert_desc x (sort_desc xs)

  insert_desc-Perm : (x : A) (ys : List A) → Perm (insert_desc x ys) (x ∷ ys)
  unfolding insert_desc
  insert_desc-Perm x [] = Perm.refl (x ∷ [])
  insert_desc-Perm x (y ∷ ys) = elim (Bool-cases (int_lt (key x) (key y))) [
    | inl less ↦ rw less (Perm.trans (Perm.cons y (insert_desc-Perm x ys)) (Perm.swap x y ys))
    | inr more ↦ rw more (Perm.refl (x ∷ y ∷ ys))
  ]

  pub sort_desc-Perm : (xs : List A) → Perm (sort_desc xs) xs
  unfolding sort_desc
  sort_desc-Perm [] = Perm.refl []
  sort_desc-Perm (x ∷ xs) =
      Perm.trans (insert_desc-Perm x (sort_desc xs)) (Perm.cons x (sort_desc-Perm xs))

  -- No key is less than one behind it.
  abbrev pub IsDescending : List A → Type 0
  IsDescending [] = Unit
  IsDescending (x ∷ xs) = All (λ y. int_lt (key x) (key y) ≡ false) xs × IsDescending xs

  All-insert_desc {κ} :
      (P : A → Type κ) (x : A) (ys : List A) → P x → All P ys → All P (insert_desc x ys)
  unfolding insert_desc
  All-insert_desc P x [] h hs = (h, tt)
  All-insert_desc P x (y ∷ ys) h (k, ks) = elim (Bool-cases (int_lt (key x) (key y))) [
    | inl less ↦ rw less (k, All-insert_desc P x ys h ks)
    | inr more ↦ rw more (h, (k, ks))
  ]

  insert_desc-IsDescending :
      (x : A) (ys : List A) → IsDescending ys → IsDescending (insert_desc x ys)
  unfolding insert_desc
  insert_desc-IsDescending x [] h = (tt, tt)
  insert_desc-IsDescending x (y ∷ ys) (h, hs) = elim (Bool-cases (int_lt (key x) (key y))) [
    | inl less ↦ rw less (
      All-insert_desc (λ z. int_lt (key y) (key z) ≡ false) x ys (int_lt-asym (key x) (key y) less)
          h,
      insert_desc-IsDescending x ys hs,
    )
    | inr more ↦
        rw more
          ((more, All-map ys h (λ z k. int_lt-trans_not (key x) (key y) (key z) more k)), (h, hs))
  ]

  pub sort_desc-IsDescending : (xs : List A) → IsDescending (sort_desc xs)
  unfolding sort_desc
  sort_desc-IsDescending [] = tt
  sort_desc-IsDescending (x ∷ xs) =
      insert_desc-IsDescending x (sort_desc xs) (sort_desc-IsDescending xs)

  pub take-IsDescending : (n : ℕ) (xs : List A) → IsDescending xs → IsDescending (take n xs)
  take-IsDescending zero xs h = tt
  take-IsDescending (suc n) [] h = tt
  take-IsDescending (suc n) (x ∷ xs) (h, hs) =
      (All-take (λ y. int_lt (key x) (key y) ≡ false) n xs h, take-IsDescending n xs hs)
