-- ===== src/Base/Calls.antt =====
-- Go's call conventions: a pair of a value and an error is a `Result`, and code that changes a
-- state is a function of the state into its result and the new state.
use mathlib.Core.Path.{◌≡◌, refl}
use mathlib.Core.Logic.{◌⊎◌, inl, inr}

pub data Result {ℓ κ} (E : Type ℓ) (A : Type κ) : Type (ℓ ⊔ κ) where
  ok : A → Result E A
  err : E → Result E A

-- A call that reads and writes a state `S`. It returns its errors as values, as Go does.
abbrev pub Call : Type 0 → Type 0 → Type 0
Call S A = S → A × S

abbrev pub pure : {S A : Type 0} → A → Call S A
pure a s = (a, s)

infixl 5 ◌>>=◌ ◌>>◌
abbrev pub ◌>>=◌ : {S A B : Type 0} → Call S A → (A → Call S B) → Call S B
◌>>=◌ m f s = let (a, s') = m s in f a s'

abbrev pub ◌>>◌ : {S A B : Type 0} → Call S A → Call S B → Call S B
m >> n = m >>= λ _. n

-- `if err != nil { … failed … } … succeeded …`
abbrev pub on_result {ℓ κ μ} :
    {E : Type ℓ} {A : Type κ} {B : Type μ} → Result E A → (E → B) → (A → B) → B
on_result (ok a) failed succeeded = succeeded a
on_result (err e) failed succeeded = failed e

pub Result-cases {ℓ κ} :
    {E : Type ℓ} {A : Type κ} (res : Result E A)
    → ((e : E) × (res ≡ err e)) ⊎ ((a : A) × (res ≡ ok a))
Result-cases (err e) = inl (e, refl)
Result-cases (ok a) = inr (a, refl)

pub >>=_assoc :
    {S A B C : Type 0} (m : Call S A) (f : A → Call S B) (g : B → Call S C)
    → (m >>= f >>= g) ≡ (m >>= λ a. f a >>= g)
>>=_assoc m f g = refl
