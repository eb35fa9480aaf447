-- ===== src/Base/Int.antt =====
-- Go's `int` and `int64` over the native numbers, with the wrap-around written out.
use Prim.Native.Nat.{ℕ, suc, ◌+◌, ◌-◌, ◌*◌, ◌%◌}
use mathlib.Core.Path.{◌≡◌, refl}
use mathlib.Core.Logic.{◌↔◌}
use mathlib.Core.Bool.{Bool, true, false}
use native.Mathlib.Omega.{arith}
use go_notes_api.Base.Tests.{ltb, leb, nat_eq, if◌then◌else◌, Eq}

-- `negsuc n` is -(n + 1).
pub data ℤ : Type 0 where
  pos : ℕ → ℤ
  negsuc : ℕ → ℤ

abbrev pub pos_part : ℤ → ℕ
pos_part (pos n) = n
pos_part (negsuc n) = 0

abbrev pub neg_part : ℤ → ℕ
neg_part (pos n) = 0
neg_part (negsuc n) = suc n

abbrev pub sub_ℕ : ℕ → ℕ → ℤ
sub_ℕ a b = if leb b a then pos (a - b) else negsuc (b - a - 1)

unfoldable pub int_eq : ℤ → ℤ → Bool
int_eq (pos a) (pos b) = nat_eq a b
int_eq (negsuc a) (negsuc b) = nat_eq a b
int_eq _ _ = false

pub int_eq_iff : (a b : ℤ) → (int_eq a b ≡ true) ↔ (a ≡ b)
unfolding int_eq
int_eq_iff (pos a) (pos b) = ground arith
int_eq_iff (pos a) (negsuc b) = ground arith
int_eq_iff (negsuc a) (pos b) = ground arith
int_eq_iff (negsuc a) (negsuc b) = ground arith

instance abbrev pub eq_of_int : Eq ℤ
eq_of_int = record { test = int_eq; test_iff = int_eq_iff }

-- a < b and a ≤ b
unfoldable pub int_lt : ℤ → ℤ → Bool
int_lt a b = ltb (pos_part a + neg_part b) (pos_part b + neg_part a)

abbrev pub two63 : ℕ
two63 = 9223372036854775808

abbrev pub two64 : ℕ
two64 = 18446744073709551616

-- The 64-bit pattern of an integer, and the signed integer of a pattern.
abbrev pub to_u64 : ℤ → ℕ
to_u64 (pos n) = n % two64
to_u64 (negsuc n) = two64 - 1 - n % two64

abbrev pub of_u64 : ℕ → ℤ
of_u64 u = if ltb u two63 then pos u else negsuc (two64 - 1 - u)

abbrev pub wrap64 : ℤ → ℤ
wrap64 a = of_u64 (to_u64 a)

infixl 65 ◌-ℤ◌ ◌+ℤ◌
infixl 70 ◌*ℤ◌
-- Addition, subtraction and multiplication of `int`.
unfoldable pub ◌+ℤ◌ : ℤ → ℤ → ℤ
a +ℤ b = wrap64 (sub_ℕ (pos_part a + pos_part b) (neg_part a + neg_part b))

unfoldable pub ◌-ℤ◌ : ℤ → ℤ → ℤ
a -ℤ b = wrap64 (sub_ℕ (pos_part a + neg_part b) (neg_part a + pos_part b))

unfoldable pub ◌*ℤ◌ : ℤ → ℤ → ℤ
a *ℤ b = wrap64 (
    sub_ℕ (pos_part a * pos_part b + neg_part a * neg_part b)
      (pos_part a * neg_part b + neg_part a * pos_part b))

pub int_lt-asym : (a b : ℤ) → int_lt a b ≡ true → int_lt b a ≡ false
unfolding int_lt
int_lt-asym (pos a) (pos b) h = ground arith
int_lt-asym (pos a) (negsuc b) h = ground arith
int_lt-asym (negsuc a) (pos b) h = ground arith
int_lt-asym (negsuc a) (negsuc b) h = ground arith

-- Of a number that is not below another, and so on.
pub int_lt-trans_not : (a b c : ℤ) → int_lt a b ≡ false → int_lt b c ≡ false → int_lt a c ≡ false
unfolding int_lt
int_lt-trans_not (pos a) (pos b) (pos c) h k = ground arith
int_lt-trans_not (pos a) (pos b) (negsuc c) h k = ground arith
int_lt-trans_not (pos a) (negsuc b) (pos c) h k = ground arith
int_lt-trans_not (pos a) (negsuc b) (negsuc c) h k = ground arith
int_lt-trans_not (negsuc a) (pos b) (pos c) h k = ground arith
int_lt-trans_not (negsuc a) (pos b) (negsuc c) h k = ground arith
int_lt-trans_not (negsuc a) (negsuc b) (pos c) h k = ground arith
int_lt-trans_not (negsuc a) (negsuc b) (negsuc c) h k = ground arith

wraps :
    (pos 9223372036854775807 -ℤ negsuc 0 ≡ negsuc 9223372036854775807)
    × (negsuc 4 *ℤ pos 3 ≡ negsuc 14)
unfolding ◌-ℤ◌ ◌*ℤ◌
wraps = (refl, refl)
