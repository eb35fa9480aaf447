-- ===== src/Base/Text/Plain.antt =====
-- Texts with neither spaces nor the separator of a list.
use Prim.Native.Char.{Char, code}
use Prim.Native.Nat.{ℕ, zero, suc, ◌/◌, ◌%◌}
use Prim.Native.String.{String, ◌++◌}
use mathlib.Core.Path.{◌≡◌, refl}
use mathlib.Core.Bool.{Bool, true, false, not, ◌||◌}
use mathlib.Core.List.{List, [], ◌∷◌}
use native.Mathlib.Omega.{arith}
use text.Mathlib.TextLemmas.{cons-append, nil-append}
use go_notes_api.Base.Tests.{◌==◌, eq_of_nat}
use go_notes_api.Base.Text.{is_space, digit, hex}

-- Neither a space nor the separator ','.
unfoldable pub is_plain : Char → Bool
unfolding is_space
is_plain c = not (is_space (code c) || code c == 44)

abbrev pub IsPlain : String → Type 0
IsPlain String.[] = Unit
IsPlain (String.◌∷◌ c s) = (is_plain c ≡ true) × IsPlain s

pub IsPlain-append : (s t : String) → IsPlain s → IsPlain t → IsPlain (s ++ t)
IsPlain-append String.[] t h k = rw (nil-append t) k
IsPlain-append (String.◌∷◌ c s) t (h, hs) k = rw (cons-append c s t) (h, IsPlain-append s t hs k)

IsPlain-digit : (d : ℕ) → IsPlain (digit d)
unfolding digit is_plain
IsPlain-digit zero = (refl, tt)
IsPlain-digit (suc zero) = (refl, tt)
IsPlain-digit (suc (suc zero)) = (refl, tt)
IsPlain-digit (suc (suc (suc zero))) = (refl, tt)
IsPlain-digit (suc (suc (suc (suc zero)))) = (refl, tt)
IsPlain-digit (suc (suc (suc (suc (suc zero))))) = (refl, tt)
IsPlain-digit (suc (suc (suc (suc (suc (suc zero)))))) = (refl, tt)
IsPlain-digit (suc (suc (suc (suc (suc (suc (suc zero))))))) = (refl, tt)
IsPlain-digit (suc (suc (suc (suc (suc (suc (suc (suc zero)))))))) = (refl, tt)
IsPlain-digit (suc (suc (suc (suc (suc (suc (suc (suc (suc zero))))))))) = (refl, tt)
IsPlain-digit (suc (suc (suc (suc (suc (suc (suc (suc (suc (suc zero)))))))))) = (refl, tt)
IsPlain-digit (suc (suc (suc (suc (suc (suc (suc (suc (suc (suc (suc zero))))))))))) = (refl, tt)
IsPlain-digit (suc (suc (suc (suc (suc (suc (suc (suc (suc (suc (suc (suc zero)))))))))))) =
    (refl, tt)
IsPlain-digit (suc (suc (suc (suc (suc (suc (suc (suc (suc (suc (suc (suc (suc zero))))))))))))) =
    (refl, tt)
IsPlain-digit
      (suc (suc (suc (suc (suc (suc (suc (suc (suc (suc (suc (suc (suc (suc zero)))))))))))))) =
    (refl, tt)
IsPlain-digit
      (suc (suc (suc (suc (suc (suc (suc (suc (suc (suc (suc (suc (suc (suc (suc d))))))))))))))) =
    (refl, tt)

pub IsPlain-hex : (bs : List ℕ) → IsPlain (hex bs)
unfolding hex
IsPlain-hex [] = tt
IsPlain-hex (b ∷ bs) =
    IsPlain-append (digit (b / 16 % 16)) _ (IsPlain-digit (b / 16 % 16))
      (IsPlain-append (digit (b % 16)) (hex bs) (IsPlain-digit (b % 16)) (IsPlain-hex bs))

module _ (c : Char) (plain : is_plain c ≡ true) where
  pub plain-space : is_space (code c) ≡ false
  unfolding is_plain
  plain-space = ground arith

  pub plain-comma : (code c == 44) ≡ false
  unfolding is_plain
  plain-comma = ground arith

-- A text before ':' and another.
pub IsPlain-colon : (s t : String) → IsPlain s → IsPlain t → IsPlain (s ++ (":" ++ t))
unfolding is_plain
IsPlain-colon s t h k = IsPlain-append s (":" ++ t) h (IsPlain-append ":" t (refl, tt) k)
