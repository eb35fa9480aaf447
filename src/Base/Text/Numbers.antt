-- ===== src/Base/Text/Numbers.antt =====
-- Numbers printed by FormatInt and read by ParseInt.
use Prim.Native.Char.{Char, code}
use Prim.Native.Nat.{ℕ, zero, suc, ◌+◌, ◌-◌, ◌*◌, ◌/◌, ◌%◌, ◌^◌, ◌<◌, ◌≤◌}
use Prim.Native.String.{String, ◌++◌}
use mathlib.Core.Path.{◌≡◌, refl, sym, ◌∙◌, ap}
use mathlib.Core.Logic.{inl, inr}
use mathlib.Core.Bool.{true}
use native.Mathlib.Omega.{arith}
use text.Mathlib.TextLemmas.{cons-append, nil-append}
use go_notes_api.Base.Tests.{ltb, leb, eq_of_nat, Bool-cases}
use go_notes_api.Base.Int.{ℤ, pos, negsuc, two63, two64}
use go_notes_api.Base.Text.{
  digit, digits, scan, unsigned, positive, negative, value, number, format_int, parse_int,
}

one : (c : Char) (out : String) → (String.◌∷◌ c "") ++ out ≡ String.◌∷◌ c out
one c out = cons-append c "" out ∙ ap (String.◌∷◌ c) (nil-append out)

-- A digit is one code point.
digit-cons :
    (d : ℕ) (out : String)
    → d < 10
    → (c : Char) × (digit d ++ out ≡ String.◌∷◌ c out) × (code c ≡ 48 + d)
unfolding digit
digit-cons zero out h = ("0", one "0" out, refl)
digit-cons (suc zero) out h = ("1", one "1" out, refl)
digit-cons (suc (suc zero)) out h = ("2", one "2" out, refl)
digit-cons (suc (suc (suc zero))) out h = ("3", one "3" out, refl)
digit-cons (suc (suc (suc (suc zero)))) out h = ("4", one "4" out, refl)
digit-cons (suc (suc (suc (suc (suc zero))))) out h = ("5", one "5" out, refl)
digit-cons (suc (suc (suc (suc (suc (suc zero)))))) out h = ("6", one "6" out, refl)
digit-cons (suc (suc (suc (suc (suc (suc (suc zero))))))) out h = ("7", one "7" out, refl)
digit-cons (suc (suc (suc (suc (suc (suc (suc (suc zero)))))))) out h = ("8", one "8" out, refl)
digit-cons (suc (suc (suc (suc (suc (suc (suc (suc (suc zero))))))))) out h =
    ("9", one "9" out, refl)
digit-cons (suc (suc (suc (suc (suc (suc (suc (suc (suc (suc d)))))))))) out h =
    absurd (omega arith)

-- A round of the scan over a digit.
scan-digit :
    (m d : ℕ) (out : String)
    → d < 10
    → m * 10 + d < two64
    → scan m (digit d ++ out) ≡ scan (m * 10 + d) out
unfolding scan
scan-digit m d out h k =
    let (c, spelt, coded) = digit-cons d out h in
    rw (spelt, coded)
      (let low : leb b'0' (48 + d) ≡ true = ground arith in
        let high : leb (48 + d) b'9' ≡ true = ground arith in
        let fits : ltb (m * 10 + (48 + d - b'0')) two64 ≡ true = ground arith in
        rw (low, high, fits) (ap (λ (n : ℕ). scan n out) (omega arith)))

-- With enough rounds the digits are read back, whatever follows them.
scan-digits :
    (fuel n : ℕ) (out : String)
    → n < 10 ^ fuel
    → n < two64
    → scan 0 (digits fuel n out) ≡ scan n out
unfolding digits
scan-digits zero n out h k = let none_left : n ≡ 0 = omega arith in rw none_left refl
scan-digits (suc fuel) n out h k = elim (Bool-cases (ltb n 10)) [
  | inl last ↦
      rw last (
        scan-digit 0 n out (ground arith) (ground arith) ∙ ap (λ (m : ℕ). scan m out) (omega arith))
  | inr more ↦ rw more (
      scan-digits fuel (n / 10) (digit (n % 10) ++ out) (omega arith) (omega arith)
      ∙ scan-digit (n / 10) (n % 10) out (omega arith) (omega arith)
      ∙ ap (λ (m : ℕ). scan m out) (omega arith))
]

-- The digits of a number are a text that begins with a digit.
digits-cons :
    (fuel n : ℕ) (out : String)
    → n < 10 ^ suc fuel
    → (c : Char) × (s : String) × (digits (suc fuel) n out ≡ String.◌∷◌ c s) × (48 ≤ code c)
unfolding digits
digits-cons zero n out h =
    let (c, spelt, coded) = digit-cons n out (omega arith) in
    let last : ltb n 10 ≡ true = ground arith in (c, out, rw last spelt, omega arith)
digits-cons (suc fuel) n out h = elim (Bool-cases (ltb n 10)) [
  | inl last ↦
      let (c, spelt, coded) = digit-cons n out (ground arith) in
      (c, out, rw last spelt, omega arith)
  | inr more ↦
      let (c, s, spelt, coded) = digits-cons fuel (n / 10) (digit (n % 10) ++ out) (omega arith) in
      (c, s, rw more spelt, coded)
]

unsigned-cons : (c : Char) (s : String) → unsigned (String.◌∷◌ c s) ≡ scan 0 (String.◌∷◌ c s)
unfolding unsigned
unsigned-cons c s = refl

unsigned-digits : (n : ℕ) → n < two64 → unsigned (digits 20 n "") ≡ value n
unfolding scan
unsigned-digits n h =
    let (c, s, spelt, coded) = digits-cons 19 n "" (omega arith) in
    ap unsigned spelt
    ∙ unsigned-cons c s
    ∙ ap (scan 0) (sym spelt)
    ∙ scan-digits 20 n "" (omega arith) h

-- A text that begins with a digit has no sign.
parse_int-cons :
    (c : Char) (s : String)
    → 48 ≤ code c
    → parse_int (String.◌∷◌ c s) ≡ positive (unsigned (String.◌∷◌ c s))
unfolding parse_int
parse_int-cons c s h = ground arith

parse_int-sign : (s : String) → parse_int ("-" ++ s) ≡ negative (unsigned s)
unfolding parse_int
parse_int-sign s = rw (one "-" s) refl

-- A 64-bit number is read back as it was printed.
abbrev pub IsWord : ℤ → Type 0
IsWord (pos n) = n < two63
IsWord (negsuc n) = n < two63

pub parse_int-format_int : (a : ℤ) → IsWord a → parse_int (format_int a) ≡ number a
unfolding format_int positive negative
parse_int-format_int (pos n) h =
    let (c, s, spelt, coded) = digits-cons 19 n "" (omega arith) in
    ap parse_int spelt
    ∙ parse_int-cons c s coded
    ∙ ap (λ (t : String). positive (unsigned t)) (sym spelt)
    ∙ ap positive (unsigned-digits n (omega arith))
    ∙ ground arith
parse_int-format_int (negsuc n) h =
    parse_int-sign (digits 20 (suc n) "")
    ∙ ap negative (unsigned-digits (suc n) (omega arith))
    ∙ ground arith
