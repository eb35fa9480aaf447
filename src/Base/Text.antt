-- ===== src/Base/Text.antt =====
-- What the program uses of Go's `strings`, `strconv` and `encoding/hex`, over texts of code points.
pub mod Plain
pub mod Trimming
pub mod Parts
pub mod Sides
pub mod Numbers
use Prim.Native.Char.{Char, code}
use Prim.Native.Nat.{ℕ, zero, suc, ◌+◌, ◌-◌, ◌*◌, ◌/◌, ◌%◌}
use Prim.Native.String.{String, ◌++◌}
use mathlib.Core.Path.{◌≡◌, refl}
use mathlib.Core.Bool.{Bool, ◌&&◌, ◌||◌}
use mathlib.Core.Option.{Option, none, some}
use mathlib.Core.List
use mathlib.Core.List.{List, [], ◌∷◌}
use go_notes_api.Base.Tests.{ltb, leb, ◌==◌, eq_of_nat, if◌then◌else◌}
use go_notes_api.Base.Int.{ℤ, pos, negsuc, two63, two64}

-- unicode.IsSpace
unfoldable pub is_space : ℕ → Bool
is_space c =
    (leb 9 c && leb c 13)
    || c == 32
    || c == 133
    || c == 160
    || c == 5760
    || (leb 8192 c && leb c 8202)
    || c == 8232
    || c == 8233
    || c == 8239
    || c == 8287
    || c == 12288

trim_left : String → String
trim_left String.[] = ""
trim_left (String.◌∷◌ c s) =
    let rest = trim_left s in if is_space (code c) then rest else String.◌∷◌ c s

-- A space is dropped if what follows it is dropped to nothing.
keep_unless_blank : Char → String → String
keep_unless_blank c String.[] = if is_space (code c) then "" else String.◌∷◌ c ""
keep_unless_blank c (String.◌∷◌ d s) = String.◌∷◌ c (String.◌∷◌ d s)

trim_right : String → String
trim_right String.[] = ""
trim_right (String.◌∷◌ c s) = keep_unless_blank c (trim_right s)

-- strings.TrimSpace
unfoldable pub trim_space : String → String
unfolding trim_left trim_right keep_unless_blank is_space
trim_space s = trim_right (trim_left s)

-- strings.HasPrefix with strings.TrimPrefix: what follows the prefix, if the text begins with it.
unfoldable pub after_prefix : String → String → Option String
after_prefix String.[] s = some s
after_prefix (String.◌∷◌ c p) String.[] = none
after_prefix (String.◌∷◌ c p) (String.◌∷◌ d s) = if code c == code d then after_prefix p s else none

-- The number of code points, which is what MySQL counts for VARCHAR.
unfoldable pub char_length : String → ℕ
char_length String.[] = 0
char_length (String.◌∷◌ c s) = suc (char_length s)

-- The text before the first code point `c`: `strings.Split(s, sep)[0]` and the head of `Cut`.
unfoldable pub before_char : ℕ → String → String
before_char c String.[] = ""
before_char c (String.◌∷◌ d s) = if code d == c then "" else String.◌∷◌ d (before_char c s)

-- strings.Cut(s, sep) and strings.SplitN(s, sep, 2): what stands before the first code point `c`, and
-- what follows it; none if there is no `c`.
unfoldable pub cut : ℕ → String → Option (String × String)
cut c String.[] = none
cut c (String.◌∷◌ d s) =
    let rest = cut c s in
    if code d == c
    then some ("", s)
    else elim rest [ none ↦ none | some (before, after) ↦ some (String.◌∷◌ d before, after) ]

prepend : Char → List String → List String
prepend d [] = String.◌∷◌ d "" ∷ []
prepend d (p ∷ ps) = String.◌∷◌ d p ∷ ps

-- strings.SplitN(s, sep, 2)
unfoldable pub split_two : ℕ → String → List String
unfolding prepend
split_two c String.[] = "" ∷ []
split_two c (String.◌∷◌ d s) =
    let rest = split_two c s in if code d == c then "" ∷ s ∷ [] else prepend d rest

-- strings.Split(s, sep)
unfoldable pub split : ℕ → String → List String
unfolding prepend
split c String.[] = "" ∷ []
split c (String.◌∷◌ d s) = let rest = split c s in if code d == c then "" ∷ rest else prepend d rest

digit : ℕ → String
digit zero = "0"
digit (suc zero) = "1"
digit (suc (suc zero)) = "2"
digit (suc (suc (suc zero))) = "3"
digit (suc (suc (suc (suc zero)))) = "4"
digit (suc (suc (suc (suc (suc zero))))) = "5"
digit (suc (suc (suc (suc (suc (suc zero)))))) = "6"
digit (suc (suc (suc (suc (suc (suc (suc zero))))))) = "7"
digit (suc (suc (suc (suc (suc (suc (suc (suc zero)))))))) = "8"
digit (suc (suc (suc (suc (suc (suc (suc (suc (suc zero))))))))) = "9"
digit (suc (suc (suc (suc (suc (suc (suc (suc (suc (suc zero)))))))))) = "a"
digit (suc (suc (suc (suc (suc (suc (suc (suc (suc (suc (suc zero))))))))))) = "b"
digit (suc (suc (suc (suc (suc (suc (suc (suc (suc (suc (suc (suc zero)))))))))))) = "c"
digit (suc (suc (suc (suc (suc (suc (suc (suc (suc (suc (suc (suc (suc zero))))))))))))) = "d"
digit (suc (suc (suc (suc (suc (suc (suc (suc (suc (suc (suc (suc (suc (suc zero)))))))))))))) = "e"
digit _ = "f"

-- The digits of `n` before `out`; each round divides `n` by ten. Twenty rounds are enough for the
-- 64-bit numbers of the program.
digits : ℕ → ℕ → String → String
digits zero n out = out
digits (suc fuel) n out =
    let more = digits fuel (n / 10) (digit (n % 10) ++ out) in
    if ltb n 10 then digit n ++ out else more

-- strconv.FormatInt(a, 10), and `%d`
unfoldable pub format_int : ℤ → String
unfolding digits digit
format_int (pos n) = digits 20 n ""
format_int (negsuc n) = "-" ++ digits 20 (suc n) ""

-- hex.EncodeToString
unfoldable pub hex : List ℕ → String
unfolding digit
hex [] = ""
hex (b ∷ bs) = digit (b / 16 % 16) ++ (digit (b % 16) ++ hex bs)

-- `%08x` of a 32-bit number
unfoldable pub hex32 : ℕ → String
hex32 n = hex ((n / 16777216 % 256) ∷ (n / 65536 % 256) ∷ (n / 256 % 256) ∷ (n % 256) ∷ [])

-- []byte(s): the bytes of a code point, and of a text, in UTF-8
utf8_char : ℕ → List ℕ
utf8_char c =
    if ltb c 128
    then c ∷ []
    else if ltb c 2048
    then (192 + c / 64) ∷ (128 + c % 64) ∷ []
    else if ltb c 65536
    then (224 + c / 4096) ∷ (128 + c / 64 % 64) ∷ (128 + c % 64) ∷ []
    else (240 + c / 262144) ∷ (128 + c / 4096 % 64) ∷ (128 + c / 64 % 64) ∷ (128 + c % 64) ∷ []

unfoldable pub utf8 : String → List ℕ
unfolding utf8_char
utf8 String.[] = []
utf8 (String.◌∷◌ c s) = List.◌++◌ (utf8_char (code c)) (utf8 s)

-- strconv.ParseUint(s, 10, 64): a number, no number, or one past 2^64 - 1. The scan stops at the
-- first digit that passes the bound.
pub data Unsigned : Type 0 where
  value : ℕ → Unsigned
  invalid too_large : Unsigned

scan : ℕ → String → Unsigned
scan n String.[] = value n
scan n (String.◌∷◌ c s) =
    let n' = n * 10 + (code c - b'0') in
    let rest = scan n' s in
    if leb b'0' (code c) && leb (code c) b'9'
    then (if ltb n' two64 then rest else too_large)
    else invalid

unsigned : String → Unsigned
unfolding scan
unsigned String.[] = invalid
unsigned (String.◌∷◌ c s) = scan 0 (String.◌∷◌ c s)

-- What `strconv.ParseInt` and `Atoi` make of a text: a number, a syntax error (with the value 0),
-- or a number out of range (with the nearest one that fits).
pub data Parsed : Type 0 where
  number : ℤ → Parsed
  bad_syntax : Parsed
  out_of_range : ℤ → Parsed

positive : Unsigned → Parsed
positive invalid = bad_syntax
positive too_large = out_of_range (pos (two63 - 1))
positive (value n) = if ltb n two63 then number (pos n) else out_of_range (pos (two63 - 1))

negative : Unsigned → Parsed
negative invalid = bad_syntax
negative too_large = out_of_range (negsuc (two63 - 1))
negative (value zero) = number (pos 0)
negative (value (suc n)) =
    if ltb n two63 then number (negsuc n) else out_of_range (negsuc (two63 - 1))

-- strconv.ParseInt(s, 10, 64), and Atoi, with a 64-bit `int`
unfoldable pub parse_int : String → Parsed
unfolding positive negative unsigned
parse_int String.[] = bad_syntax
parse_int (String.◌∷◌ c s) =
    if code c == b'-'
    then negative (unsigned s)
    else if code c == b'+'
    then positive (unsigned s)
    else positive (unsigned (String.◌∷◌ c s))

-- `n, _ := strconv.Atoi(s)`
abbrev pub value_of : Parsed → ℤ
value_of (number a) = a
value_of bad_syntax = pos 0
value_of (out_of_range a) = a

text_tests :
    (trim_space "  a b \n" ≡ "a b")
    × (after_prefix "Bearer " "Bearer xyz" ≡ some "xyz")
    × (after_prefix "Bearer " "bearer xyz" ≡ none)
    × (before_char b',' "1.2.3.4, 5" ≡ "1.2.3.4")
    × (format_int (negsuc 41) ≡ "-42")
    × (hex (255 ∷ 10 ∷ []) ≡ "ff0a")
unfolding trim_space after_prefix before_char format_int hex
text_tests = (refl, refl, refl, refl, refl, refl)

parse_tests :
    (parse_int "-12" ≡ number (negsuc 11))
    × (parse_int "" ≡ bad_syntax)
    × (parse_int "1x" ≡ bad_syntax)
    × (parse_int "-9223372036854775808" ≡ number (negsuc 9223372036854775807))
    × (parse_int "9223372036854775808" ≡ out_of_range (pos 9223372036854775807))
    × (parse_int "99999999999999999999x" ≡ out_of_range (pos 9223372036854775807))
unfolding parse_int
parse_tests = (refl, refl, refl, refl, refl, refl)
