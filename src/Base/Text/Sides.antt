-- ===== src/Base/Text/Sides.antt =====
-- The space around a text, and around its parts between commas.
use Prim.Native.Char.{Char, code}
use Prim.Native.String.{String}
use mathlib.Core.Path.{◌≡◌, refl, ◌∙◌, ap, sym}
use mathlib.Core.Logic.{inl, inr}
use mathlib.Core.Bool.{true, false}
use mathlib.Core.List.{List, [], ◌∷◌, map}
use native.Mathlib.Omega.{arith}
use go_notes_api.Base.Tests.{◌==◌, eq_of_nat, Bool-cases}
use go_notes_api.Base.Text.{
  is_space, trim_left, trim_right, keep_unless_blank, trim_space, split, prepend,
}
use go_notes_api.Base.Text.Parts.{split-ne-nil}

-- A space is no separator.
space-comma : (c : Char) → is_space (code c) ≡ true → (code c == 44) ≡ false
unfolding is_space
space-comma c h = ground arith

split-trim_left :
    (s : String) → map trim_space (split 44 (trim_left s)) ≡ map trim_space (split 44 s)
unfolding trim_left trim_space split prepend
split-trim_left String.[] = refl
split-trim_left (String.◌∷◌ c s) = elim (Bool-cases (is_space (code c))) [
  | inr other ↦ rw other refl
  | inl space ↦
      let (p, ps, e) = split-ne-nil s in
      rw space (split-trim_left s ∙ rw (space-comma c space, e, space) refl)
]

abbrev on_head : Char → List String → List String
on_head c [] = []
on_head c (p ∷ ps) = keep_unless_blank c p ∷ ps

map-prepend :
    (c : Char) (s : String)
    → map trim_right (prepend c (split 44 s)) ≡ on_head c (map trim_right (split 44 s))
unfolding prepend trim_right
map-prepend c s = let (p, ps, e) = split-ne-nil s in rw e refl

keep-other :
    (c : Char) (t : String) → is_space (code c) ≡ false → keep_unless_blank c t ≡ String.◌∷◌ c t
unfolding keep_unless_blank
keep-other c String.[] h = rw h refl
keep-other c (String.◌∷◌ d t) h = refl

comma-space : (c : Char) → (code c == 44) ≡ true → is_space (code c) ≡ false
unfolding is_space
comma-space c h = ground arith

split-comma :
    (c : Char) (s : String) → (code c == 44) ≡ true → split 44 (String.◌∷◌ c s) ≡ "" ∷ split 44 s
unfolding split
split-comma c s h = rw h refl

split-other :
    (c : Char) (s : String)
    → (code c == 44) ≡ false
    → split 44 (String.◌∷◌ c s) ≡ prepend c (split 44 s)
unfolding split
split-other c s h = rw h refl

-- A character before a text that is trimmed on the right.
split-keep :
    (c : Char) (t : String)
    → (code c == 44) ≡ false
    → map trim_right (split 44 (keep_unless_blank c t)) ≡ on_head c (map trim_right (split 44 t))
unfolding keep_unless_blank split trim_right prepend
split-keep c (String.◌∷◌ d t) other =
    ap (map trim_right) (split-other c (String.◌∷◌ d t) other) ∙ map-prepend c (String.◌∷◌ d t)
split-keep c String.[] other = elim (Bool-cases (is_space (code c))) [
  | inl space ↦ rw space refl
  | inr solid ↦ rw solid (rw other (rw solid refl))
]

-- Parts that are trimmed on the right are those of the trimmed text.
split-trim_right :
    (s : String) → map trim_right (split 44 (trim_right s)) ≡ map trim_right (split 44 s)
unfolding trim_right
split-trim_right String.[] = refl
split-trim_right (String.◌∷◌ c s) = elim (Bool-cases (code c == 44)) [
  | inl comma ↦
      ap (λ (t : String). map trim_right (split 44 t))
        (keep-other c (trim_right s) (comma-space c comma))
      ∙ ap (map trim_right) (split-comma c (trim_right s) comma)
      ∙ ap (λ (l : List String). "" ∷ l) (split-trim_right s)
      ∙ sym (ap (map trim_right) (split-comma c s comma))
  | inr other ↦
      split-keep c (trim_right s) other
      ∙ ap (on_head c) (split-trim_right s)
      ∙ sym (map-prepend c s)
      ∙ sym (ap (map trim_right) (split-other c s other))
]

dropped :
    (c : Char) (t : String)
    → is_space (code c) ≡ true
    → trim_left t ≡ trim_left (keep_unless_blank c t)
unfolding trim_left keep_unless_blank
dropped c String.[] h = rw h refl
dropped c (String.◌∷◌ d t) h = rw h refl

stays :
    (c : Char) (t : String)
    → is_space (code c) ≡ false
    → trim_left (String.◌∷◌ c t) ≡ String.◌∷◌ c t
unfolding trim_left
stays c t h = rw h refl

-- Trimming on one side and then on the other.
trim-commutes : (s : String) → trim_right (trim_left s) ≡ trim_left (trim_right s)
unfolding trim_right trim_left
trim-commutes String.[] = refl
trim-commutes (String.◌∷◌ c s) = elim (Bool-cases (is_space (code c))) [
  | inl space ↦ rw space (trim-commutes s ∙ dropped c (trim_right s) space)
  | inr solid ↦ rw solid (
      keep-other c (trim_right s) solid
      ∙ sym (ap trim_left (keep-other c (trim_right s) solid) ∙ stays c (trim_right s) solid))
]

map-trim_space :
    (ps qs : List String)
    → map trim_right ps ≡ map trim_right qs
    → map trim_space ps ≡ map trim_space qs
unfolding trim_space
map-trim_space [] [] e = refl
map-trim_space [] (q ∷ qs) e = cc
map-trim_space (p ∷ ps) [] e = cc
map-trim_space (p ∷ ps) (q ∷ qs) e =
    let here : trim_right p ≡ trim_right q = cc in
    let neat : trim_space p ≡ trim_space q =
      trim-commutes p ∙ ap trim_left here ∙ sym (trim-commutes q) in
    let rest = map-trim_space ps qs cc in cc

-- The trimmed parts of a text do not depend on the space around it.
pub split-trim_space :
    (s : String) → map trim_space (split 44 (trim_space s)) ≡ map trim_space (split 44 s)
unfolding trim_space
split-trim_space s = map-trim_space _ _ (split-trim_right (trim_left s)) ∙ split-trim_left s
