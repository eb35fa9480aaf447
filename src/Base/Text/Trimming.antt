-- ===== src/Base/Text/Trimming.antt =====
-- Texts that are trimmed.
use Prim.Native.Char.{Char, code}
use Prim.Native.String.{String, ◌++◌}
use mathlib.Core.Path.{◌≡◌, refl, sym, ◌∙◌, ap}
use mathlib.Core.Logic.{◌≢◌}
use mathlib.Core.Bool.{false}
use text.Mathlib.TextLemmas.{cons-append}
use go_notes_api.Base.Tests.{eq_of_nat}
use go_notes_api.Base.Text.{is_space, trim_left, trim_right, keep_unless_blank, trim_space}
use go_notes_api.Base.Text.Plain.{IsPlain, plain-space}

-- A text that begins with no space.
abbrev IsFlush : String → Type 0
IsFlush String.[] = Unit
IsFlush (String.◌∷◌ c s) = is_space (code c) ≡ false

trim_left-IsFlush : (s : String) → IsFlush s → trim_left s ≡ s
unfolding trim_left
trim_left-IsFlush String.[] h = refl
trim_left-IsFlush (String.◌∷◌ c s) h = rw h refl

keep : (c : Char) (s : String) → is_space (code c) ≡ false → keep_unless_blank c s ≡ String.◌∷◌ c s
unfolding keep_unless_blank
keep c String.[] h = rw h refl
keep c (String.◌∷◌ d s) h = refl

-- A line break after a plain text is trimmed.
trim_right-line : (s : String) → IsPlain s → trim_right (s ++ "\n") ≡ s
unfolding trim_right keep_unless_blank is_space
trim_right-line String.[] h = refl
trim_right-line (String.◌∷◌ c s) (h, hs) =
    ap trim_right (cons-append c s "\n")
    ∙ ap (keep_unless_blank c) (trim_right-line s hs)
    ∙ keep c s (plain-space c h)

trim_right-IsPlain : (s : String) → IsPlain s → trim_right s ≡ s
unfolding trim_right
trim_right-IsPlain String.[] h = refl
trim_right-IsPlain (String.◌∷◌ c s) (h, hs) =
    ap (keep_unless_blank c) (trim_right-IsPlain s hs) ∙ keep c s (plain-space c h)

IsPlain-IsFlush : (s : String) → IsPlain s → IsFlush s
IsPlain-IsFlush String.[] h = tt
IsPlain-IsFlush (String.◌∷◌ c s) (h, hs) = plain-space c h

pub trim_space-IsPlain : (s : String) → IsPlain s → trim_space s ≡ s
unfolding trim_space
trim_space-IsPlain s h =
    ap trim_right (trim_left-IsFlush s (IsPlain-IsFlush s h)) ∙ trim_right-IsPlain s h

pub trim_space-line : (s : String) → IsPlain s → s ≢ "" → trim_space (s ++ "\n") ≡ s
unfolding trim_space
trim_space-line String.[] h given = absurd (given refl)
trim_space-line (String.◌∷◌ c s) (h, hs) given =
    ap trim_right (
      ap trim_left (cons-append c s "\n")
      ∙ trim_left-IsFlush (String.◌∷◌ c (s ++ "\n")) (plain-space c h)
      ∙ sym (cons-append c s "\n"))
    ∙ trim_right-line (String.◌∷◌ c s) (h, hs)
