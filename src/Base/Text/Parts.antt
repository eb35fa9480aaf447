-- ===== src/Base/Text/Parts.antt =====
-- Texts that are split and cut.
use Prim.Native.Char.{Char, code}
use Prim.Native.Nat.{ℕ}
use Prim.Native.String.{String, ◌++◌}
use mathlib.Core.Path.{◌≡◌, refl, ◌∙◌, ap}
use mathlib.Core.Logic.{◌⊎◌, inl, inr}
use mathlib.Core.Bool.{false}
use mathlib.Core.Option.{none, some}
use mathlib.Core.List as L
use mathlib.Core.List.{List, [], ◌∷◌}
use text.Mathlib.TextLemmas.{cons-append, nil-append}
use go_notes_api.Base.Tests.{◌==◌, eq_of_nat, Bool-cases}
use go_notes_api.Base.Text.{cut, split, split_two, prepend}
use go_notes_api.Base.Text.Plain.{IsPlain, plain-comma}

-- A text without a code point.
abbrev pub Lacks : ℕ → String → Type 0
Lacks n String.[] = Unit
Lacks n (String.◌∷◌ c s) = ((code c == n) ≡ false) × Lacks n s

pub Lacks-append : (n : ℕ) (s t : String) → Lacks n s → Lacks n t → Lacks n (s ++ t)
Lacks-append n String.[] t h k = rw (nil-append t) k
Lacks-append n (String.◌∷◌ c s) t (h, hs) k = rw (cons-append c s t) (h, Lacks-append n s t hs k)

pub IsPlain-Lacks : (s : String) → IsPlain s → Lacks 44 s
IsPlain-Lacks String.[] h = tt
IsPlain-Lacks (String.◌∷◌ c s) (h, hs) = (plain-comma c h, IsPlain-Lacks s hs)

-- strings.Split at a separator that only one text brings.
split-Lacks : (s : String) → Lacks 44 s → split 44 s ≡ s ∷ []
unfolding split prepend
split-Lacks String.[] h = refl
split-Lacks (String.◌∷◌ c s) (h, hs) = rw (h, split-Lacks s hs) refl

pub split-ne-nil : (s : String) → (p : String) × (ps : List String) × (split 44 s ≡ p ∷ ps)
unfolding split prepend
split-ne-nil String.[] = ("", [], refl)
split-ne-nil (String.◌∷◌ d s) =
    let (p, ps, e) = split-ne-nil s in
    elim (Bool-cases (code d == 44)) [
      | inl comma ↦ ("", split 44 s, rw comma refl)
      | inr other ↦ (String.◌∷◌ d p, ps, rw (other, e) refl)
    ]

prepend-append :
    (c : Char) (s : String) (ps : List String)
    → prepend c (L.◌++◌ (split 44 s) ps) ≡ L.◌++◌ (prepend c (split 44 s)) ps
unfolding prepend
prepend-append c s ps = let (p, qs, e) = split-ne-nil s in rw e refl

split-comma : (t : String) → split 44 ("," ++ t) ≡ "" ∷ split 44 t
unfolding split
split-comma t = rw (cons-append "," "" t) (ap (λ (u : String). "" ∷ split 44 u) (nil-append t))

-- strings.Split of a text with one more part.
pub split-append :
    (s t : String) → Lacks 44 t → split 44 (s ++ ("," ++ t)) ≡ L.◌++◌ (split 44 s) (t ∷ [])
unfolding split
split-append String.[] t h =
    ap (split 44) (nil-append ("," ++ t))
    ∙ split-comma t
    ∙ ap (λ (ps : List String). "" ∷ ps) (split-Lacks t h)
split-append (String.◌∷◌ d s) t h =
    ap (split 44) (cons-append d s ("," ++ t)) ∙ elim (Bool-cases (code d == 44)) [
      | inl comma ↦ rw comma (ap (λ (ps : List String). "" ∷ ps) (split-append s t h))
      | inr other ↦ rw other (ap (prepend d) (split-append s t h) ∙ prepend-append d s (t ∷ []))
    ]

-- strings.Cut at the ':' behind a text without one.
pub cut-colon : (s t : String) → Lacks 58 s → cut 58 (s ++ (":" ++ t)) ≡ some (s, t)
unfolding cut
cut-colon String.[] t h =
    ap (cut 58) (nil-append (":" ++ t) ∙ cons-append ":" "" t)
    ∙ ap (λ (u : String). some ("", u)) (nil-append t)
cut-colon (String.◌∷◌ c s) t (h, hs) =
    ap (cut 58) (cons-append c s (":" ++ t)) ∙ rw (h, cut-colon s t hs) refl

-- strings.SplitN at the first separator, or there is none.
pub split_two-cut :
    (n : ℕ) (s : String)
    → ((split_two n s ≡ s ∷ []) × (cut n s ≡ none))
      ⊎ ((a b : String) × (split_two n s ≡ a ∷ b ∷ []) × (cut n s ≡ some (a, b)))
unfolding split_two cut prepend
split_two-cut n String.[] = inl (refl, refl)
split_two-cut n (String.◌∷◌ c s) = elim (Bool-cases (code c == n)) [
  | inl hit ↦ inr ("", s, rw hit refl, rw hit refl)
  | inr miss ↦ elim (split_two-cut n s) [
    | inl (whole, none_left) ↦ inl (rw (miss, whole) refl, rw (miss, none_left) refl)
    | inr (a, b, two, found) ↦ inr (String.◌∷◌ c a, b, rw (miss, two) refl, rw (miss, found) refl)
  ]
]
