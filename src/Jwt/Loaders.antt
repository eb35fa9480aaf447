-- ===== src/Jwt/Loaders.antt =====
-- internal/jwtauth: when the two loaders answer the same keys.
use go_notes_api.Base.{
  ◌≡◌, ◌≢◌, ◌∙◌, ap, refl, sym, ◌↔◌, ◌⊎◌, inl, inr, List, [], ◌∷◌, map, String, none, some,
  eq_of_text, eq_iff, arith, ◌==◌, if◌then◌else◌, Bool-cases,
}
use go_notes_api.Base.Text.{trim_space, split, split_two, cut}
use go_notes_api.Base.Text.Parts.{split_two-cut}
use go_notes_api.Base.Text.Sides.{split-trim_space}
use go_notes_api.Jwt.Keys.{
  KeySet, AnyOf, load_parts, with_pair, env_parts, settled, env_settled, load, load_from_env,
}

with_pair_lem :
    (p : String) (set : KeySet)
    → with_pair (split_two 58 p) set ≡ elim (cut 58 p) [ none ↦ set | some entry ↦ entry ∷ set ]
unfolding with_pair
with_pair_lem p set = elim (split_two-cut 58 p) [
  | inl (whole, absent) ↦ rw (whole, absent) refl
  | inr (a, b, two, found) ↦ rw (two, found) refl
]

-- The two loops read the same entries.
pub env_parts-load_parts : (ps : List String) (set : KeySet) → env_parts ps set ≡ load_parts ps set
unfolding env_parts load_parts
env_parts-load_parts [] set = refl
env_parts-load_parts (p ∷ ps) set =
    ap (env_parts ps) (with_pair_lem (trim_space p) set) ∙ env_parts-load_parts ps _

load_parts-map :
    (ps qs : List String) (set : KeySet)
    → map trim_space ps ≡ map trim_space qs
    → load_parts ps set ≡ load_parts qs set
unfolding load_parts
load_parts-map [] [] set e = refl
load_parts-map [] (q ∷ qs) set e = cc
load_parts-map (p ∷ ps) [] set e = cc
load_parts-map (p ∷ ps) (q ∷ qs) set e =
    let here : trim_space p ≡ trim_space q = cc in rw here (load_parts-map ps qs _ cc)

-- The entries of JWT_KEYS, as either loader reads them.
abbrev pub entries : String → KeySet
entries raw = load_parts (split 44 raw) []

pub entries-trim_space : (raw : String) → entries (trim_space raw) ≡ entries raw
entries-trim_space raw =
    load_parts-map (split 44 (trim_space raw)) (split 44 raw) [] (split-trim_space raw)

pub entries-env_parts : (raw : String) → env_parts (split 44 (trim_space raw)) [] ≡ entries raw
entries-env_parts raw = env_parts-load_parts (split 44 (trim_space raw)) [] ∙ entries-trim_space raw

-- An empty text has no entries.
entries-nil : entries "" ≡ []
unfolding load_parts split trim_space cut
entries-nil = refl

read_entries :
    (raw : String) → (if raw == "" then [] else load_parts (split 44 raw) []) ≡ entries raw
read_entries raw = elim (Bool-cases (raw == "")) [
  | inl blank ↦ rw blank (sym (ap entries ((eq_iff raw "").0 blank) ∙ entries-nil))
  | inr given ↦ rw given refl
]

env_entries :
    (raw : String)
    → (if trim_space raw == "" then [] else env_parts (split 44 (trim_space raw)) []) ≡ entries raw
env_entries raw = elim (Bool-cases (trim_space raw == "")) [
  | inl blank ↦ rw blank (
      sym (
        sym (entries-trim_space raw)
        ∙ ap entries ((eq_iff (trim_space raw) "").0 blank)
        ∙ entries-nil))
  | inr given ↦ rw given (entries-env_parts raw)
]

pub load_from_env-entries :
    (getenv : String → String)
    → load_from_env getenv
      ≡ env_settled
          (trim_space (getenv "JWT_CURRENT_KID"))
          (getenv "JWT_SECRET")
          (entries (getenv "JWT_KEYS"))
unfolding load_from_env
load_from_env-entries getenv =
    ap (env_settled (trim_space (getenv "JWT_CURRENT_KID")) (getenv "JWT_SECRET"))
      (env_entries (getenv "JWT_KEYS"))

module _ (any_of : AnyOf) (getenv : String → String) where
  pub load-entries :
      load any_of getenv
      ≡ settled any_of
          (getenv "JWT_CURRENT_KID")
          (getenv "JWT_SECRET")
          (entries (getenv "JWT_KEYS"))
  unfolding load
  load-entries =
      ap (settled any_of (getenv "JWT_CURRENT_KID") (getenv "JWT_SECRET"))
        (read_entries (getenv "JWT_KEYS"))

  -- JWT_KEYS holds a key, or JWT_SECRET stands in for one under the kid that Load falls back to.
  abbrev pub IsShared : Type 0
  IsShared =
      (entries (getenv "JWT_KEYS") ≢ [])
      ⊎ ((getenv "JWT_CURRENT_KID" ≡ "default") × (getenv "JWT_SECRET" ≢ ""))

  module _ (neat : trim_space (getenv "JWT_CURRENT_KID") ≡ getenv "JWT_CURRENT_KID")
      (named : getenv "JWT_CURRENT_KID" ≢ "") where
    agreeing :
        (read : KeySet)
        → entries (getenv "JWT_KEYS") ≡ read
        → (load any_of getenv ≡ load_from_env getenv) ↔ IsShared
    unfolding settled env_settled
    agreeing [] e =
        let loaded = ap (settled any_of (getenv "JWT_CURRENT_KID") (getenv "JWT_SECRET")) e in
        let provided =
          ap (env_settled (trim_space (getenv "JWT_CURRENT_KID")) (getenv "JWT_SECRET")) e in
        let unnamed = eq_iff (getenv "JWT_CURRENT_KID") "" in
        let unset = eq_iff (getenv "JWT_SECRET") "" in
        (
          ground (arith, load-entries, load_from_env-entries getenv, unnamed, unset),
          ground (arith, load-entries, load_from_env-entries getenv, unnamed, unset),
        )
    agreeing (k ∷ ks) e =
        let loaded = ap (settled any_of (getenv "JWT_CURRENT_KID") (getenv "JWT_SECRET")) e in
        let provided =
          ap (env_settled (trim_space (getenv "JWT_CURRENT_KID")) (getenv "JWT_SECRET")) e in
        let unnamed = eq_iff (getenv "JWT_CURRENT_KID") "" in
        (
          λ same. inl (λ nothing. ground arith),
          λ shared. ground (arith, load-entries, load_from_env-entries getenv, unnamed),
        )

  -- If JWT_CURRENT_KID is set with no space around it, both loaders answer the same keys exactly if
  -- JWT_KEYS holds a key, or JWT_CURRENT_KID is "default" and JWT_SECRET is not empty.
  pub load-load_from_env :
      trim_space (getenv "JWT_CURRENT_KID") ≡ getenv "JWT_CURRENT_KID"
      → getenv "JWT_CURRENT_KID" ≢ ""
      → (load any_of getenv ≡ load_from_env getenv) ↔ IsShared
  load-load_from_env neat named = agreeing neat named (entries (getenv "JWT_KEYS")) refl
