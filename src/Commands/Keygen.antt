-- ===== src/Commands/Keygen.antt =====
-- cmd/jwtkeygen/main.go: a new key for JWT_KEYS.
use Prim.Native.String.{◌++◌}
use text.Mathlib.TextLemmas.{append_assoc, append-eq-nil_iff}
use go_notes_api.Base.{
  ◌≡◌, ◌≢◌, ◌∙◌, refl, sym, ap, none, some, ◌⊎◌, inl, inr, ℕ, String, List, [], ◌∷◌, eq_of_text,
  eq_iff, arith,
}
use mathlib.Core.List as L
use go_notes_api.Base.Text.{hex, trim_space, split, cut}
use go_notes_api.Base.Text.Plain.{IsPlain, IsPlain-hex, IsPlain-colon}
use go_notes_api.Base.Text.Trimming.{trim_space-IsPlain, trim_space-line}
use go_notes_api.Base.Text.Parts.{Lacks, Lacks-append, IsPlain-Lacks, split-append, cut-colon}
use go_notes_api.Jwt.Keys.{
  KeySet, Keys, AnyOf, lookup, load_parts, settled, env_settled, load, load_from_env,
  signing_secret,
}
use go_notes_api.Jwt.Loaders.{entries, load-entries, load_from_env-entries}

-- main: what it prints for os.Args and the 32 bytes of rand.Read
unfoldable pub keygen : List String → List ℕ → String
keygen (name ∷ kid ∷ more) b = kid ++ (":" ++ (hex b ++ "\n"))
keygen _ b = "kullanım: jwtkeygen <kid>\n"

load_parts-append :
    (ps qs : List String) (set : KeySet)
    → load_parts (L.◌++◌ ps qs) set ≡ load_parts qs (load_parts ps set)
unfolding load_parts
load_parts-append [] qs set = refl
load_parts-append (p ∷ ps) qs set = load_parts-append ps qs _

-- The keys with a new one, which signs.
abbrev pub renewed : String → String → List ℕ → Keys
renewed old kid b = record { current = kid; set = (kid, hex b) ∷ load_parts (split 44 old) [] }

module _ (old kid : String) (b : List ℕ) (plain : IsPlain kid) (lacking : Lacks 58 kid) where
  abbrev entry : String
  entry = kid ++ (":" ++ hex b)

  entry-IsPlain : IsPlain entry
  entry-IsPlain = IsPlain-colon kid (hex b) plain (IsPlain-hex b)

  load_parts-entry :
      (p : String)
      → trim_space p ≡ entry
      → (set : KeySet) → load_parts (p ∷ []) set ≡ (kid, hex b) ∷ set
  unfolding load_parts
  load_parts-entry p neat set =
      let hit : cut 58 (trim_space p) ≡ some (kid, hex b) =
        ap (cut 58) neat ∙ cut-colon kid (hex b) lacking in
      ground arith

  entry-ne-nil : entry ≢ ""
  entry-ne-nil e =
      let rest = (append-eq-nil_iff {p = kid} {q = ":" ++ hex b}).0 e in
      let colon = (append-eq-nil_iff {p = ":"} {q = hex b}).0 rest.1 in cc (colon.0)

  -- What the program prints ends a line.
  keygen-entry : (name : String) (more : List String) → keygen (name ∷ kid ∷ more) b ≡ entry ++ "\n"
  unfolding keygen
  keygen-entry name more =
      ap (λ (t : String). kid ++ t) (sym (append_assoc ":" (hex b) "\n"))
      ∙ sym (append_assoc kid (":" ++ hex b) "\n")

  abbrev raw : String
  raw = old ++ ("," ++ (entry ++ "\n"))

  with-comma-ne-nil : (line : String) → old ++ ("," ++ line) ≢ ""
  with-comma-ne-nil line e =
      let rest = (append-eq-nil_iff {p = old} {q = "," ++ line}).0 e in
      let comma = (append-eq-nil_iff {p = ","} {q = line}).0 rest.1 in cc (comma.0)

  -- Both loaders read the older keys and then the new one.
  parts_untrimmed : load_parts (split 44 raw) [] ≡ (kid, hex b) ∷ load_parts (split 44 old) []
  parts_untrimmed =
      ap (λ (ps : List String). load_parts ps [])
        (split-append old (entry ++ "\n")
          (Lacks-append 44 entry "\n" (IsPlain-Lacks entry entry-IsPlain) (refl, tt)))
      ∙ load_parts-append (split 44 old) ((entry ++ "\n") ∷ []) []
      ∙ load_parts-entry (entry ++ "\n") (trim_space-line entry entry-IsPlain entry-ne-nil) _

  raw-entries : entries raw ≡ (renewed old kid b).set
  raw-entries = parts_untrimmed

  -- The secret of a kid under both loaders, now and before.
  abbrev KeepsSecret : AnyOf → (before getenv : String → String) → String → Type 0
  KeepsSecret any_of before getenv k =
      (lookup k (load any_of getenv).set ≡ lookup k (load any_of before).set)
      × (lookup k (load_from_env getenv).set ≡ lookup k (load_from_env before).set)

  module _ (any_of : AnyOf) (getenv : String → String) where
    set-load :
        (read : KeySet)
        → entries (getenv "JWT_KEYS") ≡ read
        → read ≢ []
        → ((load any_of getenv).set ≡ read) × ((load_from_env getenv).set ≡ read)
    unfolding settled env_settled
    set-load [] e some_read = absurd (some_read refl)
    set-load (k ∷ ks) e some_read = (
      ap (λ (l : Keys). l.set)
          (load-entries any_of getenv
            ∙ ap (settled any_of (getenv "JWT_CURRENT_KID") (getenv "JWT_SECRET")) e),
      ap (λ (l : Keys). l.set)
          (load_from_env-entries getenv
            ∙ ap (env_settled (trim_space (getenv "JWT_CURRENT_KID")) (getenv "JWT_SECRET")) e),
    )

  -- The other kids, if the sets of keys are the older entries behind the new one.
  others :
      (any_of : AnyOf) (before getenv : String → String)
      → before "JWT_KEYS" ≡ old
      → (load any_of getenv).set ≡ (renewed old kid b).set
      → (load_from_env getenv).set ≡ (renewed old kid b).set
      → (held : KeySet) → entries old ≡ held
      → ((entries old ≡ []) × ((k : String) → k ≢ kid → lookup k (renewed old kid b).set ≡ none))
        ⊎ ((k : String) → k ≢ kid → KeepsSecret any_of before getenv k)
  unfolding lookup
  others any_of before getenv older loaded provided [] e =
      inl (e, λ k ne. ground (arith, eq_iff kid k))
  others any_of before getenv older loaded provided (entry' ∷ rest) e =
      let (loaded', provided') =
        set-load any_of before (entries old) (ap entries older) (λ none_held. cc) in
      inr λ k ne.
        let same : lookup k (renewed old kid b).set ≡ lookup k (entries old) =
          ground (arith, eq_iff kid k) in
        (
          ap (lookup k) loaded ∙ same ∙ sym (ap (lookup k) loaded'),
          ap (lookup k) provided ∙ same ∙ sym (ap (lookup k) provided'),
        )

  -- If what jwtkeygen prints for a kid is appended to JWT_KEYS behind a comma, and JWT_CURRENT_KID
  -- is the kid, both loaders answer the same keys, provided that the kid is not empty and holds no
  -- space, comma or colon: the new one is the current one and its secret the hexadecimal digits of
  -- the random bytes. Any other kid has the secret that each loader gave it before; or JWT_KEYS
  -- held no key, and no other kid has a secret, not even the one that had JWT_SECRET.
  pub keygen-load :
      (name : String) (more : List String) (any_of : AnyOf) (before getenv : String → String)
      → kid ≢ ""
      → before "JWT_KEYS" ≡ old
      → getenv "JWT_CURRENT_KID" ≡ kid
      → getenv "JWT_KEYS" ≡ old ++ ("," ++ keygen (name ∷ kid ∷ more) b)
      → (load any_of getenv ≡ renewed old kid b)
        × (load_from_env getenv ≡ renewed old kid b)
        × (signing_secret (renewed old kid b) ≡ hex b)
        × (((entries old ≡ []) × ((k : String) → k ≢ kid → lookup k (renewed old kid b).set ≡ none))
            ⊎ ((k : String) → k ≢ kid → KeepsSecret any_of before getenv k))
  unfolding lookup settled env_settled
  keygen-load name more any_of before getenv given older current keys =
      let read : entries (getenv "JWT_KEYS") ≡ (renewed old kid b).set =
        ap entries (keys ∙ ap (λ (t : String). old ++ ("," ++ t)) (keygen-entry name more))
        ∙ raw-entries in
      let named : getenv "JWT_CURRENT_KID" ≢ "" = λ e. given (sym current ∙ e) in
      let neat : trim_space (getenv "JWT_CURRENT_KID") ≡ kid =
        ap trim_space current ∙ trim_space-IsPlain kid plain in
      let (loaded, provided) = set-load any_of getenv _ read (λ e. cc) in
      (
        load-entries any_of getenv
            ∙ ap (settled any_of (getenv "JWT_CURRENT_KID") (getenv "JWT_SECRET")) read
            ∙ ground (arith, eq_iff (getenv "JWT_CURRENT_KID") ""),
        load_from_env-entries getenv
            ∙ ap (env_settled (trim_space (getenv "JWT_CURRENT_KID")) (getenv "JWT_SECRET")) read
            ∙ ground arith,
        ground (arith, eq_iff kid kid),
        others any_of before getenv older loaded provided (entries old) refl,
      )
