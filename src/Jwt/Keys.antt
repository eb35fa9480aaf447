-- ===== src/Jwt/Keys.antt =====
-- internal/jwtauth/keys.go, load.go and provider.go: the two loaders of the keys.
use go_notes_api.Base.{
  none, some, Option, List, [], ◌∷◌, String, ◌==◌, eq_of_text, if◌then◌else◌, eq_of_nat,
}
use go_notes_api.Base.Text.{trim_space, split, split_two, cut}

-- map[string][]byte: the last entry of a key counts, so the list holds the newest first.
abbrev pub KeySet : Type 0
KeySet = List (String × String)

unfoldable pub lookup : String → KeySet → Option String
lookup kid [] = none
lookup kid ((k, sec) ∷ ks) = if k == kid then some sec else lookup kid ks

-- type Keys, type EnvProvider
pub record Keys : Type 0 where
  pub current : String
  pub set : KeySet

-- SecretFor, and `sec, _ := jwtauth.Secret(kid)`, which is empty for a kid that is not there
abbrev pub secret_for : Keys → String → Option String
secret_for keys kid = lookup kid keys.set

abbrev pub signing_secret : Keys → String
signing_secret keys = elim (secret_for keys keys.current) [ none ↦ "" | some sec ↦ sec ]

-- The loop of Load over the parts: "kid:secret", where 58 is ':'. A part without one is skipped.
unfoldable pub load_parts : List String → KeySet → KeySet
load_parts [] set = set
load_parts (p ∷ ps) set =
    load_parts ps (elim (cut 58 (trim_space p)) [ none ↦ set | some entry ↦ entry ∷ set ])

-- `for k := range kset`: an entry of the map, whichever comes first
abbrev pub AnyOf : Type 0
AnyOf = KeySet → Option (String × String)

-- Load behind its loop: JWT_SECRET if there is no key, and a kid if JWT_CURRENT_KID is not set
unfoldable pub settled : AnyOf → (cur secret : String) → KeySet → Keys
settled any_of cur secret [] = record {
  current = if cur == "" then "default" else cur;
  set = ("default", secret) ∷ [];
}
settled any_of cur secret (k ∷ ks) = record {
  current = if cur == "" then elim (any_of (k ∷ ks)) [ none ↦ "" | some entry ↦ entry.0 ] else cur;
  set = k ∷ ks;
}

-- Load()
unfoldable pub load : AnyOf → (String → String) → Keys
unfolding settled
load any_of getenv =
    let cur = getenv "JWT_CURRENT_KID" in
    let raw = getenv "JWT_KEYS" in
    settled any_of cur (getenv "JWT_SECRET")
      (if raw == "" then [] else load_parts (split 44 raw) [])

-- `if len(kv) == 2 { set[kv[0]] = []byte(kv[1]) }`
unfoldable pub with_pair : List String → KeySet → KeySet
with_pair (kid ∷ sec ∷ []) set = (kid, sec) ∷ set
with_pair _ set = set

-- The loop of loadFromEnv over the parts.
unfoldable pub env_parts : List String → KeySet → KeySet
unfolding with_pair
env_parts [] set = set
env_parts (p ∷ ps) set = env_parts ps (with_pair (split_two 58 (trim_space p)) set)

-- loadFromEnv behind its loop
unfoldable pub env_settled : (current secret : String) → KeySet → Keys
env_settled current secret [] =
    if secret == ""
    then record { current = current; set = [] }
    else let current = if current == "" then "key1" else current in
      record { current = current; set = (current, secret) ∷ [] }
env_settled current secret (k ∷ ks) = record { current = current; set = k ∷ ks }

-- loadFromEnv()
unfoldable pub load_from_env : (String → String) → Keys
unfolding env_settled
load_from_env getenv =
    let keys = trim_space (getenv "JWT_KEYS") in
    let current = trim_space (getenv "JWT_CURRENT_KID") in
    env_settled current (getenv "JWT_SECRET")
      (if keys == "" then [] else env_parts (split 44 keys) [])
