-- ===== src/Jwt/Tests.antt =====
-- A key without JWT_CURRENT_KID.
use go_notes_api.Base.{
  Option, ◌≡◌, ◌≢◌, ◌↔◌, refl, [], ◌∷◌, String, some, none, if◌then◌else◌, ◌==◌, eq_of_text, eq_iff,
  arith,
}
use go_notes_api.Base.Text.{trim_space, split, cut}
use go_notes_api.Jwt.Keys.{KeySet, lookup, signing_secret, load_parts, load, load_from_env}
use go_notes_api.Jwt.Loaders.{IsShared, load-load_from_env}
use go_notes_api.Jwt.Unset.{load_from_env_unsigned}

abbrev one_key : String → String
one_key name = if name == "JWT_KEYS" then "k1:s1" else ""

abbrev first_of : KeySet → Option (String × String)
first_of [] = none
first_of (k ∷ ks) = some k

parsed : load_parts (split 44 "k1:s1") [] ≡ ("k1", "s1") ∷ []
unfolding load_parts split cut trim_space
parsed = refl

missing : lookup "" (("k1", "s1") ∷ []) ≡ none
unfolding lookup
missing = refl

load_from_env_unsigned_example :
    (signing_secret (load_from_env one_key) ≡ "") × ((load first_of one_key).current ≡ "k1")
load_from_env_unsigned_example =
    load_from_env_unsigned first_of one_key ("k1", "s1") ("k1", "s1") [] refl parsed missing refl

abbrev named_key : String → String
named_key name =
    if name == "JWT_KEYS" then "k1:s1" else if name == "JWT_CURRENT_KID" then "k1" else ""

neat : trim_space "k1" ≡ "k1"
unfolding trim_space
neat = refl

named : named_key "JWT_CURRENT_KID" ≢ ""
named e = ground (arith, eq_iff "k1" "")

load-load_from_env_example :
    (load first_of named_key ≡ load_from_env named_key) ↔ IsShared first_of named_key
load-load_from_env_example = load-load_from_env first_of named_key neat named
