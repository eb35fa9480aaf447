-- ===== src/Jwt/Unset.antt =====
-- internal/jwtauth: the two loaders when JWT_KEYS is set and JWT_CURRENT_KID is not.
use go_notes_api.Base.{◌≡◌, ap, ◌∙◌, refl, none, some, ◌∷◌, String, eq_of_text, eq_iff, arith}
use go_notes_api.Base.Text.{trim_space}
use go_notes_api.Jwt.Keys.{
  KeySet, AnyOf, lookup, signing_secret, settled, env_settled, load, load_from_env,
}
use go_notes_api.Jwt.Loaders.{entries, load-entries, load_from_env-entries}

trim-nil : trim_space "" ≡ ""
unfolding trim_space
trim-nil = refl

-- If JWT_KEYS holds keys, none of them under the empty kid, and JWT_CURRENT_KID is empty, the
-- provider that Login signs with has the empty secret, while Load, on whose keys AuthWith relies,
-- takes an entry of the map as the current one.
pub load_from_env_unsigned :
    (any_of : AnyOf) (getenv : String → String) (entry chosen : String × String) (rest : KeySet)
    → getenv "JWT_CURRENT_KID" ≡ ""
    → entries (getenv "JWT_KEYS") ≡ entry ∷ rest
    → lookup "" (entry ∷ rest) ≡ none
    → any_of (entry ∷ rest) ≡ some chosen
    → (signing_secret (load_from_env getenv) ≡ "") × ((load any_of getenv).current ≡ chosen.0)
unfolding settled env_settled
load_from_env_unsigned any_of getenv entry chosen rest unset parsed missing picked =
    let blank : trim_space (getenv "JWT_CURRENT_KID") ≡ "" = ap trim_space unset ∙ trim-nil in
    let provided =
      load_from_env-entries getenv
      ∙ ap (env_settled (trim_space (getenv "JWT_CURRENT_KID")) (getenv "JWT_SECRET")) parsed in
    let loaded =
      load-entries any_of getenv
      ∙ ap (settled any_of (getenv "JWT_CURRENT_KID") (getenv "JWT_SECRET")) parsed in
    let nobody = eq_iff (getenv "JWT_CURRENT_KID") "" in
    (ground (arith, provided), ground (arith, loaded, nobody))
