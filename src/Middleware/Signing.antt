-- ===== src/Middleware/Signing.antt =====
-- internal/middleware/auth.go with internal/jwtauth: JWT_SECRET alone.
use go_notes_api.Base.{
  ◌≡◌, ap, ◌∙◌, refl, some, [], ◌∷◌, String, ◌==◌, eq_of_text, eq_iff, arith, Bool-cases, true,
  false, inl, inr, if◌then◌else◌,
}
use go_notes_api.Base.Text.{trim_space}
use go_notes_api.Jwt.{Jwt}
use go_notes_api.Jwt.Keys.{AnyOf, lookup, signing_secret, load, load_from_env}
use go_notes_api.Handlers.Auth.{AuthConfig}
use go_notes_api.Middleware.{key_fn}

trim-nil : trim_space "" ≡ ""
unfolding trim_space
trim-nil = refl

module _ (any_of : AnyOf) (getenv : String → String) (none_set : getenv "JWT_KEYS" ≡ "") where
  blank : trim_space (getenv "JWT_KEYS") ≡ ""
  blank = ap trim_space none_set ∙ trim-nil

  loaded_set : (load any_of getenv).set ≡ ("default", getenv "JWT_SECRET") ∷ []
  unfolding load
  loaded_set = ground (arith, eq_iff (getenv "JWT_KEYS") "")

  provided :
      (getenv "JWT_SECRET" == "") ≡ false
      → (kid : String) × (load_from_env getenv
          ≡ record { current = kid; set = (kid, getenv "JWT_SECRET") ∷ [] })
  unfolding load_from_env
  provided given = (
    if trim_space (getenv "JWT_CURRENT_KID") == ""
        then "key1"
        else trim_space (getenv "JWT_CURRENT_KID"),
    ground (arith, blank, eq_iff (trim_space (getenv "JWT_KEYS")) ""),
  )

  provided_nothing : (getenv "JWT_SECRET" == "") ≡ true → (load_from_env getenv).set ≡ []
  unfolding load_from_env
  provided_nothing unset = ground (arith, blank, eq_iff (trim_space (getenv "JWT_KEYS")) "")

  provided_secret : signing_secret (load_from_env getenv) ≡ getenv "JWT_SECRET"
  unfolding lookup
  provided_secret = elim (Bool-cases (getenv "JWT_SECRET" == "")) [
    | inl unset ↦
        let looked = ap (lookup (load_from_env getenv).current) (provided_nothing unset) in
        ground (arith, eq_iff (getenv "JWT_SECRET") "")
    | inr given ↦
        let (kid, same) = provided given in ap signing_secret same ∙ ground (arith, eq_iff kid kid)
  ]

  -- If JWT_KEYS is empty, Login signs with JWT_SECRET, whatever it is, and AuthWith takes the same
  -- secret for the kid of such a token, if the loop over the map of one entry gives this entry.
  pub key_fn-signing_secret :
      (jwt : Jwt) (cfg : AuthConfig)
      → any_of (("default", getenv "JWT_SECRET") ∷ []) ≡ some ("default", getenv "JWT_SECRET")
      → (signing_secret (load_from_env getenv) ≡ getenv "JWT_SECRET")
        × (key_fn jwt any_of (load any_of getenv) cfg (load_from_env getenv).current
            ≡ some (getenv "JWT_SECRET"))
  unfolding key_fn lookup
  key_fn-signing_secret jwt cfg only =
      let picked = ap any_of loaded_set ∙ only in
      let looked = ap (lookup (load_from_env getenv).current) loaded_set in
      (provided_secret, ground arith)
