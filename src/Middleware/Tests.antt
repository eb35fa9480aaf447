-- ===== src/Middleware/Tests.antt =====
-- Guarded requests on small tables.
use go_notes_api.Base.{
  ◌≡◌, ◌≢◌, refl, true, none, some, Option, [], ◌∷◌, String, ◌==◌, eq_of_text, eq_iff,
  if◌then◌else◌, arith,
}
use go_notes_api.Base.Int.{pos, int_lt, ◌+ℤ◌}
use go_notes_api.Base.Text.{after_prefix, format_int}
use go_notes_api.Http.{encoded, Handler, Request, bearer, user_id}
use go_notes_api.Jwt.{Claims, IsVerified}
use go_notes_api.Jwt.Keys.{KeySet, lookup}
use go_notes_api.Fixtures.{
  plain_mysql, plain_request, plain_creds, auth_codec, plain_config, plain_keys, plain_jwt,
}
use go_notes_api.Handlers.Auth.{access_claims, access_token}
use go_notes_api.Middleware.{key_fn, auth_with}
use go_notes_api.Jwt.Keys.{load, load_from_env, signing_secret}
use go_notes_api.Middleware.Signing.{key_fn-signing_secret}
use go_notes_api.Middleware.Access.{access_token-auth_with}

-- A handler that answers the id of its user.
abbrev greet : {S : Type 0} → Handler S
greet r s = (encoded (format_int (user_id r)), s)

abbrev first_of : KeySet → Option (String × String)
first_of [] = none
first_of (k ∷ ks) = some k

abbrev claims : Claims
claims = access_claims plain_config (pos 7) (pos 10) (5 ∷ [])

abbrev with_token : Request
with_token = record plain_request {
  header = λ name. if name == "Authorization" then "Bearer token" else "";
}

verified : IsVerified (plain_jwt claims) "k1" "s1" claims
verified key_fn now sub exp e h e' h' known live = rw known refl

borne :
    bearer with_token
    ≡ some (
        access_token
          (auth_codec plain_creds "")
          plain_mysql
          plain_config
          (plain_jwt claims)
          plain_keys
          (pos 7)
          (pos 10)
          (5 ∷ []))
unfolding after_prefix access_token
borne = refl

known : lookup "k1" plain_keys.set ≡ some "s1"
unfolding lookup
known = refl

named : plain_keys.current ≢ ""
named e = ground (arith, eq_iff "k1" "")

expires : pos 10 +ℤ pos 900 ≡ pos 910
unfolding ◌+ℤ◌
expires = refl

live : int_lt (pos 20) (pos 910) ≡ true
unfolding int_lt
live = refl

access_token-auth_with_example :
    auth_with (plain_jwt claims) first_of plain_keys plain_config (pos 20) greet with_token tt
    ≡ greet (record with_token { user = some (pos 7) }) tt
unfolding lookup
access_token-auth_with_example =
    access_token-auth_with (plain_jwt claims) first_of plain_keys plain_config greet
      (auth_codec plain_creds "") plain_mysql plain_keys 7 910 (pos 10) (pos 20) (5 ∷ []) with_token
      tt verified borne known named (omega arith) expires (omega arith) live

-- No variable is set.
abbrev unset : String → String
unset name = ""

key_fn-signing_secret_example :
    (signing_secret (load_from_env unset) ≡ "")
    × (key_fn
          (plain_jwt claims)
          first_of
          (load first_of unset)
          plain_config
          (load_from_env unset).current
        ≡ some "")
key_fn-signing_secret_example =
    key_fn-signing_secret first_of unset refl (plain_jwt claims) plain_config refl
