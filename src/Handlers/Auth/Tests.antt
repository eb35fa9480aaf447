-- ===== src/Handlers/Auth/Tests.antt =====
-- Requests to /auth on small tables.
use Prim.Native.String.{◌++◌}
use go_notes_api.Base.{
  ◌≡◌, ◌≢◌, refl, ap, true, false, none, some, [], ◌∷◌, ◌<◌, exists_where, first_where, ◌==◌,
  eq_of_text, if◌then◌else◌, eq_iff, arith, length,
}
use go_notes_api.Base.Int.{pos, int_lt, ◌+ℤ◌}
use go_notes_api.Base.Text.{hex, utf8, after_prefix}
use go_notes_api.Schema.{Db, User}
use go_notes_api.Http.{encoded, Request, Response, http_error, empty_response}
use go_notes_api.Redis.{Redis}
use go_notes_api.Jwt.{Jwt}
use go_notes_api.Jwt.Keys.{lookup}
use go_notes_api.Fixtures.{
  plain_mysql, empty_db, no_tables, plain_request, plain_same, plain_hash, plain_creds, auth_codec,
  plain_config, plain_keys, plain_jwt,
}
use go_notes_api.World.{World}
use go_notes_api.Handlers.Auth.{
  login, Creds, AuthCodec, access_claims, access_token, register, sign_in, refresh, key_fn, logout,
}
use go_notes_api.Handlers.Auth.Sessions.{sign_in-refresh, logout-refresh}
use go_notes_api.Brute
use go_notes_api.Handlers.Auth.Limits.{login_within_limits}
use go_notes_api.Handlers.Auth.Accounts.{register-sign_in, register_locks_out}

-- User 7 has an account.
abbrev alice : User
alice = record { id = pos 7; email = "a@b.c"; password_hash = "hpassword" }

abbrev accounts : Db
accounts = record empty_db { tables = record no_tables { users = alice ∷ [] } }

abbrev codec : AuthCodec
codec = auth_codec plain_creds (hex (1 ∷ []))

known : first_where (λ (u : User). u.email == "a@b.c") accounts.users ≡ some alice
unfolding first_where
known = refl

matching : codec.same_password "hpassword" "password" ≡ true
unfolding plain_same
matching = refl

ne_hex : (hex (1 ∷ []) == hex (3 ∷ [])) ≡ false
unfolding hex
ne_hex = refl

live : int_lt (pos 20) (pos 10 +ℤ pos 3600) ≡ true
unfolding int_lt ◌+ℤ◌
live = refl

abbrev jwt : Jwt
jwt = plain_jwt (access_claims plain_config (pos 7) (pos 10) (5 ∷ []))

-- Signed in with the refresh token "01" at the time 10.
abbrev signed_in : Db
signed_in =
    (sign_in codec plain_mysql plain_config jwt plain_keys plain_creds (pos 10) (5 ∷ []) (1 ∷ [])
      accounts).1

signed_in-runs :
    ((sign_in codec plain_mysql plain_config jwt plain_keys plain_creds
        (pos 10)
        (5 ∷ [])
        (1 ∷ [])
        accounts).0
      ≡ encoded ("token" ++ hex (1 ∷ [])))
    × ((refresh codec plain_mysql plain_config jwt plain_keys plain_request
          (pos 20)
          (6 ∷ [])
          (3 ∷ [])
          signed_in).0
        ≡ encoded ("token" ++ hex (3 ∷ [])))
unfolding access_token exists_where
signed_in-runs =
    sign_in-refresh codec plain_mysql plain_config jwt plain_keys plain_creds plain_request alice
      (pos 10) (pos 20) (5 ∷ []) (6 ∷ []) (1 ∷ []) (3 ∷ []) accounts (λ n. refl) known matching refl
      refl ne_hex live refl

sign_in-refresh_example :
    ((sign_in codec plain_mysql plain_config jwt plain_keys plain_creds
        (pos 10)
        (5 ∷ [])
        (1 ∷ [])
        accounts).0
      ≡ encoded ("token" ++ hex (1 ∷ [])))
    × ((refresh codec plain_mysql plain_config jwt plain_keys plain_request
          (pos 20)
          (6 ∷ [])
          (3 ∷ [])
          signed_in).0
        ≡ encoded ("token" ++ hex (3 ∷ [])))
unfolding access_token exists_where
sign_in-refresh_example =
    sign_in-refresh codec plain_mysql plain_config jwt plain_keys plain_creds plain_request alice
      (pos 10) (pos 20) (5 ∷ []) (6 ∷ []) (1 ∷ []) (3 ∷ []) accounts (λ n. refl) known matching refl
      refl ne_hex live refl

signed_in-ok :
    (sign_in codec plain_mysql plain_config jwt plain_keys plain_creds
      (pos 10)
      (5 ∷ [])
      (1 ∷ [])
      accounts).0.status
    ≡ 200
signed_in-ok = ap (λ (o : Response). o.status) signed_in-runs.0

-- A logout with the access token "token" and the refresh token "01".
abbrev no_store : Redis (Unit {0})
no_store = record {
  incr_expire = λ key window s. (pos 1, s);
  ttl = λ key s. (none, s);
  set_ex = λ key value ttl s. (true, s);
}

abbrev leaving : Request
leaving = record plain_request {
  header = λ name. if name == "Authorization" then "Bearer token" else "";
}

borne : after_prefix "Bearer " (leaving.header "Authorization") ≡ some "token"
unfolding after_prefix
borne = refl

token_parsed :
    jwt.parse (key_fn codec plain_mysql plain_config jwt plain_keys) none none (pos 15) "token"
    ≡ some (access_claims plain_config (pos 7) (pos 10) (5 ∷ []))
unfolding key_fn lookup
token_parsed = refl

given : hex (1 ∷ []) ≢ ""
unfolding hex
given e = ground (arith, eq_iff "01" "")

abbrev here_world : World (Unit {0})
here_world = record { db = accounts; store = tt; observed = [] }

logout-refresh_example :
    ((logout codec plain_mysql plain_config jwt plain_keys no_store "jti:" leaving
        (pos 15)
        here_world).0
      ≡ empty_response 204)
    × ((refresh codec plain_mysql plain_config jwt plain_keys plain_request
          (pos 20)
          (6 ∷ [])
          (3 ∷ [])
          (logout codec plain_mysql plain_config jwt plain_keys no_store "jti:" leaving
            (pos 15)
            here_world).1.db).0
        ≡ http_error "invalid" 401)
unfolding hex
logout-refresh_example =
    logout-refresh codec plain_mysql plain_config jwt plain_keys no_store "jti:" "token"
      (access_claims plain_config (pos 7) (pos 10) (5 ∷ [])) leaving plain_request (hex (1 ∷ []))
      (hex (1 ∷ [])) (pos 15) (pos 20) (6 ∷ []) (3 ∷ []) here_world (λ n. refl) borne token_parsed
      refl given refl refl

no_account : exists_where (λ (u : User). u.email == "a@b.c") empty_db.users ≡ false
unfolding exists_where
no_account = refl

hashed : codec.hash_password [] "password" ≡ some "hpassword"
unfolding plain_hash utf8
hashed = refl

register-sign_in_example :
    ((register codec plain_mysql [] plain_request empty_db).0 ≡ encoded (codec.id_json (pos 1)))
    × ((sign_in codec plain_mysql plain_config jwt plain_keys plain_creds
          (pos 10)
          (5 ∷ [])
          (1 ∷ [])
          (register codec plain_mysql [] plain_request empty_db).1).0
        ≡ encoded ("token" ++ hex (1 ∷ [])))
unfolding access_token exists_where
register-sign_in_example =
    register-sign_in codec plain_mysql [] plain_request plain_creds empty_db (λ n. refl) refl refl
      no_account plain_config jwt plain_keys (pos 10) (5 ∷ []) (1 ∷ []) "hpassword" hashed refl

-- A password of 75 bytes.
abbrev long_creds : Creds
long_creds = record {
  email = "a@b.c";
  password = "correct horse battery staple correct horse battery staple correct horse bat";
}

abbrev long_codec : AuthCodec
long_codec = auth_codec long_creds ""

too_many_bytes : 72 < length (utf8 long_creds.password)
unfolding utf8
too_many_bytes = omega arith

register_locks_out_example :
    ((register long_codec plain_mysql [] plain_request empty_db).0
      ≡ encoded (long_codec.id_json (pos 1)))
    × ((sign_in long_codec plain_mysql plain_config jwt plain_keys long_creds
          (pos 10)
          (5 ∷ [])
          (1 ∷ [])
          (register long_codec plain_mysql [] plain_request empty_db).1).0
        ≡ http_error "unauthorized" 401)
register_locks_out_example =
    register_locks_out long_codec plain_mysql [] plain_request long_creds empty_db (λ n. refl) refl
      refl no_account plain_config jwt plain_keys (pos 10) (5 ∷ []) (1 ∷ []) too_many_bytes

admitted :
    (login codec plain_mysql plain_config jwt plain_keys no_store
      (λ email. true)
      plain_request
      (pos 10)
      (5 ∷ [])
      (1 ∷ [])
      here_world).0.status
    ≡ 200
unfolding login Brute.allow int_lt
admitted = ap (λ (o : Response). o.status) signed_in-runs.0

login_within_limits_example :
    (true ≡ true)
    × (int_lt (pos 10) (pos 1) ≡ false)
    × ((login codec plain_mysql plain_config jwt plain_keys no_store
          (λ email. true)
          plain_request
          (pos 10)
          (5 ∷ [])
          (1 ∷ [])
          here_world).0
        ≡ (sign_in codec plain_mysql plain_config jwt plain_keys plain_creds
            (pos 10)
            (5 ∷ [])
            (1 ∷ [])
            accounts).0)
login_within_limits_example =
    login_within_limits codec plain_mysql plain_config jwt plain_keys no_store (λ email. true)
      plain_request plain_creds (pos 10) (5 ∷ []) (1 ∷ []) here_world refl admitted
