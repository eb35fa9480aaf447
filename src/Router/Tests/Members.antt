-- ===== src/Router/Tests/Members.antt =====
-- User 7 adds a note.
use go_notes_api.Base.{
  ◌≡◌, refl, false, true, none, some, [], ◌∷◌, eq_of_text, ◌==◌, arith, eq_iff, ok, ◌≢◌,
  first_where, exists_where,
}
use go_notes_api.Base.Int.{pos, int_lt, ◌+ℤ◌}
use go_notes_api.Base.Text.{trim_space, after_prefix, hex, utf8}
use Prim.Native.String.{◌++◌}
use go_notes_api.Schema.{Role, Db}
use go_notes_api.Http.{encoded, bearer}
use go_notes_api.World.{World}
use go_notes_api.Fixtures.{
  Memory, plain_hash, plain_request, two_roles, plain_jwt, plain_mysql, plain_creds, auth_codec,
  plain_config, plain_keys,
}
use go_notes_api.Handlers.Auth.{register, sign_in, access_token}
use go_notes_api.Router.Newcomer.{register-sign_in-create}
use go_notes_api.Jwt.{IsVerified}
use go_notes_api.Jwt.Keys.{lookup}
use go_notes_api.Repos.Notes.{get}
use go_notes_api.Router.{notes_create, handle}
use go_notes_api.Fixtures.Site.{claims, at, members, adding, roles_world}

verified : IsVerified (plain_jwt claims) "k1" "s1" claims
verified key_fn now sub exp e h e' h' known live = rw known refl

borne :
    bearer adding
    ≡ some (
        access_token
          (auth_codec plain_creds "")
          plain_mysql
          plain_config
          (plain_jwt claims)
          plain_keys
          (pos 7)
          (pos 10)
          (5 ∷ []))
unfolding after_prefix access_token
borne = refl

known : lookup "k1" plain_keys.set ≡ some "s1"
unfolding lookup
known = refl

named : plain_keys.current ≢ ""
named e = ground (arith, eq_iff "k1" "")

expires : pos 10 +ℤ pos 900 ≡ pos 910
unfolding ◌+ℤ◌
expires = refl

live : int_lt (pos 20) (pos 910) ≡ true
unfolding int_lt
live = refl

titled : (trim_space "milk" == "") ≡ false
unfolding trim_space
titled = refl

-- Nobody has an account yet, and the next one is 7.
abbrev empty_house : World Memory
empty_house = record roles_world {
  db = record two_roles { tables = record two_roles.tables { next_user = 7 } };
}

is_valid : members.auth_codec.valid plain_creds ≡ true
is_valid = refl

found_role :
    first_where (λ (o : Role). o.name == "user") empty_house.db.roles
    ≡ some (record { id = pos 2; name = "user" })
unfolding first_where
found_role = refl

hashed : members.auth_codec.hash_password [] "password" ≡ some "hpassword"
unfolding plain_hash utf8
hashed = refl

abbrev signed_up : Db
signed_up = (register members.auth_codec plain_mysql [] plain_request empty_house.db).1

abbrev signed_in : World Memory
signed_in = record empty_house {
  db =
      (sign_in members.auth_codec plain_mysql plain_config members.jwt plain_keys plain_creds
        (pos 10) (5 ∷ []) (1 ∷ []) signed_up).1;
}

register-sign_in-create_example :
    ((sign_in members.auth_codec plain_mysql plain_config members.jwt plain_keys plain_creds
        (pos 10)
        (5 ∷ [])
        (1 ∷ [])
        signed_up).0
      ≡ encoded ("token" ++ hex (1 ∷ [])))
    × ((handle members at notes_create adding signed_in).0.status ≡ 200)
    × ((get
          (pos 7)
          (pos signed_in.db.next_note)
          (handle members at notes_create adding signed_in).1.db).0
        ≡ ok (record {
          id = pos signed_in.db.next_note;
          user_id = pos 7;
          title = trim_space "milk";
          body = "two";
          created_at = pos 20;
          updated_at = pos 20;
          deleted_at = none;
        }))
unfolding lookup access_token exists_where
register-sign_in-create_example =
    register-sign_in-create members [] plain_request plain_creds empty_house (λ n. refl) refl
      is_valid refl (record { id = pos 2; name = "user" }) found_role (pos 10) (5 ∷ []) (1 ∷ [])
      "hpassword" hashed refl at 910 adding (record { title = "milk"; body = "two" }) verified known
      named (omega arith) expires (omega arith) live borne refl titled
