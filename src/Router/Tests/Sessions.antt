-- ===== src/Router/Tests/Sessions.antt =====
-- User 7 signs in and refreshes.
use go_notes_api.Base.{
  ◌≡◌, refl, false, true, some, [], ◌∷◌, eq_of_text, ◌==◌, ◌≢◌, ap, exists_where, first_where,
}
use go_notes_api.Base.Int.{pos, int_lt, ◌+ℤ◌}
use go_notes_api.Router.{serve_all, Site, Moment}
use go_notes_api.World.{World}
use go_notes_api.Fixtures.{
  Memory, blank_memory, plain_mysql, plain_creds, auth_codec, plain_config, plain_keys,
  plain_request, empty_db, no_tables, plain_same,
}
use go_notes_api.Fixtures.Site.{at, members, adding}
use go_notes_api.Router.Sessions.{refresh-refresh}
use go_notes_api.Base.Text.{hex}
use go_notes_api.Schema.{User, Db}
use go_notes_api.Http.{Response}
use go_notes_api.Handlers.Auth.{sign_in, refresh}
use go_notes_api.Handlers.Auth.Sessions.{sign_in-refresh}

abbrev logging_site : Site (Unit {0}) Memory
logging_site = record members { auth_codec = auth_codec plain_creds (hex (1 ∷ [])) }

abbrev alice : User
alice = record { id = pos 7; email = "a@b.c"; password_hash = "hpassword" }

abbrev accounts : Db
accounts = record empty_db { tables = record no_tables { users = alice ∷ [] } }

alice-known : first_where (λ (u : User). u.email == "a@b.c") accounts.users ≡ some alice
unfolding first_where
alice-known = refl

matching : logging_site.auth_codec.same_password "hpassword" "password" ≡ true
unfolding plain_same
matching = refl

ne_hex : (hex (1 ∷ []) == hex (3 ∷ [])) ≡ false
unfolding hex
ne_hex = refl

token_live : int_lt (pos 20) (pos 10 +ℤ pos 3600) ≡ true
unfolding int_lt ◌+ℤ◌
token_live = refl

abbrev signed_in : World Memory
signed_in = record {
  db =
      (sign_in logging_site.auth_codec plain_mysql plain_config logging_site.jwt plain_keys
        plain_creds (pos 10) (5 ∷ []) (1 ∷ []) accounts).1;
  store = blank_memory;
  observed = [];
}

refreshed-ok :
    (refresh logging_site.auth_codec plain_mysql plain_config logging_site.jwt plain_keys
      plain_request
      (pos 20)
      (6 ∷ [])
      (3 ∷ [])
      signed_in.db).0.status
    ≡ 200
unfolding exists_where
refreshed-ok =
    ap (λ (o : Response). o.status)
      (sign_in-refresh logging_site.auth_codec plain_mysql plain_config logging_site.jwt plain_keys
        plain_creds plain_request alice (pos 10) (pos 20) (5 ∷ []) (6 ∷ []) (1 ∷ []) (3 ∷ [])
        accounts (λ n. refl) alice-known matching refl refl ne_hex token_live refl).1

-- A login draws other random bytes.
abbrev later : Moment
later = record at { token = 4 ∷ [] }

others : (hex (4 ∷ []) == hex (1 ∷ [])) ≡ false
unfolding hex
others = refl

refresh-refresh_example :
    (refresh logging_site.auth_codec plain_mysql plain_config logging_site.jwt plain_keys
      plain_request
      (pos 30)
      (7 ∷ [])
      (5 ∷ [])
      (serve_all logging_site ((later, adding) ∷ []) (record signed_in {
        db =
            (refresh logging_site.auth_codec plain_mysql plain_config logging_site.jwt plain_keys
              plain_request
              (pos 20)
              (6 ∷ [])
              (3 ∷ [])
              signed_in.db).1;
      })).db).0.status
    ≢ 200
unfolding hex
refresh-refresh_example =
    refresh-refresh logging_site (hex (1 ∷ [])) plain_request plain_request (hex (1 ∷ [])) (pos 20)
      (pos 30) (6 ∷ []) (7 ∷ []) (3 ∷ []) (5 ∷ []) signed_in ((later, adding) ∷ []) refl refl refl
      refreshed-ok (others, tt)
