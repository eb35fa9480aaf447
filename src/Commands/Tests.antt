-- ===== src/Commands/Tests.antt =====
-- A key beside an older one.
use go_notes_api.Base.{
  ◌≡◌, ◌≢◌, refl, [], ◌∷◌, Option, String, some, none, if◌then◌else◌, ◌==◌, eq_of_text, eq_iff,
  arith, ok, err, Result, suc, ◌+◌, ◌⊎◌,
}
use Prim.Native.String.{◌++◌}
use go_notes_api.Base.Text.{hex}
use go_notes_api.Base.Text.Plain.{IsPlain, is_plain}
use go_notes_api.Jwt.Keys.{KeySet, lookup, load, load_from_env, signing_secret}
use go_notes_api.Jwt.Loaders.{entries}
use go_notes_api.Base.Int.{pos}
use go_notes_api.Fixtures.{plain_mysql, plain_redis, two_roles, Memory}
use go_notes_api.Fixtures.Site.{config, site, at, deleting, world}
use go_notes_api.Connection.{Driver}
use go_notes_api.Connection.Pools.{opens, closes}
use go_notes_api.Commands.Ended.{Ended, fatal, panicked}
use go_notes_api.Commands.Api
use go_notes_api.Commands.Api.{Process, IsBalanced, main-pools}
use go_notes_api.Config.{Config}
use go_notes_api.Commands.SeedAdmin
use go_notes_api.Commands.SeedAdmin.{Host, IsSeeded, main-IsSeeded}
use go_notes_api.Commands.Keygen.{keygen, keygen-load, renewed}

abbrev printed : String
printed = "k1:s1" ++ ("," ++ keygen ("jwtkeygen" ∷ "k2" ∷ []) (255 ∷ 10 ∷ []))

abbrev environment : String → String
environment name =
    if name == "JWT_KEYS" then printed else if name == "JWT_CURRENT_KID" then "k2" else ""

abbrev first_of : KeySet → Option (String × String)
first_of [] = none
first_of (k ∷ ks) = some k

plain : IsPlain "k2"
unfolding is_plain
plain = (refl, (refl, tt))

abbrev new_kid : String
new_kid = "k2"

given : new_kid ≢ ""
given e = ground (arith, eq_iff "k2" "")

abbrev older : String → String
older name = if name == "JWT_KEYS" then "k1:s1" else ""

keygen-load_example :
    (load first_of environment ≡ renewed "k1:s1" "k2" (255 ∷ 10 ∷ []))
    × (load_from_env environment ≡ renewed "k1:s1" "k2" (255 ∷ 10 ∷ []))
    × (signing_secret (renewed "k1:s1" "k2" (255 ∷ 10 ∷ [])) ≡ hex (255 ∷ 10 ∷ []))
    × (((entries "k1:s1" ≡ [])
          × ((k : String) → k ≢ "k2" → lookup k (renewed "k1:s1" "k2" (255 ∷ 10 ∷ [])).set ≡ none))
        ⊎ ((k : String)
            → k ≢ "k2"
            → (lookup k (load first_of environment).set ≡ lookup k (load first_of older).set)
              × (lookup k (load_from_env environment).set ≡ lookup k (load_from_env older).set)))
keygen-load_example =
    keygen-load "k1:s1" "k2" (255 ∷ 10 ∷ []) plain (refl, (refl, tt)) "jwtkeygen" [] first_of older
      environment given refl refl refl

-- A database that opens and gets its roles, and one account.
abbrev opening : Driver
opening = record {
  connect = λ name dsn. none;
  ping = none;
  source = λ url. none;
  instance = none;
  migrator = λ source database. none;
  up = λ t. (none, record t { roles = two_roles.tables.roles });
}

abbrev one_account : Host
one_account = record {
  db = record two_roles {
    tables = record two_roles.tables {
      users = record { id = pos 7; email = "a@b.c"; password_hash = "" } ∷ [];
      roles = [];
    };
  };
  actions = [];
}

abbrev loaded : Result String (Config (Unit {0}))
loaded = ok config

abbrev seeding : Ended × Host
seeding =
    SeedAdmin.main plain_mysql (λ e. "failed") opening loaded ("seed-admin" ∷ "a@b.c" ∷ [])
      one_account

main-IsSeeded_example :
    ((message : String) × (loaded ≡ err message) × (seeding ≡ (panicked message, one_account)))
    ⊎ ((cfg : Config (Unit {0})) × (loaded ≡ ok cfg)
        × IsSeeded plain_mysql
            (λ e. "failed")
            "a@b.c"
            seeding.0
            (SeedAdmin.opened plain_mysql (λ e. "failed") opening one_account cfg)
            seeding.1.db)
main-IsSeeded_example =
    main-IsSeeded plain_mysql (λ e. "failed") opening one_account loaded "seed-admin" "a@b.c" []

-- The server answers a request and its port is then lost.
abbrev started : Process Memory
started = record { world = world; actions = [] }

main-pools_example :
    IsBalanced opening environment
      (λ o. plain_redis)
      site
      started
      (Api.main opening environment
        (λ o. plain_redis)
        site
        (ok config)
        ((at, deleting) ∷ [])
        (some "lost")
        started).1
    ⊎ ((e : String) × ((Api.main opening environment
            (λ o. plain_redis)
            site
            (ok config)
            ((at, deleting) ∷ [])
            (some "lost")
            started).0
          ≡ fatal ("http: " ++ e))
        × (some "lost" ≡ some e)
        × (opens
                (Api.main opening environment
                  (λ o. plain_redis)
                  site
                  (ok config)
                  ((at, deleting) ∷ [])
                  (some "lost")
                  started).1.actions
              + closes started.actions
            ≡ suc (
                opens started.actions
                + closes
                    (Api.main opening environment
                      (λ o. plain_redis)
                      site
                      (ok config)
                      ((at, deleting) ∷ [])
                      (some "lost")
                      started).1.actions)))
main-pools_example =
    main-pools opening environment (λ o. plain_redis) site (ok config) ((at, deleting) ∷ [])
      (some "lost") started
