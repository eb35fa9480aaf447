-- ===== src/Commands/SeedAdmin.antt =====
-- cmd/seed-admin/main.go: an account becomes an administrator. The five seconds of its context are one
-- of the reasons for which a statement may fail.
use Prim.Native.String.{◌++◌}
use go_notes_api.Base.{
  ◌≡◌, ◌≢◌, ◌⊎◌, refl, inl, inr, ℕ, List, ◌∷◌, ok, err, Result, Result-cases, String, Call, pure,
  ◌>>=◌, on_result, arith, true, false, ap, ◌∙◌, sym, subst, ◌+◌, Bool-cases,
}
use go_notes_api.Base.Int.{ℤ}
use go_notes_api.Schema.{User, Db}
use go_notes_api.Sql.{Mysql, SqlError, query, called}
use go_notes_api.Config.{Config}
use go_notes_api.Commands.Ended.{Ended, finished, fatal, panicked}
use go_notes_api.Connection.{Driver, Action, Pool, open_and_migrate}
use go_notes_api.Repos.Users
use go_notes_api.Repos.Roles
use go_notes_api.Repos.Roles.Grants.{assign-has}

-- The database, and what was done to the pool.
pub record Host : Type 0 where
  pub db : Db
  pub actions : List Action

abbrev pool_of : Host → Pool
pool_of host = record { actions = host.actions; tables = host.db.tables }

abbrev with_pool : Host → Pool → Host
with_pool host pool = record {
  db = record host.db { tables = pool.tables };
  actions = pool.actions;
}

-- main, once the database is open
unfoldable pub seed_admin : Mysql → (SqlError → String) → String → Call Db Ended
seed_admin mysql describe email = do
  found ← Users.find_by_email mysql email
  on_result found (λ e. pure (fatal ("kullanıcı yok: " ++ describe e)))
      λ u. do
        assigned ← Roles.assign mysql u.id "admin"
        pure (
            on_result assigned (λ e. fatal (describe e))
              (λ _. finished ("ok: admin atandı → " ++ (email ++ "\n"))))

-- main, where `loaded` is what config.Load gives
unfoldable pub main :
    {F : Type 0}
    → Mysql
    → (SqlError → String)
    → Driver
    → Result String (Config F)
    → List String
    → Call Host Ended
main mysql describe driver loaded (name ∷ email ∷ more) host = elim loaded [
  | err message ↦ (panicked message, host)
  | ok cfg ↦
      let (opened, pool) = open_and_migrate driver cfg.db_dsn (pool_of host) in
      on_result opened (λ e. (fatal e, with_pool host pool))
        (λ _.
          let (ended, db) = seed_admin mysql describe email (with_pool host pool).db in
          (ended, record { db = db; actions = pool.actions }))
]
main mysql describe driver loaded args host = (fatal "kullanım: seed-admin <email>", host)

-- The same database, where no statement fails.
abbrev pub reliable : Db → Db
reliable db = record db { fails = λ n. false }

module _ (mysql : Mysql) (describe : SqlError → String) where
  -- The account has got the role, and nothing else has changed.
  abbrev pub IsGranted : ℤ → Db → Db → Type 0
  IsGranted uid before after =
      ((Roles.assign mysql uid "admin" (reliable before)).0 ≡ ok tt)
      × (after.tables ≡ (Roles.assign mysql uid "admin" (reliable before)).1.tables)

  -- It has printed its message and the account is an administrator; or it has not, and no table has
  -- changed but for the role, whose INSERT was carried out without an answer.
  abbrev pub IsSeeded : String → Ended → Db → Db → Type 0
  IsSeeded email ended before after =
      ((u : User) × ((Users.find_by_email mysql email before).0 ≡ ok u)
        × (ended ≡ finished ("ok: admin atandı → " ++ (email ++ "\n")))
        × IsGranted u.id before after
        × (((n : ℕ) → before.fails n ≡ false) → (Roles.has mysql u.id "admin" after).0 ≡ ok true))
      ⊎ (((said : String) → ended ≢ finished said)
          × ((after.tables ≡ before.tables)
              ⊎ ((u : User) × ((Users.find_by_email mysql email before).0 ≡ ok u)
                  × IsGranted u.id before after)))

  assign-eq-ok :
      (uid : ℤ) (before db : Db)
      → db.tables ≡ before.tables
      → (Roles.assign mysql uid "admin" db).0 ≡ ok tt
      → IsGranted uid before (Roles.assign mysql uid "admin" db).1
  unfolding Roles.assign
  assign-eq-ok uid before db same h = (ground arith, ground arith)

  assign-eq-err :
      (uid : ℤ) (before db : Db) (e : SqlError)
      → db.tables ≡ before.tables
      → (Roles.assign mysql uid "admin" db).0 ≡ err e
      → ((Roles.assign mysql uid "admin" db).1.tables ≡ before.tables)
        ⊎ IsGranted uid before (Roles.assign mysql uid "admin" db).1
  unfolding Roles.assign
  assign-eq-err uid before db e same h = elim (Bool-cases (db.fails db.calls)) [
    | inl lost ↦ inl (ground arith)
    | inr read ↦ elim (Bool-cases (db.fails (db.calls + 1))) [
      | inr sent ↦ inl (ground arith)
      | inl lost ↦ elim (Result-cases (Roles.select_role mysql "admin" db.tables)) [
        | inl (e', missing) ↦ inl (ground arith)
        | inr (o, found) ↦ elim (Bool-cases (db.kept (db.calls + 1))) [
          | inl kept ↦ inr (ground arith, ground arith)
          | inr dropped ↦ inl (ground arith)
        ]
      ]
    ]
  ]

  seed_admin-IsSeeded :
      (email : String) (db : Db)
      → IsSeeded email
          (seed_admin mysql describe email db).0
          db
          (seed_admin mysql describe email db).1
  unfolding seed_admin Users.find_by_email query
  seed_admin-IsSeeded email db = elim (Result-cases (Users.find_by_email mysql email db).0) [
    | inl (e, missing) ↦ inr ((λ said e. ground arith), inl (ground arith))
    | inr (u, found) ↦ elim (Result-cases (Roles.assign mysql u.id "admin" (called db)).0) [
      | inl (e, refused) ↦
          let run : (seed_admin mysql describe email db).1
              ≡ (Roles.assign mysql u.id "admin" (called db)).1 =
            ground arith in
          inr (
            (λ said e. ground arith),
            elim (assign-eq-err u.id db (called db) e refl refused) [
              | inl same ↦ inl (ap (λ (d : Db). d.tables) run ∙ same)
              | inr (done, granted) ↦
                  inr (u, found, (done, ap (λ (d : Db). d.tables) run ∙ granted))
            ],
          )
      | inr (done, assigned) ↦
          let run : (seed_admin mysql describe email db).1
              ≡ (Roles.assign mysql u.id "admin" (called db)).1 =
            ground arith in
          let (answered, granted) = assign-eq-ok u.id db (called db) refl assigned in
          inl (
            u,
            found,
            ground arith,
            (answered, ap (λ (d : Db). d.tables) run ∙ granted),
            λ healthy.
                let has = assign-has mysql u.id "admin" (called db) healthy assigned in
                ground arith,
          )
    ]
  ]

  module _ {F : Type 0} (driver : Driver) (host : Host) where
    -- The database once OpenAndMigrate has ended.
    abbrev pub opened : Config F → Db
    opened cfg = (with_pool host (open_and_migrate driver cfg.db_dsn (pool_of host)).1).db

    -- However seed-admin ends when it is given an email address, whatever the connection, the
    -- migrations and the statements do: it panics in Load and does nothing; or, on the tables that
    -- OpenAndMigrate leaves, FindByEmail finds an account, the program prints its message, the role
    -- admin of the account is the only change, and Has finds it if no statement fails; or it does
    -- not print the message, and no table has changed but for that role, whose INSERT the server
    -- then carried out without an answer.
    pub main-IsSeeded :
        (loaded : Result String (Config F)) (name email : String) (more : List String)
        → ((message : String) × (loaded ≡ err message)
            × (main mysql describe driver loaded (name ∷ email ∷ more) host
                ≡ (panicked message, host)))
          ⊎ ((cfg : Config F) × (loaded ≡ ok cfg)
              × IsSeeded email
                  (main mysql describe driver loaded (name ∷ email ∷ more) host).0
                  (opened cfg)
                  (main mysql describe driver loaded (name ∷ email ∷ more) host).1.db)
    unfolding main
    main-IsSeeded (err message) name email more = inl (message, refl, refl)
    main-IsSeeded (ok cfg) name email more =
        elim (Result-cases (open_and_migrate driver cfg.db_dsn (pool_of host)).0) [
          | inl (e, closed) ↦ inr (cfg, refl, inr ((λ said h. ground arith), inl (ground arith)))
          | inr (done, up) ↦
              let run : (main mysql describe driver (ok cfg) (name ∷ email ∷ more) host) ≡ (
                (seed_admin mysql describe email (opened cfg)).0,
                record {
                  db = (seed_admin mysql describe email (opened cfg)).1;
                  actions = (open_and_migrate driver cfg.db_dsn (pool_of host)).1.actions;
                },
              ) =
                ground arith in
              inr (
                cfg,
                refl,
                subst (λ (end : Ended × Host). IsSeeded email end.0 (opened cfg) end.1.db) (sym run)
                    (seed_admin-IsSeeded email (opened cfg)),
              )
        ]
