-- ===== src/Connection.antt =====
-- internal/db/db.go: the pool of MySQL connections, and the migrations.
pub mod Pools
use go_notes_api.Base.{
  ℕ, none, some, Option, List, [], ◌∷◌, String, Result, ok, err, Call, pure, ◌>>=◌, ◌>>◌,
}
use go_notes_api.Schema.{Tables}

-- migrate.ErrNoChange, or any other error of Up
pub data UpError : Type 0 where
  no_change : UpError
  failed : String → UpError

-- What database/sql, golang-migrate and its MySQL driver and file source answer, the text of an error
-- if there is one, and what Up makes of the tables.
pub record Driver : Type 0 where
  pub connect : String → String → Option String
  pub ping : Option String
  pub source : String → Option String
  pub instance : Option String
  pub migrator : String → String → Option String
  pub up : Tables → Option UpError × Tables

-- What is done to the pool. The time of life is in seconds.
pub data Action : Type 0 where
  opened pinged closed migrated : Action
  limited : ℕ → ℕ → ℕ → Action

-- The actions so far, the latest first, and the tables.
pub record Pool : Type 0 where
  pub actions : List Action
  pub tables : Tables

abbrev pub act : Action → Call Pool (Unit {0})
act a pool = (tt, record pool { actions = a ∷ pool.actions })

-- m.Up(), which changes tables as the files of migrations say, and maybe some before it fails
abbrev pub migrate : Driver → Call Pool (Option UpError)
migrate driver pool =
    let (failure, tables) = driver.up pool.tables in
    (failure, record { actions = migrated ∷ pool.actions; tables = tables })

-- `if err != nil { sqlDB.Close(); return nil, nil, err }`, and then the rest
unfoldable pub closing :
    Option String → Call Pool (Result String (Unit {0})) → Call Pool (Result String (Unit {0}))
closing none rest = rest
closing (some e) rest = do act closed; pure (err e)

-- `err != nil && err != migrate.ErrNoChange`
unfoldable pub up_error : Option UpError → Option String
up_error none = none
up_error (some no_change) = none
up_error (some (failed e)) = some e

-- OpenAndMigrate, for the data source name of the configuration
unfoldable pub open_and_migrate : Driver → String → Call Pool (Result String (Unit {0}))
open_and_migrate driver dsn = elim (driver.connect "mysql" dsn) [
  | some e ↦ pure (err e)
  | none ↦ do
    act opened
    act (limited 10 5 3600)
    act pinged
    closing driver.ping (
        closing (driver.source "file://migrations") (
          closing driver.instance (
            closing (driver.migrator "file" "mysql")
              do failure ← migrate driver; closing (up_error failure) (pure (ok tt)))))
]
