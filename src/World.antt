-- ===== src/World.antt =====
-- The state that the handlers share: the database, a Redis server with the state `S`, and what the
-- registry of metrics and the log have been told of requests.
use go_notes_api.Base.{Call, List, String, ℕ}
use go_notes_api.Base.Int.{ℤ}
use go_notes_api.Schema.{Db}

-- A value of http_request_duration_seconds with its labels route, method and status.
pub record Observation : Type 0 where
  pub route : String
  pub method : String
  pub status : ℕ
  pub took : ℤ

-- The attributes of a record "http" of the log.
pub record HttpLine : Type 0 where
  pub rid : String
  pub method : String
  pub path : String
  pub ip : String
  pub status : ℕ
  pub dur : ℤ
  pub bytes : ℤ

pub data Report : Type 0 where
  observation : Observation → Report
  http_line : HttpLine → Report

pub record World (S : Type 0) : Type 0 where
  pub db : Db
  pub store : S
  pub observed : List Report

module _ {S A : Type 0} where
  abbrev pub on_db : Call Db A → Call (World S) A
  on_db m w = let (a, db) = m w.db in (a, record w { db = db })

  abbrev pub on_store : Call S A → Call (World S) A
  on_store m w = let (a, store) = m w.store in (a, record w { store = store })
