-- ===== src/Schema.antt =====
-- The tables that the files of migrations/ leave behind, a record for a row and a list for a table,
-- and the database that the program shares. Identifiers are the BIGINT columns, times are seconds.
use go_notes_api.Base.{ℕ, String, Option, List, Bool}
use go_notes_api.Base.Int.{ℤ}

-- notes (0001, 0008); internal/repos/notes.go, type Note
pub record Note : Type 0 where
  pub id : ℤ
  pub user_id : ℤ
  pub title : String
  pub body : String
  pub created_at : ℤ
  pub updated_at : ℤ
  pub deleted_at : Option ℤ

-- users (0002)
pub record User : Type 0 where
  pub id : ℤ
  pub email : String
  pub password_hash : String

-- refresh_tokens (0003, 0004): `token` is the primary key
pub record RefreshToken : Type 0 where
  pub token : String
  pub user_id : ℤ
  pub expires_at : ℤ
  pub used_at : Option ℤ

-- roles and user_roles (0005)
pub record Role : Type 0 where
  pub id : ℤ
  pub name : String

pub record UserRole : Type 0 where
  pub user_id : ℤ
  pub role_id : ℤ

-- audit_logs (0006)
pub record AuditLog : Type 0 where
  pub id : ℤ
  pub user_id : Option ℤ
  pub method : String
  pub path : String
  pub status : ℕ
  pub ip : String
  pub rid : String
  pub created_at : ℤ

-- idempotency_keys (0007, 0009): `key` alone is the primary key. The CREATE TABLE IF NOT EXISTS of
-- 0010 finds the table there and changes nothing.
pub record IdempotencyKey : Type 0 where
  pub key : String
  pub user_id : ℤ
  pub method : String
  pub path : String
  pub body_sha256 : String
  pub note_id : Option ℤ
  pub claimed_at : ℤ
  pub completed_at : Option ℤ
  pub result_text : Option String

-- The rows of every table, and the next value of each AUTO_INCREMENT column.
pub record Tables : Type 0 where
  pub notes : List Note
  pub next_note : ℕ
  pub users : List User
  pub next_user : ℕ
  pub refresh_tokens : List RefreshToken
  pub roles : List Role
  pub user_roles : List UserRole
  pub audit_logs : List AuditLog
  pub next_audit : ℕ
  pub idempotency_keys : List IdempotencyKey

-- The database as the program meets it: its tables, and for each statement that is still to come
-- whether the connection fails it. Nothing is assumed of `fails` but what a theorem says.
pub record Db : Type 0 where
  pub tables : Tables
  pub open tables use *
  pub calls : ℕ
  pub fails : ℕ → Bool
  pub kept : ℕ → Bool
