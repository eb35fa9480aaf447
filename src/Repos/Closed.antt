-- ===== src/Repos/Closed.antt =====
-- internal/repos: properties of the tables that each operation of the repositories keeps.
use go_notes_api.Base.{◌≡◌, ◌<◌, sym, subst, String, List, ℕ}
use go_notes_api.Base.Int.{ℤ}
use go_notes_api.Schema.{Note, User, UserRole, RefreshToken, AuditLog, IdempotencyKey, Tables, Db}
use go_notes_api.Sql.{Mysql}
use go_notes_api.Repos.Notes
use go_notes_api.Repos.Roles
use go_notes_api.Repos.Users
use go_notes_api.Repos.RefreshTokens
use go_notes_api.Repos.IdempotencyGeneric
use go_notes_api.Repos.RefreshTokens.Frames.{issue-frame, rotate-frame, revoke-frame}
use go_notes_api.Repos.Frames.{
  claim-frame, complete-frame, create-frame, update-frame, delete-frame, enrol-frame, assign-frame,
  unassign-frame,
}

pub along : (K : Tables → Type 0) {t u : Tables} → u ≡ t → K t → K u
along K same k = subst K (sym same) k

-- The operations on the notes of the users in `Q`.
pub record KeepsNotes (Q : ℤ → Type 0) (K : Tables → Type 0) : Type 0 where
  pub create :
      (uid : ℤ) (title body : String) (now : ℤ) (d : Db)
      → Q uid
      → K d.tables
      → K (Notes.create uid title body now d).1.tables
  pub update :
      (uid id : ℤ) (title body : String) (now : ℤ) (d : Db)
      → Q uid
      → K d.tables
      → K (Notes.update uid id title body now d).1.tables
  pub delete :
      (uid id now : ℤ) (d : Db) → Q uid → K d.tables → K (Notes.delete uid id now d).1.tables

-- Those on refresh tokens, where new ones are made of the random bytes in `B`.
pub record KeepsTokens (mysql : Mysql) (B : List ℕ → Type 0) (K : Tables → Type 0) : Type 0 where
  pub issue :
      (b : List ℕ) (uid exp : ℤ) (d : Db)
      → B b
      → K d.tables
      → K (RefreshTokens.issue mysql b uid exp d).1.tables
  pub rotate :
      (token : String) (exp : ℤ) (b : List ℕ) (now : ℤ) (d : Db)
      → B b
      → K d.tables
      → K (RefreshTokens.use_and_rotate mysql token exp b now d).1.tables
  pub revoke :
      (token : String) (d : Db) → K d.tables → K (RefreshTokens.revoke mysql token d).1.tables

pub record KeepsUsers (mysql : Mysql) (K : Tables → Type 0) : Type 0 where
  pub create :
      (email hash : String) (d : Db) → K d.tables → K (Users.create mysql email hash d).1.tables

-- Some user has the role admin.
abbrev pub HasAdmin : Mysql → Tables → Type 0
HasAdmin mysql t = (by : ℤ) × (0 < Roles.joined mysql by "admin" t.roles t.user_roles)

-- The role that an account starts with, and any change where some user has the role admin.
pub record KeepsGrants (mysql : Mysql) (K : Tables → Type 0) : Type 0 where
  pub join : (uid : ℤ) (d : Db) → K d.tables → K (Roles.assign mysql uid "user" d).1.tables
  pub assign :
      (uid : ℤ) (role : String) (d : Db)
      → HasAdmin mysql d.tables
      → K d.tables
      → K (Roles.assign mysql uid role d).1.tables
  pub unassign :
      (uid : ℤ) (role : String) (d : Db)
      → HasAdmin mysql d.tables
      → K d.tables
      → K (Roles.unassign mysql uid role d).1.tables

pub record KeepsKeys (mysql : Mysql) (K : Tables → Type 0) : Type 0 where
  pub claim :
      (key : String) (uid : ℤ) (method path hash : String) (now : ℤ) (d : Db)
      → K d.tables
      → K (IdempotencyGeneric.claim mysql key uid method path hash now d).1.tables
  pub complete :
      (key : String) (uid : ℤ) (res : String) (now : ℤ) (d : Db)
      → K d.tables
      → K (IdempotencyGeneric.complete mysql key uid res now d).1.tables

-- A property that all of them keep, and the rows of the audit log.
pub record IsClosed (mysql : Mysql) (Q : ℤ → Type 0) (B : List ℕ → Type 0) (K : Tables → Type 0)
    : Type 0 where
  pub notes : KeepsNotes Q K
  pub tokens : KeepsTokens mysql B K
  pub users : KeepsUsers mysql K
  pub grants : KeepsGrants mysql K
  pub keys : KeepsKeys mysql K
  pub log :
      (t : Tables) (rows : List AuditLog) (n : ℕ)
      → K t
      → K (record t { audit_logs = rows; next_audit = n })

-- A property that a table has no part in.
module _ (mysql : Mysql) (K : Tables → Type 0) where
  pub no_notes :
      {Q : ℤ → Type 0}
      → ((t : Tables) (rows : List Note) (n : ℕ)
          → K t
          → K (record t { notes = rows; next_note = n }))
      → KeepsNotes Q K
  no_notes free = record {
    create = λ uid title body now d q k.
        along K (create-frame mysql d uid title body now) (free _ _ _ k);
    update = λ uid id title body now d q k.
        along K (update-frame mysql d uid id title body now) (free _ _ _ k);
    delete = λ uid id now d q k. along K (delete-frame mysql d uid id now) (free _ _ _ k);
  }

  pub no_tokens :
      {B : List ℕ → Type 0}
      → ((t : Tables) (rows : List RefreshToken) → K t → K (record t { refresh_tokens = rows }))
      → KeepsTokens mysql B K
  no_tokens free = record {
    issue = λ b uid exp d fresh k. along K (issue-frame mysql d b uid exp) (free _ _ k);
    rotate =
        λ token exp b now d fresh k. along K (rotate-frame mysql d token exp b now) (free _ _ k);
    revoke = λ token d k. along K (revoke-frame mysql d token) (free _ _ k);
  }

  pub no_users :
      ((t : Tables) (rows : List User) (n : ℕ) → K t → K (record t { users = rows; next_user = n }))
      → KeepsUsers mysql K
  no_users free = record {
    create = λ email hash d k. along K (enrol-frame mysql d email hash) (free _ _ _ k);
  }

  pub no_grants :
      ((t : Tables) (rows : List UserRole) → K t → K (record t { user_roles = rows }))
      → KeepsGrants mysql K
  no_grants free = record {
    join = λ uid d k. along K (assign-frame mysql d uid "user") (free _ _ k);
    assign = λ uid role d by k. along K (assign-frame mysql d uid role) (free _ _ k);
    unassign = λ uid role d by k. along K (unassign-frame mysql d uid role) (free _ _ k);
  }

  pub no_keys :
      ((t : Tables) (rows : List IdempotencyKey) → K t → K (record t { idempotency_keys = rows }))
      → KeepsKeys mysql K
  no_keys free = record {
    claim = λ key uid method path hash now d k.
        along K (claim-frame mysql d key uid method path hash now) (free _ _ k);
    complete = λ key uid res now d k. along K (complete-frame mysql d key uid res now) (free _ _ k);
  }
