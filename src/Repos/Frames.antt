-- ===== src/Repos/Frames.antt =====
-- internal/repos: the tables that an operation leaves alone.
use go_notes_api.Base.{◌≡◌, arith, String}
use go_notes_api.Base.Int.{ℤ}
use go_notes_api.Schema.{Db}
use go_notes_api.Sql.{Mysql}
use go_notes_api.Repos.Notes
use go_notes_api.Repos.Roles
use go_notes_api.Repos.Users
use go_notes_api.Repos.IdempotencyGeneric

module _ (mysql : Mysql) (d : Db) where
  pub claim-frame :
      (key : String) (uid : ℤ) (method path hash : String) (now : ℤ)
      → let t = (IdempotencyGeneric.claim mysql key uid method path hash now d).1.tables in
        t ≡ record d.tables { idempotency_keys = t.idempotency_keys }
  unfolding IdempotencyGeneric.claim
  claim-frame key uid method path hash now = ground arith

  pub complete-frame :
      (key : String) (uid : ℤ) (res : String) (now : ℤ)
      → let t = (IdempotencyGeneric.complete mysql key uid res now d).1.tables in
        t ≡ record d.tables { idempotency_keys = t.idempotency_keys }
  unfolding IdempotencyGeneric.complete
  complete-frame key uid res now = ground arith

  pub create-frame :
      (uid : ℤ) (title body : String) (now : ℤ)
      → let t = (Notes.create uid title body now d).1.tables in
        t ≡ record d.tables { notes = t.notes; next_note = t.next_note }
  unfolding Notes.create
  create-frame uid title body now = ground arith

  pub update-frame :
      (uid id : ℤ) (title body : String) (now : ℤ)
      → let t = (Notes.update uid id title body now d).1.tables in
        t ≡ record d.tables { notes = t.notes; next_note = t.next_note }
  unfolding Notes.update
  update-frame uid id title body now = ground arith

  pub delete-frame :
      (uid id now : ℤ)
      → let t = (Notes.delete uid id now d).1.tables in
        t ≡ record d.tables { notes = t.notes; next_note = t.next_note }
  unfolding Notes.delete
  delete-frame uid id now = ground arith

  pub enrol-frame :
      (email hash : String)
      → let t = (Users.create mysql email hash d).1.tables in
        t ≡ record d.tables { users = t.users; next_user = t.next_user }
  unfolding Users.create
  enrol-frame email hash = ground arith

  pub assign-frame :
      (uid : ℤ) (role : String)
      → let t = (Roles.assign mysql uid role d).1.tables in
        t ≡ record d.tables { user_roles = t.user_roles }
  unfolding Roles.assign
  assign-frame uid role = ground arith

  pub unassign-frame :
      (uid : ℤ) (role : String)
      → let t = (Roles.unassign mysql uid role d).1.tables in
        t ≡ record d.tables { user_roles = t.user_roles }
  unfolding Roles.unassign
  unassign-frame uid role = ground arith
