-- ===== src/Handlers/Admin/Keeping.antt =====
-- internal/handlers/admin_*.go: a property of the tables that the repositories keep.
use go_notes_api.Base.{arith, ℕ, List, Option-cases, Bool-cases, inl, inr, ◌==◌, eq_of_text}
use go_notes_api.Base.Int.{ℤ}
use go_notes_api.Base.Text.{parse_int}
use go_notes_api.Schema.{Tables, Db}
use go_notes_api.Http.{Request, parsed_id}
use go_notes_api.Sql.{Mysql}
use go_notes_api.Repos.Users
use go_notes_api.Repos.Roles
use go_notes_api.Repos.Audit
use go_notes_api.Repos.Closed.{IsClosed, HasAdmin, along}
use go_notes_api.Handlers.Admin.{AdminCodec, list_users, post_role, list_audit}

module _ (mysql : Mysql) (Q : ℤ → Type 0) (B : List ℕ → Type 0) (K : Tables → Type 0)
    (closed : IsClosed mysql Q B K) (codec : AdminCodec) (r : Request) (db : Db)
    (h : K db.tables) where
  pub list_users_keeps : K (list_users codec mysql r db).1.tables
  unfolding list_users Users.list
  list_users_keeps = along K {t = db.tables} (ground arith) h

  pub list_audit_keeps : (now : ℤ) → K (list_audit codec now r db).1.tables
  unfolding list_audit Audit.list
  list_audit_keeps now = along K {t = db.tables} (ground arith) h

  pub post_role_keeps : HasAdmin mysql db.tables → K (post_role codec mysql r db).1.tables
  unfolding post_role
  post_role_keeps by = elim (Option-cases (parsed_id (parse_int (r.param "id")))) [
    | inl missing ↦ along K {t = db.tables} (ground arith) h
    | inr (id, named) ↦ elim (Option-cases (codec.decode_action r.body)) [
      | inl bad ↦ along K {t = db.tables} (ground arith) h
      | inr ((action, role), decoded) ↦ elim (Bool-cases (action == "add")) [
        | inl adding ↦
            along K {t = (Roles.assign mysql id role db).1.tables} (ground arith)
              (closed.grants.assign id role db by h)
        | inr other ↦ elim (Bool-cases (action == "remove")) [
          | inl removing ↦
              along K {t = (Roles.unassign mysql id role db).1.tables} (ground arith)
                (closed.grants.unassign id role db by h)
          | inr unknown ↦ along K {t = db.tables} (ground arith) h
        ]
      ]
    ]
  ]
