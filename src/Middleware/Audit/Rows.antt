-- ===== src/Middleware/Audit/Rows.antt =====
-- internal/middleware/audit.go: the row that a request leaves.
use go_notes_api.Base.{
  ◌≡◌, not, ◌&&◌, ◌||◌, if◌then◌else◌, some, List, ◌∷◌, String, arith, Bool-cases, inl, inr,
}
use go_notes_api.Base.Int.{ℤ, pos}
use go_notes_api.Schema.{AuditLog, Db}
use go_notes_api.Http.{Request, Response, Handler, user_id}
use go_notes_api.Sql.{exec}
use go_notes_api.World.{World}
use go_notes_api.Middleware.Audit.{fits, insert_audit, audit}

module _ (split_host : String → String) (now : ℤ) (r : Request) where
  -- The row of a request, by the database that its handler leaves and the status of the answer.
  abbrev pub row_of : Db → Response → AuditLog
  row_of db res = record {
    id = pos db.next_audit;
    user_id = some (user_id r);
    method = r.method;
    path = r.path;
    status = res.status;
    ip = split_host r.remote_addr;
    rid = r.header "X-Request-ID";
    created_at = now;
  }

  -- The log after the INSERT, which may fail, carried out or not, and may not fit the columns.
  abbrev pub logged : Db → Response → List AuditLog
  logged db res =
      if (db.fails db.calls && not (db.kept db.calls))
        || not (fits r.method r.path (split_host r.remote_addr) (r.header "X-Request-ID"))
      then db.audit_logs
      else row_of db res ∷ db.audit_logs

  module _ {S : Type 0} (next_handler : Handler (World S)) (w : World S) where
    pub audit-logged :
        ((audit split_host now next_handler r w).0 ≡ (next_handler r w).0)
        × ((audit split_host now next_handler r w).1.db.audit_logs
            ≡ logged (next_handler r w).1.db (next_handler r w).0)
    unfolding audit insert_audit exec
    audit-logged =
        let db = (next_handler r w).1.db in
        elim (Bool-cases (db.fails db.calls)) [
          | inl lost ↦ elim (Bool-cases (db.kept db.calls)) [
            | inl kept ↦
                elim (Bool-cases
                  (fits r.method r.path (split_host r.remote_addr) (r.header "X-Request-ID"))) [
                    | inl fit ↦ (ground arith, ground arith)
                    | inr long ↦ (ground arith, ground arith)
                  ]
            | inr dropped ↦ (ground arith, ground arith)
          ]
          | inr sent ↦
              elim (Bool-cases
                (fits r.method r.path (split_host r.remote_addr) (r.header "X-Request-ID"))) [
                  | inl fit ↦ (ground arith, ground arith)
                  | inr long ↦ (ground arith, ground arith)
                ]
        ]
