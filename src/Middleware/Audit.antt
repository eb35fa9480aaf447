-- ===== src/Middleware/Audit.antt =====
-- internal/middleware/audit.go: a row of the audit log for each request.
pub mod Rows
use go_notes_api.Base.{
  Bool, not, ◌&&◌, leb, if◌then◌else◌, err, ◌+◌, length, ok, some, List, ◌∷◌, String, ℕ, Result,
  Call, pure, ◌>>=◌, ◌>>◌,
}
use go_notes_api.Base.Int.{ℤ, pos}
use go_notes_api.Base.Text.{char_length, utf8}
use go_notes_api.Schema.{AuditLog, Tables, Db}
use go_notes_api.Http.{Request, Response, Handler, user_id}
use go_notes_api.Sql.{SqlError, bad_statement, Sql, exec}
use go_notes_api.World.{World, on_db}

-- The columns VARCHAR(10), TEXT (of at most 65,535 bytes) and VARCHAR(64) of migrations/0006_audit_logs.sql, in strict mode
abbrev pub fits : String → String → String → String → Bool
fits method path ip rid =
    leb (char_length method) 10
    && leb (length (utf8 path)) 65535
    && leb (char_length ip) 64
    && leb (char_length rid) 64

-- INSERT INTO audit_logs(user_id,method,path,status,ip,rid) VALUES(?,?,?,?,?,?)
unfoldable pub insert_audit :
    ℤ → String → String → ℕ → String → String → ℤ → Tables → Result SqlError Tables
insert_audit uid method path status ip rid now t =
    if not (fits method path ip rid)
    then err bad_statement
    else ok (record t {
      audit_logs =
          record {
            id = pos t.next_audit;
            user_id = some uid;
            method = method;
            path = path;
            status = status;
            ip = ip;
            rid = rid;
            created_at = now;
          }
          ∷ t.audit_logs;
      next_audit = t.next_audit + 1;
    })

-- Audit.Middleware: `split_host` is the host of net.SplitHostPort
unfoldable pub audit : {S : Type 0} → (String → String) → ℤ → Handler (World S) → Handler (World S)
audit split_host now next_handler r = do
  res ← next_handler r
  on_db (
      exec (
        insert_audit (user_id r) r.method r.path res.status (split_host r.remote_addr)
          (r.header "X-Request-ID") now))
  pure res
