-- ===== src/Handlers/Admin.antt =====
-- internal/handlers/admin_users.go, admin_roles.go, admin_audit.go and admin_jti.go. `now` is the time
-- of the request.
pub mod Keeping
pub mod Grants
pub mod Revocation
mod Tests
use go_notes_api.Base.{
  ◌&&◌, ◌||◌, Bool, true, false, not, leb, ltb, ℕ, ◌/◌, none, some, Option, List, [], ◌∷◌, String,
  Result, ok, err, Call, pure, ◌>>=◌, on_result, ◌==◌, eq_of_text, if◌then◌else◌, map,
}
use go_notes_api.Base.Int.{ℤ, pos, negsuc, int_lt, ◌-ℤ◌, ◌*ℤ◌, eq_of_int}
use go_notes_api.Base.Text.{Parsed, parse_int, value_of, format_int}
use go_notes_api.Schema.{AuditLog, Db}
use go_notes_api.Http.{
  Request, Response, Handler, empty_response, set_header, http_error, encoded, parsed_id,
}
use go_notes_api.Errors.{app, app_error, bad_request, write, ErrorJson}
use go_notes_api.Sql.{Mysql}
use go_notes_api.Redis.{Redis}
use go_notes_api.Jti
use go_notes_api.Repos.Users
use go_notes_api.Repos.Users.{UserPage}
use go_notes_api.Repos.Roles
use go_notes_api.Repos.Audit

-- What the handlers use of encoding/json, encoding/csv and time: the codes of requests and answers,
-- the texts of times by RFC 3339, and the text of an error of Redis.
pub record AdminCodec : Type 0 where
  pub decode_action : List ℕ → Option (String × String)
  pub decode_revocation : List ℕ → Option (String × ℤ)
  pub users_json : UserPage → ℤ → ℤ → String
  pub audit_json : ℤ → ℤ → ℤ → List AuditLog → String
  pub csv : List (List String) → String
  pub parse_time : String → Option ℤ
  pub format_time : ℤ → String
  pub error_json : ErrorJson
  pub store_error : String

-- The time of a parameter: if it is there and parses, else another.
unfoldable pub time_or : (String → Option ℤ) → String → ℤ → ℤ
time_or parse s other = if s == "" then other else elim (parse s) [ none ↦ other | some t ↦ t ]

-- time.Duration(in.TTLsec) * time.Second in nanoseconds, or time.Hour if it is not positive
unfoldable pub revocation_ttl : ℤ → ℤ
revocation_ttl seconds =
    let ns = seconds *ℤ pos 1000000000 in if int_lt (pos 0) ns then ns else pos 3600000000000

-- A duration in whole seconds, as go-redis sends it with SETEX: at least one for what is positive
abbrev pub whole_seconds : ℤ → ℤ
whole_seconds ns = elim ns [
  | pos n ↦ if leb 1 n && ltb n 1000000000 then pos 1 else pos (n / 1000000000)
  | negsuc n ↦ pos 0
]

-- What AdminRoles.Post makes of the error of Assign or Unassign.
abbrev pub done : {E : Type 0} → Result E (Unit {0}) → Response
done res = on_result res (λ _. http_error "server" 500) (λ _. empty_response 204)

module _ (codec : AdminCodec) where
  open codec use {
    decode_action, decode_revocation, users_json, audit_json, csv, parse_time, format_time,
    error_json, store_error,
  }

  -- AdminUsers.List
  unfoldable pub list_users : Mysql → Handler Db
  list_users mysql r = do
    let page = value_of (parse_int (r.query "page"))
    let size = value_of (parse_int (r.query "size"))
    found ← Users.list mysql page size (r.query "q")
    pure (on_result found (λ _. http_error "server" 500) (λ l. encoded (users_json l page size)))

  -- AdminRoles.Post
  unfoldable pub post_role : Mysql → Handler Db
  post_role mysql r = elim (parsed_id (parse_int (r.param "id"))) [
    | none ↦ pure (http_error "bad id" 400)
    | some id ↦ elim (decode_action r.body) [
      | none ↦ pure (http_error "bad json" 400)
      | some (action, role) ↦
          if action == "add"
          then Roles.assign mysql id role >>= (λ res. pure (done res))
          else if action == "remove"
          then Roles.unassign mysql id role >>= (λ res. pure (done res))
          else pure (http_error "invalid action" 422)
    ]
  ]

  -- A row of the CSV file.
  unfoldable pub csv_row : AuditLog → List String
  csv_row a =
      format_int a.id
      ∷ elim a.user_id [ none ↦ "" | some uid ↦ format_int uid ]
      ∷ a.method
      ∷ a.path
      ∷ format_int (pos a.status)
      ∷ a.ip
      ∷ a.rid
      ∷ format_time a.created_at
      ∷ []

  abbrev csv_head : List String
  csv_head = "id" ∷ "user_id" ∷ "method" ∷ "path" ∷ "status" ∷ "ip" ∷ "rid" ∷ "created_at" ∷ []

  -- The limit and the times that AdminAudit.List asks for.
  unfoldable pub asked_limit : Request → ℤ
  asked_limit r =
      let limit = value_of (parse_int (r.query "limit")) in
      if limit == pos 0 then pos 100 else limit

  unfoldable pub asked_to : Request → ℤ → ℤ
  asked_to r now = time_or parse_time (r.query "to") now

  unfoldable pub asked_from : Request → ℤ → ℤ
  asked_from r now = time_or parse_time (r.query "from") (asked_to r now -ℤ pos 86400)

  -- The answer with the rows, as a file or as JSON.
  unfoldable pub audit_answer : Request → ℤ → List AuditLog → Response
  audit_answer r now rows =
      if r.query "format" == "csv"
      then record {
        status = 200;
        headers =
            ("Content-Disposition", "attachment; filename=\"audit.csv\"")
            ∷ ("Content-Type", "text/csv; charset=utf-8")
            ∷ [];
        body = csv (csv_head ∷ map csv_row rows);
      }
      else set_header "Content-Type" "application/json"
          (encoded (audit_json (asked_from r now) (asked_to r now) (asked_limit r) rows))

  -- AdminAudit.List
  unfoldable pub list_audit : ℤ → Handler Db
  list_audit now r = do
    found ← Audit.list (asked_from r now) (asked_to r now) (asked_limit r)
    pure (on_result found (λ _. http_error "server" 500) (audit_answer r now))

  -- AdminJTI.Revoke
  unfoldable pub revoke_jti : {S : Type 0} → Redis S → String → Handler S
  revoke_jti redis prefix r = elim (decode_revocation r.body) [
    | none ↦ pure (write error_json r (app bad_request))
    | some (jti, seconds) ↦ if jti == "" then pure (write error_json r (app bad_request)) else do
      sent ← Jti.revoke redis prefix jti (whole_seconds (revocation_ttl seconds))
      pure (
          if sent
          then empty_response 204
          else write error_json r
              (app (app_error 500 "revoke_failed" "revoke failed" (some store_error) [])))
  ]
