-- ===== src/Handlers/Notes.antt =====
-- internal/handlers/notes.go: the handlers of /notes. `now` is the time of the request.
pub mod Runs
pub mod Keeping
pub mod Retry
pub mod Conflicts
pub mod Caching
mod Tests
use Prim.Native.String.{◌++◌}
use go_notes_api.Base.{
  ◌&&◌, ◌||◌, Bool, true, false, not, ℕ, none, some, Option, List, [], ◌∷◌, String, Result, ok, err,
  Call, pure, ◌>>=◌, ◌>>◌, on_result, ◌==◌, eq_of_text, if◌then◌else◌, length, take,
}
use go_notes_api.Base.Int.{ℤ, pos, negsuc, int_lt, eq_of_int}
use go_notes_api.Base.Text.{
  Parsed, number, bad_syntax, out_of_range, value_of, parse_int, trim_space, format_int, hex, hex32,
  utf8,
}
use go_notes_api.Schema.{Note, Db}
use go_notes_api.Http.{parsed_id, Request, Response, user_id, empty_response, set_header}
use go_notes_api.Errors.{
  app, app_error, bad_request, not_found, conflict, write, ErrorJson, AppError,
}
use go_notes_api.Sql.{Mysql}
use go_notes_api.Repos.Notes as Repo
use go_notes_api.Repos.Notes.{Listing, clamp_page, clamp_size}
use go_notes_api.Repos.Idempotency.{ClaimError, mismatch, in_progress, sql}
use go_notes_api.Repos.IdempotencyGeneric

-- struct{ Title, Body string }
pub record NoteInput : Type 0 where
  pub title : String
  pub body : String

-- What the handlers use of encoding/json, crypto/sha256, hash/crc32 and the tables of Unicode.
pub record Codec : Type 0 where
  pub decode_note : List ℕ → Option NoteInput
  pub note_json : Note → String
  pub listing_json : Listing → ℤ → ℤ → String
  pub error_json : ErrorJson
  pub sha256 : List ℕ → List ℕ
  pub crc32 : List ℕ → ℕ
  pub to_lower : String → String
  pub describe : ClaimError → String

-- time.Time{}.Unix(): the year 1
abbrev pub zero_time : ℤ
zero_time = negsuc 62135596799

-- The loop of collETag over the items.
unfoldable pub max_id : ℤ → List Note → ℤ
max_id most [] = most
max_id most (n ∷ ns) = max_id (if int_lt most n.id then n.id else most) ns

module _ (codec : Codec) where
  open codec use {
    decode_note, note_json, listing_json, error_json, sha256, crc32, to_lower, describe,
  }

  unfoldable pub coll_etag : ℤ → ℤ → String → String → List Note → String
  coll_etag page size q sort items =
      let sum = crc32 (utf8 (to_lower q ++ ("|" ++ sort))) in
      "W/\"notes-"
      ++ (format_int (max_id (pos 0) items)
          ++ ("-"
              ++ (format_int (pos (length items))
                  ++ ("-"
                      ++ (format_int page
                          ++ ("-" ++ (format_int size ++ ("-" ++ (hex32 sum ++ "\"")))))))))

  unfoldable pub note_etag : Note → String
  note_etag n =
      let ts = if n.updated_at == zero_time then n.created_at else n.updated_at in
      let h = sha256 (utf8 (n.title ++ ("|" ++ n.body))) in
      "W/\"n-" ++ (format_int n.id ++ ("-" ++ (format_int ts ++ ("-" ++ (hex (take 4 h) ++ "\"")))))

  abbrev pub fail : Request → AppError → Response
  fail r e = write error_json r (app e)

  abbrev pub db_error : ClaimError → AppError
  db_error e = app_error 500 "db_error" "db error" (some (describe e)) []

  -- `w.Write(body)` after the headers: the status is 200. An encoder ends its text by a newline.
  abbrev pub reply : String → Response
  reply body = record { status = 200; headers = []; body = body }

  abbrev pub encode : String → Response
  encode json = reply (json ++ "\n")

  -- `if inm := …; inm != "" && inm == etag { 304 }`, else the reply with its ETag
  unfoldable pub conditional : Request → String → Response → Response
  conditional r etag full =
      if not (r.header "If-None-Match" == "") && r.header "If-None-Match" == etag
      then empty_response 304
      else set_header "Cache-Control" "private, max-age=0, must-revalidate"
          (set_header "ETag" etag full)

  module _ (mysql : Mysql) where
    unfoldable pub list : Request → Call Db Response
    list r = do
      let page = clamp_page (value_of (parse_int (r.query "page")))
      let size = clamp_size (value_of (parse_int (r.query "size")))
      let q = r.query "q"
      let sort = r.query "sort"
      found ← Repo.list_filtered mysql (user_id r) page size q sort
      pure (
          on_result found (λ e. fail r (db_error (sql e)))
            (λ l.
              conditional r (coll_etag page size q sort l.items)
                (encode (listing_json l page size))))

    -- The switch on the error of Claim.
    unfoldable pub refused : Request → ClaimError → Response
    refused r mismatch = fail r conflict
    refused r in_progress = set_header "Retry-After" "2" (fail r conflict)
    refused r (sql e) =
        fail r (app_error 500 "idem_error" "idempotency error" (some (describe (sql e))) [])

    unfoldable pub replayed : String → Response
    replayed res = set_header "Content-Type" "application/json" (reply res)

    -- `if key != "" { … Claim … }`, and then the rest of the handler if the key was granted.
    unfoldable pub claiming :
        Request → String → String → ℤ → String → ℤ → Call Db Response → Call Db Response
    claiming r key method id hash now rest = if key == "" then rest else do
      claimed ←
          IdempotencyGeneric.claim mysql key (user_id r) method ("/notes/" ++ format_int id) hash
            now
      on_result claimed (λ e. pure (refused r e))
          λ res. elim res [ some text ↦ pure (replayed text) | none ↦ rest ]

    -- The response of a note, completed under the key.
    unfoldable pub finish : Request → String → ℤ → Note → Call Db Response
    finish r key now n =
        let resp = note_json n in
        let full = set_header "ETag" (note_etag n) (reply resp) in
        if key == ""
        then pure full
        else do IdempotencyGeneric.complete mysql key (user_id r) resp now; pure full

    unfoldable pub update_claimed : Request → String → ℤ → NoteInput → ℤ → Call Db Response
    update_claimed r key id input now = do
      updated ← Repo.update (user_id r) id (trim_space input.title) input.body now
      on_result updated (λ e. pure (fail r not_found)) (λ n. finish r key now n)

    unfoldable pub update : Request → ℤ → Call Db Response
    update r now = elim (parsed_id (parse_int (r.param "id"))) [
      | none ↦ pure (fail r bad_request)
      | some id ↦
          let key = r.header "Idempotency-Key" in
          let raw = if key == "" then r.body else take 1048576 r.body in
          elim (decode_note raw) [
            | none ↦ pure (fail r bad_request)
            | some input ↦
                claiming r key "PUT" id (hex (sha256 raw)) now (update_claimed r key id input now)
          ]
    ]

    unfoldable pub delete_claimed : Request → String → ℤ → ℤ → Call Db Response
    delete_claimed r key id now = do
      deleted ← Repo.delete (user_id r) id now
      on_result deleted (λ e. pure (fail r not_found)) (λ n. finish r key now n)

    unfoldable pub delete : Request → ℤ → Call Db Response
    delete r now = elim (parsed_id (parse_int (r.param "id"))) [
      | none ↦ pure (fail r bad_request)
      | some id ↦
          let key = r.header "Idempotency-Key" in
          claiming r key "DELETE" id "delete" now (delete_claimed r key id now)
    ]

  unfoldable pub get : Request → Call Db Response
  get r = elim (parsed_id (parse_int (r.param "id"))) [
    | none ↦ pure (fail r bad_request)
    | some id ↦ do
      found ← Repo.get (user_id r) id
      pure (
          on_result found (λ _. fail r not_found)
            (λ n. conditional r (note_etag n) (encode (note_json n))))
  ]

  unfoldable pub create_note : Request → NoteInput → ℤ → Call Db Response
  create_note r input now = do
    created ← Repo.create (user_id r) (trim_space input.title) input.body now
    on_result created (λ e. pure (fail r (db_error (sql e))))
        λ id. do
          found ← Repo.get (user_id r) id
          pure (
              on_result found (λ e. fail r (db_error (sql e)))
                (λ n. set_header "ETag" (note_etag n) (encode (note_json n))))

  unfoldable pub create : Request → ℤ → Call Db Response
  create r now = elim (decode_note r.body) [
    | none ↦ pure (fail r bad_request)
    | some input ↦
        if trim_space input.title == "" then pure (fail r bad_request) else create_note r input now
  ]
