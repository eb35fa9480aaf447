-- ===== src/Http.antt =====
-- What the handlers use of net/http and chi: a request as the router hands it over, and a response.
use go_notes_api.Base.{Call, ◌++◌, eq_of_text, ℕ, String, List, [], ◌∷◌, Option, none, some}
use Prim.Native.String
use go_notes_api.Base.Int.{ℤ, pos}
use go_notes_api.Base.Text.{after_prefix, Parsed, number, bad_syntax, out_of_range}

-- `header`, `query` and `param` are r.Header.Get, r.URL.Query().Get and chi.URLParam: "" for a name
-- that is not there. `user` is what AuthWith put into the context.
pub record Request : Type 0 where
  pub method : String
  pub path : String
  pub remote_addr : String
  pub header : String → String
  pub query : String → String
  pub param : String → String
  pub body : List ℕ
  pub user : Option ℤ
  pub content_length : ℤ

-- The headers that were set, the last one first.
pub record Response : Type 0 where
  pub status : ℕ
  pub headers : List (String × String)
  pub body : String

-- internal/middleware/auth.go, UserID, where its second result is dropped
abbrev pub user_id : Request → ℤ
user_id r = elim r.user [ none ↦ pos 0 | some uid ↦ uid ]

-- w.WriteHeader(status) with no body
abbrev pub empty_response : ℕ → Response
empty_response status = record { status = status; headers = []; body = "" }

-- w.Header().Set(name, value)
abbrev pub set_header : String → String → Response → Response
set_header name value r = record r { headers = (name, value) ∷ r.headers }

-- http.Error(w, text, code)
abbrev pub http_error : String → ℕ → Response
http_error body status = record {
  status = status;
  headers =
      ("X-Content-Type-Options", "nosniff") ∷ ("Content-Type", "text/plain; charset=utf-8") ∷ [];
  body = String.◌++◌ body "\n";
}

-- The text after "Bearer " in the header Authorization: strings.HasPrefix and strings.TrimPrefix.
abbrev pub bearer : Request → Option String
bearer r = after_prefix "Bearer " (r.header "Authorization")

-- http.Handler, on a state `S`
abbrev pub Handler : Type 0 → Type 0
Handler S = Request → Call S Response

-- The headers that a wrapper sets before it calls the handler, the last one first.
abbrev pub with_headers : List (String × String) → Response → Response
with_headers set r = record r { headers = r.headers ++ set }

-- json.NewEncoder(w).Encode(…), which ends the text by a newline
abbrev pub encoded : String → Response
encoded json = record { status = 200; headers = []; body = String.◌++◌ json "\n" }

-- The id of strconv.ParseInt, if its error is nil.
abbrev pub parsed_id : Parsed → Option ℤ
parsed_id (number id) = some id
parsed_id bad_syntax = none
parsed_id (out_of_range id) = none
