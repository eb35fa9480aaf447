-- ===== src/Errors.antt =====
-- internal/errors/errors.go: the errors of the API and the response that `Write` makes of them.
-- The cause of an error goes to the log only: `error_line` is the record that `Write` adds to it, which
-- the state of the handlers leaves out.
use Prim.Native.String.{◌++◌}
use go_notes_api.Base.{ℕ, String, List, [], ◌∷◌, Option, none, some, ltb, if◌then◌else◌}
use go_notes_api.Http.{Request, Response}

pub record AppError : Type 0 where
  pub status : ℕ
  pub code : String
  pub message : String
  pub fields : List (String × String)
  pub cause : Option String

-- (*AppError).Error()
unfoldable pub error_text : AppError → String
error_text e = elim e.cause [ none ↦ e.message | some cause ↦ cause ]

-- E(status, code, msg, cause, fields)
abbrev pub app_error : ℕ → String → String → Option String → List (String × String) → AppError
app_error status code message cause fields = record {
  status = status;
  code = code;
  message = message;
  fields = fields;
  cause = cause;
}

abbrev pub unauthorized : AppError
unauthorized = app_error 401 "unauthorized" "unauthorized" none []

abbrev pub forbidden : AppError
forbidden = app_error 403 "forbidden" "forbidden" none []

abbrev pub not_found : AppError
not_found = app_error 404 "not_found" "not found" none []

abbrev pub conflict : AppError
conflict = app_error 409 "conflict" "conflict" none []

abbrev pub bad_request : AppError
bad_request = app_error 400 "bad_request" "bad request" none []

abbrev pub too_many : AppError
too_many = app_error 429 "too_many_requests" "too many requests" none []

abbrev pub validation : List (String × String) → AppError
validation fields = app_error 422 "validation_error" "validation error" none fields

-- An `error` value: an *AppError, or another with its text.
pub data AnyError : Type 0 where
  app : AppError → AnyError
  other : String → AnyError

-- errors.As(err, &app), or an internal error
unfoldable pub as_app : AnyError → AppError
as_app (app e) = e
as_app (other text) = app_error 500 "internal_error" "internal error" (some text) []

-- The JSON of an error: code, message, request id and fields (encoding/json, a parameter).
abbrev pub ErrorJson : Type 0
ErrorJson = String → String → String → List (String × String) → String

-- Write(w, r, err)
unfoldable pub write : ErrorJson → Request → AnyError → Response
unfolding as_app
write json r err =
    let e = as_app err in
    record {
      status = e.status;
      headers = ("Content-Type", "application/json; charset=utf-8") ∷ [];
      body = json e.code e.message (r.header "X-Request-ID") e.fields ++ "\n";
    }

pub data Level : Type 0 where
  warn error : Level

pub record ErrorLine : Type 0 where
  pub level : Level
  pub status : ℕ
  pub code : String
  pub rid : String
  pub path : String
  pub cause : String

-- The record "api_error" of Write
unfoldable pub error_line : Request → AnyError → ErrorLine
unfolding as_app
error_line r err =
    let e = as_app err in
    record {
      level = if ltb e.status 500 then warn else error;
      status = e.status;
      code = e.code;
      rid = r.header "X-Request-ID";
      path = r.path;
      cause = elim e.cause [ none ↦ "" | some text ↦ text ];
    }
