-- ===== src/Middleware/Headers.antt =====
-- internal/middleware/security.go and requestid.go: headers, CORS, the limit of a body, request ids.
use go_notes_api.Base.{
  ◌&&◌, ◌||◌, Bool, false, not, ℕ, List, [], ◌∷◌, String, pure, ◌>>=◌, ◌==◌, eq_of_text,
  if◌then◌else◌, take,
}
use go_notes_api.Base.Int.{ℤ, pos, negsuc}
use go_notes_api.Base.Text.{hex}
use go_notes_api.Http.{Request, Handler, empty_response, with_headers}

-- SecurityHeaders
unfoldable pub security_headers : {S : Type 0} → Handler S → Handler S
security_headers next_handler r = do
  res ← next_handler r
  pure (
      with_headers
        (("Permissions-Policy", "geolocation=(), microphone=()")
          ∷ ("Referrer-Policy", "no-referrer")
          ∷ ("X-Frame-Options", "DENY")
          ∷ ("X-Content-Type-Options", "nosniff")
          ∷ [])
        res)

-- contains, with strings.EqualFold
unfoldable pub contains : (String → String → Bool) → List String → String → Bool
contains equal_fold [] s = false
contains equal_fold (x ∷ xs) s = equal_fold x s || contains equal_fold xs s

-- `len(allow) == 1 && allow[0] == "*"`
abbrev pub is_star : List String → Bool
is_star allow = elim allow [ [] ↦ false | x ∷ xs ↦ elim xs [ [] ↦ x == "*" | _ ∷ _ ↦ false ] ]

module _ (equal_fold : String → String → Bool) (allow : List String) where
  -- The headers that name the site which is let in.
  unfoldable pub origin_headers : String → List (String × String)
  origin_headers orig =
      if is_star allow
      then ("Access-Control-Allow-Origin", "*") ∷ []
      else if not (orig == "") && contains equal_fold allow orig
      then ("Vary", "Origin") ∷ ("Access-Control-Allow-Origin", orig) ∷ []
      else []

  abbrev pub cors_headers : String → List (String × String)
  cors_headers orig =
      ("Access-Control-Allow-Methods", "GET,POST,PUT,DELETE,OPTIONS")
      ∷ ("Access-Control-Allow-Headers", "Authorization, Content-Type, X-Request-ID")
      ∷ origin_headers orig

  -- CORS
  unfoldable pub cors : {S : Type 0} → Handler S → Handler S
  cors next_handler r = do
    res ← if r.method == "OPTIONS" then pure (empty_response 204) else next_handler r
    pure (with_headers (cors_headers (r.header "Origin")) res)

-- http.MaxBytesReader: it fails after `n` bytes, so that a value which needs more does not decode
abbrev pub clip : ℤ → Request → Request
clip n r = record r { body = elim n [ pos limit ↦ take limit r.body | negsuc _ ↦ [] ] }

-- BodyLimit
unfoldable pub body_limit : {S : Type 0} → ℤ → Handler S → Handler S
body_limit n next_handler r = next_handler (clip n r)

-- `id == ""`: the 16 random bytes `b` in hexadecimal
unfoldable pub request_id_of : List ℕ → Request → String
request_id_of b r = if r.header "X-Request-ID" == "" then hex b else r.header "X-Request-ID"

-- r.Header.Set(ReqIDHeader, id)
abbrev pub with_request_id : String → Request → Request
with_request_id id r = record r {
  header = λ name. if name == "X-Request-ID" then id else r.header name;
}

-- RequestID
unfoldable pub request_id : {S : Type 0} → List ℕ → Handler S → Handler S
request_id b next_handler r = do
  let id = request_id_of b r
  res ← next_handler (with_request_id id r)
  pure (with_headers (("X-Request-ID", id) ∷ []) res)
