-- ===== src/Handlers/Auth/Sessions.antt =====
-- internal/handlers/auth.go, Refresh and Logout: refresh tokens as the handlers use them.
use go_notes_api.Base.{
  ◌≡◌, ◌≢◌, refl, ◌∙◌, ap, sym, true, false, ℕ, none, some, List, String, Result, ok, err, arith,
  first_where, eq_of_text, eq_iff,
}
use go_notes_api.Base.Int.{ℤ, int_lt, ◌+ℤ◌}
use go_notes_api.Base.Text.{hex}
use go_notes_api.Schema.{Db, User}
use go_notes_api.Http.{encoded, Request, Response, http_error, empty_response, bearer}
use go_notes_api.Redis.{Redis}
use go_notes_api.Sql.{
  called, Mysql, SqlError, no_rows, duplicate_key, bad_statement, connection_lost,
}
use go_notes_api.Jwt.{Jwt, Claims}
use go_notes_api.Jwt.Keys.{Keys}
use go_notes_api.Repos.RefreshTokens.{Rotation, use_and_rotate}
use go_notes_api.Repos.RefreshTokens.Live.{
  IsHealthy, IsFresh, issue_lem, issue-use_and_rotate, revoke-use_and_rotate,
}
use go_notes_api.Repos.Users.{find_by_email}
use go_notes_api.World.{World}
use go_notes_api.Handlers.Auth.{
  AuthCodec, AuthConfig, Creds, rotated, refresh, access_token, sign_in, logout, key_fn,
  revoke_refresh,
}

module _ (codec : AuthCodec) (mysql : Mysql) (cfg : AuthConfig) (jwt : Jwt) (keys : Keys) where
  open codec use {decode_refresh}

  -- The handler has called UseAndRotate, and answers what it says.
  pub refresh_lem :
      (r : Request) (token : String) (now : ℤ) (jti b : List ℕ) (db : Db)
      → decode_refresh r.body ≡ some token
      → refresh codec mysql cfg jwt keys r now jti b db ≡ (
        rotated codec mysql cfg jwt keys now jti
            (use_and_rotate mysql token (now +ℤ cfg.refresh_ttl) b now db).0,
        (use_and_rotate mysql token (now +ℤ cfg.refresh_ttl) b now db).1,
      )
  unfolding refresh
  refresh_lem r token now jti b db decoded = ground arith

  rotated-ok :
      (now : ℤ) (jti : List ℕ) (res : Result SqlError Rotation)
      → (rotated codec mysql cfg jwt keys now jti res).status ≡ 200
      → (rot : Rotation) × (res ≡ ok rot) × (rot.reused ≡ false)
  unfolding rotated
  rotated-ok now jti (err no_rows) h = absurd (ground arith)
  rotated-ok now jti (err duplicate_key) h = absurd (ground arith)
  rotated-ok now jti (err bad_statement) h = absurd (ground arith)
  rotated-ok now jti (err connection_lost) h = absurd (ground arith)
  rotated-ok now jti (ok rot) h = (rot, refl, ground arith)

  pub refresh-ok :
      (r : Request) (token : String) (now : ℤ) (jti b : List ℕ) (db : Db)
      → decode_refresh r.body ≡ some token
      → (refresh codec mysql cfg jwt keys r now jti b db).0.status ≡ 200
      → (rot : Rotation) × ((use_and_rotate mysql token (now +ℤ cfg.refresh_ttl) b now db).0
          ≡ ok rot)
        × (rot.reused ≡ false)
  refresh-ok r token now jti b db decoded h =
      rotated-ok now jti _ (
        sym (ap (λ (o : Response × Db). o.0.status) (refresh_lem r token now jti b db decoded)) ∙ h)

  -- While no statement fails, a user who signs in with the password of the account gets an access
  -- token and a refresh token, if the random bytes make a new token; and a refresh with that token
  -- before it expires gets an access token for the same user and a new refresh token, if that one
  -- is new too.
  pub sign_in-refresh :
      (input : Creds) (r : Request) (u : User) (now now' : ℤ) (jti jti' b b' : List ℕ) (db : Db)
      → IsHealthy mysql db
      → first_where (λ v. mysql.same v.email input.email) db.users ≡ some u
      → codec.same_password u.password_hash input.password ≡ true
      → IsFresh mysql b db
      → IsFresh mysql b' db
      → mysql.same (hex b) (hex b') ≡ false
      → int_lt now' (now +ℤ cfg.refresh_ttl) ≡ true
      → decode_refresh r.body ≡ some (hex b)
      → ((sign_in codec mysql cfg jwt keys input now jti b db).0
          ≡ encoded
              (codec.tokens_json (access_token codec mysql cfg jwt keys u.id now jti) (hex b)))
        × ((refresh codec mysql cfg jwt keys r now' jti' b'
              (sign_in codec mysql cfg jwt keys input now jti b db).1).0
            ≡ encoded
                (codec.tokens_json (access_token codec mysql cfg jwt keys u.id now' jti') (hex b')))
  unfolding sign_in rotated refresh find_by_email
  sign_in-refresh input r u now now' jti jti' b b' db healthy known matching fresh fresh' ne live
        decoded =
      let exp = now +ℤ cfg.refresh_ttl in
      let issued = issue_lem mysql b u.id exp (called db) healthy fresh in
      let traded =
        issue-use_and_rotate mysql b b' u.id exp (now' +ℤ cfg.refresh_ttl) now' (called db) healthy
          fresh fresh' ne live in
      (ground (arith, healthy db.calls), ground (arith, healthy db.calls))

  -- While no statement fails, a logout with an access token that Parse accepts and a refresh token
  -- in its body is answered with 204, and a refresh with that token on the tables it leaves is
  -- answered with 401 as an unknown one.
  pub logout-refresh :
      {S : Type 0} (redis : Redis S) (prefix raw : String) (claims : Claims) (r r' : Request)
      (token t : String) (now now' : ℤ) (jti b : List ℕ) (w : World S)
      → IsHealthy mysql w.db
      → bearer r ≡ some raw
      → jwt.parse (key_fn codec mysql cfg jwt keys) none none now raw ≡ some claims
      → decode_refresh r.body ≡ some token
      → token ≢ ""
      → decode_refresh r'.body ≡ some t
      → mysql.same t token ≡ true
      → ((logout codec mysql cfg jwt keys redis prefix r now w).0 ≡ empty_response 204)
        × ((refresh codec mysql cfg jwt keys r' now' jti b
              (logout codec mysql cfg jwt keys redis prefix r now w).1.db).0
            ≡ http_error "invalid" 401)
  unfolding logout revoke_refresh rotated refresh
  logout-refresh redis prefix raw claims r r' token t now now' jti b w healthy borne valid decoded
        given decoded' alike =
      let gone =
        revoke-use_and_rotate mysql token t (now' +ℤ cfg.refresh_ttl) now' b w.db healthy alike in
      let left = codec.left_decoded r.body token decoded in
      (ground (arith, eq_iff token ""), ground (arith, eq_iff token ""))
