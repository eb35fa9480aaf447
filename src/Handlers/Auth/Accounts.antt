-- ===== src/Handlers/Auth/Accounts.antt =====
-- internal/handlers/auth.go, Register and the sign-in of Login: accounts and their passwords.
use go_notes_api.Base.{
  ◌≡◌, ◌∙◌, ap, true, false, Bool, ℕ, ◌<◌, some, List, ◌∷◌, String, arith, exists_where,
  first_where, length, Option-cases, inl, inr,
}
use go_notes_api.Base.Int.{ℤ, pos, ◌+ℤ◌}
use go_notes_api.Base.Text.{hex, utf8}
use go_notes_api.Schema.{Db, User}
use go_notes_api.Http.{encoded, Request, http_error}
use go_notes_api.Sql.{Mysql, called}
use go_notes_api.Jwt.{Jwt}
use go_notes_api.Jwt.Keys.{Keys}
use go_notes_api.Repos.RefreshTokens.Live.{IsHealthy, IsFresh, issue_lem}
use go_notes_api.Repos.Users
use go_notes_api.Repos.Users.{find_by_email}
use go_notes_api.Repos.Roles
use go_notes_api.Handlers.Auth.{
  AuthCodec, AuthConfig, Creds, stored_hash, register, sign_in, access_token,
}

module _ (codec : AuthCodec) (mysql : Mysql) where
  open codec use {decode_creds, valid, hash_password, same_password}
  open mysql use {same, same_refl}

  assign-apart :
      (uid : ℤ) (role : String) (db : Db)
      → ((Roles.assign mysql uid role db).1.users ≡ db.users)
        × ((Roles.assign mysql uid role db).1.fails ≡ db.fails)
        × ((Roles.assign mysql uid role db).1.refresh_tokens ≡ db.refresh_tokens)
  unfolding Roles.assign
  assign-apart uid role db = (ground arith, ground arith, ground arith)

  module _ (salt : List ℕ) (r : Request) (input : Creds) (db : Db) (healthy : IsHealthy mysql db)
      (decoded : decode_creds r.body ≡ some input) (accepted : valid input ≡ true)
      (new : exists_where (λ u. same u.email input.email) db.users ≡ false) where
    abbrev pub account : User
    account = record {
      id = pos db.next_user;
      email = input.email;
      password_hash = stored_hash codec mysql salt input.password;
    }

    abbrev pub created : Db
    created = (Users.create mysql input.email (stored_hash codec mysql salt input.password) db).1

    abbrev pub registered : Db
    registered = (register codec mysql salt r db).1

    pub register_lem :
        ((register codec mysql salt r db).0 ≡ encoded (codec.id_json (pos db.next_user)))
        × (registered ≡ (Roles.assign mysql (pos db.next_user) "user" created).1)
    unfolding register Users.create
    register_lem = (ground (arith, healthy db.calls), ground (arith, healthy db.calls))

    pub created_lem :
        (created.users ≡ account ∷ db.users)
        × (created.fails ≡ db.fails)
        × (created.refresh_tokens ≡ db.refresh_tokens)
    unfolding Users.create
    created_lem = (
      ground (arith, healthy db.calls),
      ground (arith, healthy db.calls),
      ground (arith, healthy db.calls),
    )

    registered-users : registered.users ≡ account ∷ db.users
    registered-users =
        ap (λ (d : Db). d.users) register_lem.1
        ∙ (assign-apart (pos db.next_user) "user" created).0
        ∙ created_lem.0

    pub registered-IsHealthy : IsHealthy mysql registered
    registered-IsHealthy n =
        ap (λ (d : Db). d.fails n) register_lem.1
        ∙ ap (λ (f : ℕ → Bool). f n) (assign-apart (pos db.next_user) "user" created).1
        ∙ ap (λ (f : ℕ → Bool). f n) created_lem.1
        ∙ healthy n

    registered-tokens : registered.refresh_tokens ≡ db.refresh_tokens
    registered-tokens =
        ap (λ (d : Db). d.refresh_tokens) register_lem.1
        ∙ (assign-apart (pos db.next_user) "user" created).2
        ∙ created_lem.2

    registered-found : first_where (λ u. same u.email input.email) registered.users ≡ some account
    unfolding first_where
    registered-found = ground (arith, registered-users, same_refl input.email)

    module _ (cfg : AuthConfig) (jwt : Jwt) (keys : Keys) (now : ℤ) (jti b : List ℕ) where
      -- While no statement fails, a client that registers a new email address with credentials that
      -- pass validation is answered with the id of the account, and then signs in with them, if
      -- bcrypt has hashed the password and the random bytes of the refresh token make a new one.
      pub register-sign_in :
          (hash : String)
          → hash_password salt input.password ≡ some hash
          → IsFresh mysql b db
          → ((register codec mysql salt r db).0 ≡ encoded (codec.id_json (pos db.next_user)))
            × ((sign_in codec mysql cfg jwt keys input now jti b registered).0
                ≡ encoded (
                    codec.tokens_json
                      (access_token codec mysql cfg jwt keys (pos db.next_user) now jti)
                      (hex b)))
      unfolding sign_in find_by_email stored_hash
      register-sign_in hash hashed fresh =
          let issued =
            issue_lem mysql b (pos db.next_user) (now +ℤ cfg.refresh_ttl) (called registered)
              registered-IsHealthy (ap (exists_where _) registered-tokens ∙ fresh) in
          let matching = codec.same_hashed salt input.password hash hashed in
          (register_lem.0, ground (arith, registered-found, registered-IsHealthy registered.calls))

      -- While no statement fails, a client that registers a new email address with a password of
      -- more than 72 bytes that passes validation is answered with the id of the account, and then
      -- signing in with that password is answered with 401.
      pub register_locks_out :
          72 < length (utf8 input.password)
          → ((register codec mysql salt r db).0 ≡ encoded (codec.id_json (pos db.next_user)))
            × ((sign_in codec mysql cfg jwt keys input now jti b registered).0
                ≡ http_error "unauthorized" 401)
      unfolding sign_in find_by_email stored_hash
      register_locks_out long = (
        register_lem.0,
        ground (
          arith,
          registered-found,
          registered-IsHealthy registered.calls,
          codec.too_long salt input.password long,
          codec.empty_hash input.password,
        ),
      )

  -- If a sign-in is answered with 200, an account has the email address and its hash matches the
  -- password.
  pub sign_in_checks_password :
      (cfg : AuthConfig) (jwt : Jwt) (keys : Keys) (input : Creds) (now : ℤ) (jti b : List ℕ)
      (db : Db)
      → (sign_in codec mysql cfg jwt keys input now jti b db).0.status ≡ 200
      → (u : User) × (first_where (λ v. same v.email input.email) db.users ≡ some u)
        × (same_password u.password_hash input.password ≡ true)
  unfolding sign_in find_by_email
  sign_in_checks_password cfg jwt keys input now jti b db h =
      elim (Option-cases (first_where (λ v. same v.email input.email) db.users)) [
        | inl missing ↦ absurd (ground arith)
        | inr (u, found) ↦ (u, found, ground arith)
      ]
