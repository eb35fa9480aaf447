-- ===== src/Handlers/Auth/Keeping.antt =====
-- internal/handlers/auth.go: a property of the tables that the repositories keep.
use go_notes_api.Base.{
  arith, String, ℕ, List, Bool, Option-cases, Result-cases, Bool-cases, inl, inr, not, ◌&&◌, none,
  ◌==◌, eq_of_text,
}
use go_notes_api.Base.Int.{ℤ, pos, int_lt, ◌+ℤ◌}
use go_notes_api.Schema.{Tables, Db}
use go_notes_api.Http.{Request, bearer}
use go_notes_api.Sql.{Mysql}
use go_notes_api.Redis.{Redis}
use go_notes_api.World.{World}
use go_notes_api.Brute
use go_notes_api.Jwt.{Jwt}
use go_notes_api.Jwt.Keys.{Keys}
use go_notes_api.Repos.Users
use go_notes_api.Repos.Roles
use go_notes_api.Repos.RefreshTokens
use go_notes_api.Repos.Closed.{IsClosed, along}
use go_notes_api.Handlers.Auth.{
  AuthCodec, AuthConfig, Creds, stored_hash, register, sign_in, login, refresh, revoke_refresh,
  key_fn, logout,
}

module _ (mysql : Mysql) (Q : ℤ → Type 0) (B : List ℕ → Type 0) (K : Tables → Type 0)
    (closed : IsClosed mysql Q B K) (codec : AuthCodec) (r : Request) where
  pub register_keeps :
      (salt : List ℕ) (db : Db) → K db.tables → K (register codec mysql salt r db).1.tables
  unfolding register
  register_keeps salt db h = elim (Option-cases (codec.decode_creds r.body)) [
    | inl missing ↦ along K {t = db.tables} (ground arith) h
    | inr (input, decoded) ↦ elim (Bool-cases (codec.valid input)) [
      | inr invalid ↦ along K {t = db.tables} (ground arith) h
      | inl valid ↦
          let hash = stored_hash codec mysql salt input.password in
          let created = Users.create mysql input.email hash db in
          let enrolled = closed.users.create input.email hash db h in
          elim (Result-cases created.0) [
            | inl (e, refused) ↦ along K {t = created.1.tables} (ground arith) enrolled
            | inr (id, done) ↦
                along K {t = (Roles.assign mysql id "user" created.1).1.tables} (ground arith)
                  (closed.grants.join id created.1 enrolled)
          ]
    ]
  ]

  module _ (cfg : AuthConfig) (jwt : Jwt) (keys : Keys) where
    sign_in_keeps :
        (input : Creds) (now : ℤ) (jti b : List ℕ) (d : Db)
        → B b
        → K d.tables
        → K (sign_in codec mysql cfg jwt keys input now jti b d).1.tables
    unfolding sign_in Users.find_by_email
    sign_in_keeps input now jti b d fresh h =
        let found = Users.find_by_email mysql input.email d in
        elim (Result-cases found.0) [
          | inl (e, missing) ↦ along K {t = d.tables} (ground arith) h
          | inr (u, present) ↦
              elim (Bool-cases (codec.same_password u.password_hash input.password)) [
                | inl right ↦
                    along K
                      {t = (RefreshTokens.issue mysql b u.id (now +ℤ cfg.refresh_ttl)
                        found.1).1.tables}
                      (ground arith)
                      (closed.tokens.issue b u.id (now +ℤ cfg.refresh_ttl) found.1 fresh h)
                | inr wrong ↦ along K {t = d.tables} (ground arith) h
              ]
        ]

    pub refresh_keeps :
        (now : ℤ) (jti b : List ℕ) (db : Db)
        → B b
        → K db.tables
        → K (refresh codec mysql cfg jwt keys r now jti b db).1.tables
    unfolding refresh
    refresh_keeps now jti b db fresh h = elim (Option-cases (codec.decode_refresh r.body)) [
      | inl missing ↦ along K {t = db.tables} (ground arith) h
      | inr (token, decoded) ↦
          along K
            {t = (RefreshTokens.use_and_rotate mysql token (now +ℤ cfg.refresh_ttl) b now
              db).1.tables}
            (ground arith) (closed.tokens.rotate token (now +ℤ cfg.refresh_ttl) b now db fresh h)
    ]

    revoke_refresh_keeps :
        (db : Db) → K db.tables → K (revoke_refresh codec mysql cfg jwt keys r db).1.tables
    unfolding revoke_refresh
    revoke_refresh_keeps db h =
        let token = codec.left_refresh r.body in
        elim (Bool-cases (token == "")) [
          | inl blank ↦ along K {t = db.tables} (ground arith) h
          | inr given ↦
              along K {t = (RefreshTokens.revoke mysql token db).1.tables} (ground arith)
                (closed.tokens.revoke token db h)
        ]

    module _ {S : Type 0} (redis : Redis S) (w : World S) (h : K w.db.tables) where
      pub login_keeps :
          (email_limiter : String → Bool) (now : ℤ) (jti b : List ℕ)
          → B b
          → K (login codec mysql cfg jwt keys redis email_limiter r now jti b w).1.db.tables
      unfolding login Brute.allow
      login_keeps email_limiter now jti b fresh = elim (Option-cases (codec.decode_creds r.body)) [
        | inl missing ↦ along K {t = w.db.tables} (ground arith) h
        | inr (input, decoded) ↦
            let count =
              (redis.incr_expire (Brute.key redis codec.to_lower r input.email) (pos 300)
                w.store).0 in
            elim (Bool-cases (email_limiter input.email && not (int_lt (pos 10) count))) [
              | inl within ↦
                  along K {t = (sign_in codec mysql cfg jwt keys input now jti b w.db).1.tables}
                    (ground arith) (sign_in_keeps input now jti b w.db fresh h)
              | inr over ↦ along K {t = w.db.tables} (ground arith) h
            ]
      ]

      pub logout_keeps :
          (prefix : String) (now : ℤ)
          → K (logout codec mysql cfg jwt keys redis prefix r now w).1.db.tables
      unfolding logout
      logout_keeps prefix now = elim (Option-cases (bearer r)) [
        | inl missing ↦ along K {t = w.db.tables} (ground arith) h
        | inr (raw, borne) ↦
            elim (Option-cases (jwt.parse (key_fn codec mysql cfg jwt keys) none none now raw)) [
              | inl refused ↦ along K {t = w.db.tables} (ground arith) h
              | inr (claims, parsed) ↦
                  along K {t = (revoke_refresh codec mysql cfg jwt keys r w.db).1.tables}
                    (ground arith) (revoke_refresh_keeps w.db h)
            ]
      ]
