-- ===== src/Router/Newcomer.antt =====
-- internal/server/server.go: a new account, its first session and its first note.
use go_notes_api.Base.{
  ◌≡◌, ◌≢◌, ◌<◌, ◌^◌, ◌+◌, ◌∙◌, ap, subst, sym, ℕ, Bool, true, false, some, none, List, String, ok,
  arith, ◌==◌, eq_of_text, exists_where, first_where, ltb, Result-cases, inl, inr,
}
use go_notes_api.Base.Int.{ℤ, pos, int_lt, ◌+ℤ◌}
use go_notes_api.Base.Text.{hex, trim_space}
use go_notes_api.Schema.{Role, Db}
use go_notes_api.Http.{Request, bearer, encoded}
use go_notes_api.Jwt.{IsVerified}
use go_notes_api.Jwt.Keys.{secret_for, signing_secret}
use go_notes_api.World.{World}
use go_notes_api.Sql.{query}
use go_notes_api.Repos.Notes as Repo
use go_notes_api.Repos.Roles
use go_notes_api.Repos.Roles.Grants.{assign-has}
use go_notes_api.Repos.Users
use go_notes_api.Repos.RefreshTokens.Frames.{issue-frame, issue-fails}
use go_notes_api.Repos.RefreshTokens.Live.{IsHealthy, IsFresh}
use go_notes_api.Handlers.Auth.{Creds, register, sign_in, access_claims, access_token}
use go_notes_api.Handlers.Auth.Accounts.{
  created, register_lem, created_lem, registered-IsHealthy, register-sign_in,
}
use go_notes_api.Handlers.Notes.{NoteInput}
use go_notes_api.Router.{Site, Moment, handle, notes_create}
use go_notes_api.Router.Members.{handle-create}

module _ {F S : Type 0} (site : Site F S) where
  open site use {mysql, auth_codec, auth_cfg, jwt, provider, loaded, codec}

  -- While no statement fails, Has counts the rows.
  has_lem :
      (uid : ℤ) (role : String) (d : Db)
      → IsHealthy mysql d
      → (Roles.has mysql uid role d).0
        ≡ ok (ltb 0 (Roles.joined mysql uid role d.roles d.user_roles))
  unfolding Roles.has query Roles.count_grants
  has_lem uid role d healthy = ground (arith, healthy d.calls)

  has-same :
      (uid : ℤ) (role : String) (d e : Db)
      → IsHealthy mysql d
      → IsHealthy mysql e
      → e.roles ≡ d.roles
      → e.user_roles ≡ d.user_roles
      → (Roles.has mysql uid role d).0 ≡ ok true
      → (Roles.has mysql uid role e).0 ≡ ok true
  has-same uid role d e healthy healthy' roles grants held =
      has_lem uid role e healthy' ∙ rw (roles, grants) (sym (has_lem uid role d healthy) ∙ held)

  -- A sign-in leaves the roles alone.
  sign_in-roles :
      (input : Creds) (now : ℤ) (jti b : List ℕ) (d : Db)
      → ((sign_in auth_codec mysql auth_cfg jwt provider input now jti b d).1.roles ≡ d.roles)
        × ((sign_in auth_codec mysql auth_cfg jwt provider input now jti b d).1.user_roles
            ≡ d.user_roles)
        × ((sign_in auth_codec mysql auth_cfg jwt provider input now jti b d).1.fails ≡ d.fails)
  unfolding sign_in Users.find_by_email
  sign_in-roles input now jti b d =
      elim (Result-cases (Users.find_by_email mysql input.email d).0) [
        | inl (e, missing) ↦ (ground arith, ground arith, ground arith)
        | inr (u, found) ↦
            let mid = (Users.find_by_email mysql input.email d).1 in
            let framed = issue-frame mysql mid b u.id (now +ℤ auth_cfg.refresh_ttl) in
            let kept = issue-fails mysql mid b u.id (now +ℤ auth_cfg.refresh_ttl) in
            (ground arith, ground arith, ground arith)
      ]

  module _ (salt : List ℕ) (r : Request) (input : Creds) (w : World S)
      (healthy : IsHealthy mysql w.db) (decoded : auth_codec.decode_creds r.body ≡ some input)
      (accepted : auth_codec.valid input ≡ true)
      (new : exists_where (λ u. mysql.same u.email input.email) w.db.users ≡ false) (member : Role)
      (known_role : first_where (λ o. mysql.same o.name "user") w.db.roles ≡ some member) where
    abbrev pub after_register : Db
    after_register = (register auth_codec mysql salt r w.db).1

    joined-role : (Roles.has mysql (pos w.db.next_user) "user" after_register).0 ≡ ok true
    unfolding Roles.assign Users.create
    joined-role =
        let run = register_lem auth_codec mysql salt r input w.db healthy decoded accepted new in
        let made = created auth_codec mysql salt r input w.db healthy decoded accepted new in
        let (rows, still, tokens) =
          created_lem auth_codec mysql salt r input w.db healthy decoded accepted new in
        let sound : IsHealthy mysql made = λ n. ap (λ (f : ℕ → Bool). f n) still ∙ healthy n in
        let roles : made.roles ≡ w.db.roles = ground (arith, healthy w.db.calls) in
        let found : first_where (λ o. mysql.same o.name "user") made.roles ≡ some member =
          ap (first_where (λ o. mysql.same o.name "user")) roles ∙ known_role in
        let assigned : (Roles.assign mysql (pos w.db.next_user) "user" made).0 ≡ ok tt =
          ground (arith, sound made.calls, sound (made.calls + 1)) in
        subst (λ (d : Db). (Roles.has mysql (pos w.db.next_user) "user" d).0 ≡ ok true) (sym run.1)
          (assign-has mysql (pos w.db.next_user) "user" made sound assigned)

    module _ (signed : ℤ) (jti b : List ℕ) (hash : String)
        (hashed : auth_codec.hash_password salt input.password ≡ some hash)
        (fresh : IsFresh mysql b w.db) where
      -- The answer of the sign-in, and what it leaves.
      abbrev pub token : String
      token = access_token auth_codec mysql auth_cfg jwt provider (pos w.db.next_user) signed jti

      abbrev pub after_login : World S
      after_login = record w {
        db = (sign_in auth_codec mysql auth_cfg jwt provider input signed jti b after_register).1;
      }

      login-IsHealthy : IsHealthy mysql after_login.db
      login-IsHealthy n =
          ap (λ (f : ℕ → Bool). f n) (sign_in-roles input signed jti b after_register).2
          ∙ registered-IsHealthy auth_codec mysql salt r input w.db healthy decoded accepted new n

      login-role : (Roles.has mysql (pos w.db.next_user) "user" after_login.db).0 ≡ ok true
      login-role =
          let (roles, grants, still) = sign_in-roles input signed jti b after_register in
          has-same (pos w.db.next_user) "user" after_register after_login.db
            (registered-IsHealthy auth_codec mysql salt r input w.db healthy decoded accepted new)
            login-IsHealthy roles grants joined-role

      -- While no statement fails: after a registration of a new email address with credentials that
      -- pass validation, a sign-in with them answers an access token and a refresh token, and a
      -- POST to /notes with this access token, before it expires, is answered with 200 and stores
      -- the note of the new account, which Get then answers with the trimmed title, the body and
      -- the next id; if the role user is there, bcrypt has hashed the password, the random bytes of
      -- the refresh token make a new one, the body of the POST decodes, its title is not blank,
      -- AuthWith knows the secret under the kid that Login signs with, which is not empty, and
      -- Parse verifies such a token. (The account's id and the time of expiry are below 2^53.)
      pub register-sign_in-create :
          (at : Moment) (exp : ℕ) (q : Request) (text : NoteInput)
          → IsVerified jwt provider.current
              (signing_secret provider)
              (access_claims auth_cfg (pos w.db.next_user) signed jti)
          → secret_for loaded provider.current ≡ some (signing_secret provider)
          → provider.current ≢ ""
          → w.db.next_user < 2 ^ 53
          → signed +ℤ auth_cfg.jwt_ttl ≡ pos exp
          → exp < 2 ^ 53
          → int_lt at.now (pos exp) ≡ true
          → bearer q ≡ some token
          → codec.decode_note q.body ≡ some text
          → (trim_space text.title == "") ≡ false
          → ((sign_in auth_codec mysql auth_cfg jwt provider input signed jti b after_register).0
              ≡ encoded (auth_codec.tokens_json token (hex b)))
            × ((handle site at notes_create q after_login).0.status ≡ 200)
            × ((Repo.get
                  (pos w.db.next_user)
                  (pos after_login.db.next_note)
                  (handle site at notes_create q after_login).1.db).0
                ≡ ok (record {
                  id = pos after_login.db.next_note;
                  user_id = pos w.db.next_user;
                  title = trim_space text.title;
                  body = text.body;
                  created_at = at.now;
                  updated_at = at.now;
                  deleted_at = none;
                }))
      register-sign_in-create at exp q text verified known named small expires near live borne given
            titled =
          let session =
            register-sign_in auth_codec mysql salt r input w.db healthy decoded accepted new
              auth_cfg jwt provider signed jti b hash hashed fresh in
          let (answered, stored) =
            handle-create site at w.db.next_user exp signed jti q after_login verified borne known
              named small expires near live login-IsHealthy text login-role given titled in
          (session.1, answered, stored)
