-- ===== src/Router/Members.antt =====
-- internal/server/server.go: a user with an access token and a note.
use go_notes_api.Base.{
  ◌≡◌, ◌≢◌, ◌<◌, ◌^◌, ◌+◌, ℕ, true, false, some, none, List, [], ◌∷◌, String, ok, arith, ◌==◌,
  eq_of_text, first_where,
}
use go_notes_api.Base.Int.{ℤ, pos, int_lt, ◌+ℤ◌, int_eq_iff, eq_of_int}
use go_notes_api.Base.Text.{trim_space}
use go_notes_api.Schema.{Db}
use go_notes_api.Http.{Request, bearer}
use go_notes_api.Jwt.{IsVerified}
use go_notes_api.Jwt.Keys.{secret_for, signing_secret}
use go_notes_api.World.{World, on_db}
use go_notes_api.Repos.Notes as Repo
use go_notes_api.Repos.Roles
use go_notes_api.Handlers.Auth.{access_claims, access_token}
use go_notes_api.Handlers.Notes as Notes
use go_notes_api.Handlers.Notes.{NoteInput}
use go_notes_api.Middleware.{any_role, require_role_on}
use go_notes_api.Middleware.Access.{access_token-auth_with}
use go_notes_api.Sql.{query, called}
use go_notes_api.Router.{Site, Moment, guarded, handle, notes_create}

module _ {F S : Type 0} (site : Site F S) (at : Moment) (uid exp : ℕ) (made : ℤ) (jti : List ℕ)
    (r : Request) (w : World S)
    (verified : IsVerified site.jwt site.provider.current
      (signing_secret site.provider)
      (access_claims site.auth_cfg (pos uid) made jti))
    (borne : bearer r
      ≡ some (
          access_token site.auth_codec site.mysql site.auth_cfg site.jwt site.provider
            (pos uid)
            made
            jti))
    (known : secret_for site.loaded site.provider.current ≡ some (signing_secret site.provider))
    (named : site.provider.current ≢ "") (small : uid < 2 ^ 53)
    (expires : made +ℤ site.auth_cfg.jwt_ttl ≡ pos exp) (near : exp < 2 ^ 53)
    (live : int_lt at.now (pos exp) ≡ true) (healthy : (n : ℕ) → w.db.fails n ≡ false) where
  open site use {mysql, jwt, loaded, any_of, auth_cfg, auth_codec, codec}

  abbrev mine : Request
  mine = record r { user = some (pos uid) }

  Has-passed :
      (role : String)
      → (Roles.has mysql (pos uid) role w.db).0 ≡ ok true
      → any_role mysql (pos uid) (role ∷ []) w.db ≡ (true, called w.db)
  unfolding any_role Roles.has query
  Has-passed role held = ground arith

  create-run :
      (input : NoteInput) (db : Db)
      → ((n : ℕ) → db.fails n ≡ false)
      → codec.decode_note r.body ≡ some input
      → (trim_space input.title == "") ≡ false
      → ((Notes.create codec mine at.now db).0.status ≡ 200)
        × ((Repo.get (pos uid) (pos db.next_note) (Notes.create codec mine at.now db).1).0
            ≡ ok (record {
              id = pos db.next_note;
              user_id = pos uid;
              title = trim_space input.title;
              body = input.body;
              created_at = at.now;
              updated_at = at.now;
              deleted_at = none;
            }))
  unfolding Notes.create Notes.create_note Repo.create Repo.get first_where
  create-run input db sent decoded titled =
      let own = int_eq_iff (pos uid) (pos uid) in
      let new = int_eq_iff (pos db.next_note) (pos db.next_note) in
      (
        ground (arith, own, new, sent db.calls, sent (db.calls + 1)),
        ground (arith, own, new, sent db.calls, sent (db.calls + 1), sent (db.calls + 1 + 1)),
      )

  -- While no statement fails: a POST to /notes with the access token that Login signs for a user,
  -- before it expires, is answered with 200, and Get then answers the note to that user with the
  -- trimmed title, the body and the next id, if Has finds the role user, the body decodes, the
  -- title is not blank, AuthWith knows the secret under the kid that the token was signed with,
  -- which is not empty, and Parse verifies such a token. (The user's id and the time of expiry are
  -- below 2^53.)
  pub handle-create :
      (input : NoteInput)
      → (Roles.has mysql (pos uid) "user" w.db).0 ≡ ok true
      → codec.decode_note r.body ≡ some input
      → (trim_space input.title == "") ≡ false
      → ((handle site at notes_create r w).0.status ≡ 200)
        × ((Repo.get (pos uid) (pos w.db.next_note) (handle site at notes_create r w).1.db).0
            ≡ ok (record {
              id = pos w.db.next_note;
              user_id = pos uid;
              title = trim_space input.title;
              body = input.body;
              created_at = at.now;
              updated_at = at.now;
              deleted_at = none;
            }))
  unfolding handle guarded require_role_on
  handle-create input held decoded titled =
      let admitted =
        access_token-auth_with jwt any_of loaded auth_cfg
          (require_role_on mysql on_db ("user" ∷ []) (λ r. on_db (Notes.create codec r at.now)))
          auth_codec mysql site.provider uid exp made at.now jti r w verified borne known named
          small expires near live in
      let passed = Has-passed "user" held in
      let (answered, stored) = create-run input (called w.db) healthy decoded titled in
      (ground arith, ground arith)
