-- ===== src/Router/Sessions.antt =====
-- internal/server/server.go: a refresh token through sequences of requests.
use go_notes_api.Base.{◌≡◌, ◌≢◌, ap, sym, subst, true, false, some, List, String, ℕ, arith, All}
use go_notes_api.Base.Int.{ℤ, ◌+ℤ◌}
use go_notes_api.Base.Text.{hex}
use go_notes_api.Base.Rows.{All-map}
use go_notes_api.Schema.{Db}
use go_notes_api.Http.{Request, Response}
use go_notes_api.World.{World}
use go_notes_api.Repos.Closed.{IsClosed, no_notes, no_users, no_grants, no_keys}
use go_notes_api.Repos.RefreshTokens.Once.{
  IsSpent, IsSpentRow, use_and_rotate-IsSpent, issue-IsSpent, revoke-IsSpent, use_and_rotate_spends,
  spent-reused,
}
use go_notes_api.Handlers.Auth.{refresh}
use go_notes_api.Handlers.Auth.Sessions.{refresh_lem, refresh-ok}
use go_notes_api.Router.{Site, Moment, serve_all}
use go_notes_api.Repos.Sound.{Anyone}
use go_notes_api.Router.Runs.{serve_all_keeps}

module _ {F S : Type 0} (site : Site F S) (token : String) where
  open site use {mysql, auth_codec, auth_cfg, jwt, provider}

  -- Random bytes that do not make the token.
  abbrev IsOther : List ℕ → Type 0
  IsOther b = mysql.same (hex b) token ≡ false

  spent_closed : IsClosed mysql Anyone IsOther (λ t. All (IsSpentRow mysql token) t.refresh_tokens)
  spent_closed = record {
    tokens = record {
      issue = λ b uid exp d fresh h. issue-IsSpent mysql token b uid exp d h fresh;
      rotate = λ t exp b now d fresh h. use_and_rotate-IsSpent mysql token t now d h exp b fresh;
      revoke = λ t d h. revoke-IsSpent mysql token t d h;
    };
    notes = no_notes mysql _ (λ t rows n k. k);
    users = no_users mysql _ (λ t rows n k. k);
    grants = no_grants mysql _ (λ t rows k. k);
    keys = no_keys mysql _ (λ t rows k. k);
    log = λ t rows n k. k;
  }

  serve_all-IsSpent :
      (rs : List (Moment × Request)) (w : World S)
      → All (λ p. IsOther p.0.token) rs
      → IsSpent mysql token w.db
      → IsSpent mysql token (serve_all site rs w).db
  serve_all-IsSpent rs w fresh =
      serve_all_keeps site Anyone IsOther _ spent_closed rs w
        (All-map rs fresh (λ p other. ((λ raw claims uid borne parsed named. tt), other)))

  -- Once a refresh was answered with 200, no refresh with the same token is, after any sequence of
  -- served requests and whichever statements fail, provided that the random bytes drawn for tokens
  -- in between do not make this token as the server compares texts.
  pub refresh-refresh :
      (r q : Request) (t : String) (now now' : ℤ) (jti jti' b b' : List ℕ) (w : World S)
      (rs : List (Moment × Request))
      → auth_codec.decode_refresh r.body ≡ some token
      → auth_codec.decode_refresh q.body ≡ some t
      → mysql.same t token ≡ true
      → (refresh auth_codec mysql auth_cfg jwt provider r now jti b w.db).0.status ≡ 200
      → All (λ p. mysql.same (hex p.0.token) token ≡ false) rs
      → (refresh auth_codec mysql auth_cfg jwt provider q now' jti' b'
          (serve_all site rs (record w {
            db = (refresh auth_codec mysql auth_cfg jwt provider r now jti b w.db).1;
          })).db).0.status
        ≢ 200
  refresh-refresh r q t now now' jti jti' b b' w rs decoded asked alike first fresh again =
      let after : World S = record w {
        db = (refresh auth_codec mysql auth_cfg jwt provider r now jti b w.db).1;
      } in
      let (rot, done, unused) =
        refresh-ok auth_codec mysql auth_cfg jwt provider r token now jti b w.db decoded first in
      let spent : IsSpent mysql token after.db =
        subst (IsSpent mysql token)
          (sym (
            ap (λ (o : Response × Db). o.1)
              (refresh_lem auth_codec mysql auth_cfg jwt provider r token now jti b w.db decoded)))
          (use_and_rotate_spends mysql token (now +ℤ auth_cfg.refresh_ttl) b now w.db rot done
            unused) in
      let (rot', done', unused') =
        refresh-ok auth_codec mysql auth_cfg jwt provider q t now' jti' b'
          (serve_all site rs after).db asked again in
      let reused =
        spent-reused mysql token t (now' +ℤ auth_cfg.refresh_ttl) b' now'
          (serve_all site rs after).db rot' (serve_all-IsSpent rs after fresh spent) alike done' in
      ground arith
