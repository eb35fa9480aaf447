-- ===== src/Router/Lasting.antt =====
-- internal/server/server.go: a note of a user while requests of others are served.
use go_notes_api.Base.{
  ◌≡◌, ◌∙◌, refl, sym, ap, true, false, ◌<◌, none, some, List, [], ◌∷◌, arith, All, Bool,
  first_where, rows_where, ◌==◌, eq_of_text,
}
use go_notes_api.Base.Int.{ℤ, pos, int_eq_iff, two63}
use go_notes_api.Base.Text.{trim_space, parse_int, format_int, number}
use go_notes_api.Base.Text.Numbers.{parse_int-format_int}
use go_notes_api.Schema.{Note}
use go_notes_api.Http.{Request, bearer, user_id}
use go_notes_api.World.{World}
use go_notes_api.Repos.Notes as Repo
use go_notes_api.Repos.Notes.{is_note}
use go_notes_api.Repos.Notes.Effects.{get-found}
use go_notes_api.Repos.Notes.Isolation.{of_user}
use go_notes_api.Handlers.Notes as Notes
use go_notes_api.Handlers.Notes.{NoteInput, conditional, note_etag, encode}
use go_notes_api.Router.{Site, Moment, serve_all}
use go_notes_api.Router.Isolation.{IsForeign, serve_all-others_notes}

-- A query for a note of a user sees that user's rows only.
first_where-rows_where :
    {A : Type 0} (p q : A → Bool)
    → ((x : A) → p x ≡ true → q x ≡ true)
    → (xs : List A) → first_where p (rows_where q xs) ≡ first_where p xs
unfolding first_where rows_where
first_where-rows_where p q weaker [] = refl
first_where-rows_where p q weaker (x ∷ xs) =
    ground (arith, weaker x, first_where-rows_where p q weaker xs)

own_rows :
    (uid id : ℤ) (notes : List Note)
    → first_where (is_note uid id) (rows_where (of_user uid) notes)
      ≡ first_where (is_note uid id) notes
own_rows uid id = first_where-rows_where (is_note uid id) (of_user uid) (λ n h. ground arith)

module _ {F S : Type 0} (site : Site F S) (r : Request) (now : ℤ) (input : NoteInput)
    (w : World S) where
  open site use {codec}

  -- The note that a POST stores.
  abbrev pub made : Note
  made = record {
    id = pos w.db.next_note;
    user_id = user_id r;
    title = trim_space input.title;
    body = input.body;
    created_at = now;
    updated_at = now;
    deleted_at = none;
  }

  abbrev pub posted : World S
  posted = record w { db = (Notes.create codec r now w.db).1 }

  posted-found :
      w.db.fails w.db.calls ≡ false
      → codec.decode_note r.body ≡ some input
      → (trim_space input.title == "") ≡ false
      → first_where (is_note (user_id r) (pos w.db.next_note)) posted.db.notes ≡ some made
  unfolding Notes.create Notes.create_note Repo.create Repo.get first_where
  posted-found sent decoded titled = ground (
    arith,
    int_eq_iff (user_id r) (user_id r),
    int_eq_iff (pos w.db.next_note) (pos w.db.next_note),
  )

  -- While the INSERT and the later SELECT get through: after a POST to /notes whose body decodes
  -- and whose title is not blank, and after any sequence of served requests in which Parse accepts
  -- no token as one of the note's owner, a GET by the owner with the next id as FormatInt prints it
  -- answers the note with the trimmed title and the body, or what its If-None-Match makes of it,
  -- provided that the id is below 2^63 and that RealIP leaves the Authorization header as it is.
  pub posted-get :
      (q : Request) (rs : List (Moment × Request))
      → ((q : Request) → bearer (site.real_ip q) ≡ bearer q)
      → w.db.fails w.db.calls ≡ false
      → codec.decode_note r.body ≡ some input
      → (trim_space input.title == "") ≡ false
      → w.db.next_note < two63
      → All (λ p. IsForeign site p.0 (user_id r) p.1) rs
      → user_id q ≡ user_id r
      → q.param "id" ≡ format_int (pos w.db.next_note)
      → (serve_all site rs posted).db.fails (serve_all site rs posted).db.calls ≡ false
      → (Notes.get codec q (serve_all site rs posted).db).0
        ≡ conditional codec q (note_etag codec made) (encode codec (codec.note_json made))
  unfolding Notes.get
  posted-get q rs same sent decoded titled fits foreign own asked read =
      let uid = user_id r in
      let id = pos w.db.next_note in
      let after = (serve_all site rs posted).db in
      let kept = serve_all-others_notes site uid same rs posted foreign in
      let still : first_where (is_note uid id) after.notes ≡ some made =
        sym (own_rows uid id after.notes)
        ∙ ap (first_where (is_note uid id)) kept
        ∙ own_rows uid id posted.db.notes
        ∙ posted-found sent decoded titled in
      let found = get-found uid id after made read still in
      let parsed : parse_int (q.param "id") ≡ number id =
        ap parse_int asked ∙ parse_int-format_int id fits in
      ground arith
