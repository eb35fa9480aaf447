-- ===== src/Handlers/Notes/Caching.antt =====
-- internal/handlers/notes.go, list and get: conditional requests with If-None-Match.
use Prim.Native.String.{◌++◌}
use package.text.Mathlib.TextLemmas.{append-eq-nil_iff}
use go_notes_api.Base.{
  ◌≡◌, ◌≢◌, refl, ◌∙◌, ap, false, some, List, [], ◌∷◌, map, String, ok, arith, ◌==◌, eq_of_text,
  eq_iff, first_where, if◌then◌else◌, length,
}
use go_notes_api.Base.Int.{ℤ, pos, int_lt}
use go_notes_api.Base.Text.{parse_int, value_of}
use go_notes_api.Schema.{Note, Db}
use go_notes_api.Http.{parsed_id, Request, Response, user_id, empty_response, set_header}
use go_notes_api.Sql.{Mysql}
use go_notes_api.Repos.Notes as Repo
use go_notes_api.Repos.Notes.{Listing, is_note, clamp_page, clamp_size}
use go_notes_api.Repos.Notes.Effects.{get-found}
use go_notes_api.Handlers.Notes.{
  Codec, max_id, coll_etag, note_etag, encode, conditional, list, get,
}

literal-ne-nil : (rest : String) → "W/\"n-" ++ rest ≢ ""
literal-ne-nil rest e = ground (arith, eq_iff "W/\"n-" "", append-eq-nil_iff.0 e)

coll-ne-nil : (rest : String) → "W/\"notes-" ++ rest ≢ ""
coll-ne-nil rest e = ground (arith, eq_iff "W/\"notes-" "", append-eq-nil_iff.0 e)

module _ (codec : Codec) where
  note_etag-ne-nil : (n : Note) → note_etag codec n ≢ ""
  unfolding note_etag
  note_etag-ne-nil n = literal-ne-nil _

  coll_etag-ne-nil :
      (page size : ℤ) (q sort : String) (items : List Note)
      → coll_etag codec page size q sort items ≢ ""
  unfolding coll_etag
  coll_etag-ne-nil page size q sort items = coll-ne-nil _

  -- No ETag is empty, so the test for an empty header is no condition of its own.
  conditional_lem :
      (r : Request) (etag : String) (full : Response)
      → etag ≢ ""
      → conditional codec r etag full ≡ (
          if r.header "If-None-Match" == etag
          then empty_response 304
          else set_header "Cache-Control" "private, max-age=0, must-revalidate"
              (set_header "ETag" etag full))
  unfolding conditional
  conditional_lem r etag full ne =
      ground (arith, eq_iff (r.header "If-None-Match") "", eq_iff (r.header "If-None-Match") etag)

  -- If the id parses and the read gets through and finds the note, GET answers 304 exactly if the
  -- If-None-Match of the request is the ETag of the note as it is now, and else the note with that
  -- ETag.
  pub get_conditional :
      (r : Request) (id : ℤ) (db : Db) (n : Note)
      → parsed_id (parse_int (r.param "id")) ≡ some id
      → db.fails db.calls ≡ false
      → first_where (is_note (user_id r) id) db.notes ≡ some n
      → (get codec r db).0 ≡ (
          if r.header "If-None-Match" == note_etag codec n
          then empty_response 304
          else set_header "Cache-Control" "private, max-age=0, must-revalidate"
              (set_header "ETag" (note_etag codec n) (encode codec (codec.note_json n))))
  unfolding get
  get_conditional r id db n named sent found =
      let read = get-found (user_id r) id db n sent found in
      ground (
        arith,
        conditional_lem r (note_etag codec n) (encode codec (codec.note_json n))
            (note_etag-ne-nil n),
      )

max_id-ids :
    (most : ℤ) (xs ys : List Note)
    → map (λ n. n.id) xs ≡ map (λ n. n.id) ys
    → max_id most xs ≡ max_id most ys
unfolding max_id
max_id-ids most [] [] e = refl
max_id-ids most [] (y ∷ ys) e = cc
max_id-ids most (x ∷ xs) [] e = cc
max_id-ids most (x ∷ xs) (y ∷ ys) e =
    let here : x.id ≡ y.id = cc in
    ap (λ i. max_id (if int_lt most i then i else most) xs) here
    ∙ max_id-ids (if int_lt most y.id then y.id else most) xs ys cc

length-ids : (xs ys : List Note) → map (λ n. n.id) xs ≡ map (λ n. n.id) ys → length xs ≡ length ys
length-ids [] [] e = refl
length-ids [] (y ∷ ys) e = cc
length-ids (x ∷ xs) [] e = cc
length-ids (x ∷ xs) (y ∷ ys) e = omega (arith, length-ids xs ys cc)

module _ (codec : Codec) where
  coll_etag-ids :
      (page size : ℤ) (q sort : String) (xs ys : List Note)
      → map (λ n. n.id) xs ≡ map (λ n. n.id) ys
      → coll_etag codec page size q sort xs ≡ coll_etag codec page size q sort ys
  unfolding coll_etag
  coll_etag-ids page size q sort xs ys e = cc (max_id-ids (pos 0) xs ys e, length-ids xs ys e)

  module _ (mysql : Mysql) (r : Request) where
    abbrev pub asked_page : ℤ
    asked_page = clamp_page (value_of (parse_int (r.query "page")))

    abbrev pub asked_size : ℤ
    asked_size = clamp_size (value_of (parse_int (r.query "size")))

    abbrev pub listing_etag : List Note → String
    listing_etag items = coll_etag codec asked_page asked_size (r.query "q") (r.query "sort") items

    -- If the listing gets through, a GET of a page with the ETag of an earlier listing of it that
    -- showed notes with the same ids is answered with 304, whatever their titles, bodies and times
    -- are now.
    pub list_ignores_edits :
        (db : Db) (before : List Note) (l : Listing)
        → (Repo.list_filtered mysql
            (user_id r)
            asked_page
            asked_size
            (r.query "q")
            (r.query "sort")
            db).0
          ≡ ok l
        → map (λ n. n.id) before ≡ map (λ n. n.id) l.items
        → r.header "If-None-Match" ≡ listing_etag before
        → (list codec mysql r db).0 ≡ empty_response 304
    unfolding list
    list_ignores_edits db before l found same_ids held =
        let etag =
          held
          ∙ coll_etag-ids asked_page asked_size (r.query "q") (r.query "sort") before l.items
              same_ids in
        ground (
          arith,
          conditional_lem codec r (listing_etag l.items)
              (encode codec (codec.listing_json l asked_page asked_size))
              (coll_etag-ne-nil codec asked_page asked_size (r.query "q") (r.query "sort") l.items),
          eq_iff (r.header "If-None-Match") (listing_etag l.items),
        )
