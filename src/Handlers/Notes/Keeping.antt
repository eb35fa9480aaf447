-- ===== src/Handlers/Notes/Keeping.antt =====
-- internal/handlers/notes.go: a property of the tables that the repositories keep.
use Prim.Native.String.{◌++◌}
use go_notes_api.Base.{
  arith, String, ℕ, List, Call, Option-cases, Result-cases, Bool-cases, inl, inr, ◌==◌, eq_of_text,
  if◌then◌else◌, take,
}
use go_notes_api.Base.Int.{ℤ}
use go_notes_api.Base.Text.{hex, format_int, trim_space, parse_int}
use go_notes_api.Schema.{Note, Tables, Db}
use go_notes_api.Http.{Request, Response, user_id, parsed_id}
use go_notes_api.Sql.{Mysql}
use go_notes_api.Repos.Notes as Repo
use go_notes_api.Repos.IdempotencyGeneric.{claim, complete}
use go_notes_api.Repos.Closed.{IsClosed, along}
use go_notes_api.Handlers.Notes.{
  Codec, NoteInput, list, get, create, create_note, update, update_claimed, delete, delete_claimed,
  claiming, finish,
}

module _ (mysql : Mysql) (Q : ℤ → Type 0) (B : List ℕ → Type 0) (K : Tables → Type 0)
    (closed : IsClosed mysql Q B K) (codec : Codec) (r : Request) (now : ℤ) where
  finish_keeps :
      (key : String) (n : Note) (d : Db)
      → K d.tables
      → K (finish codec mysql r key now n d).1.tables
  unfolding finish
  finish_keeps key n d h = elim (Bool-cases (key == "")) [
    | inl blank ↦ along K {t = d.tables} (ground arith) h
    | inr given ↦
        along K {t = (complete mysql key (user_id r) (codec.note_json n) now d).1.tables}
          (ground arith) (closed.keys.complete key (user_id r) (codec.note_json n) now d h)
  ]

  pub list_keeps : (d : Db) → K d.tables → K (list codec mysql r d).1.tables
  unfolding list Repo.list_filtered
  list_keeps d h = along K {t = d.tables} (ground arith) h

  pub get_keeps : (d : Db) → K d.tables → K (get codec r d).1.tables
  unfolding get Repo.get
  get_keeps d h = along K {t = d.tables} (ground arith) h

  claiming_keeps :
      (key method hash : String) (id : ℤ) (rest : Call Db Response) (d : Db)
      → ((e : Db) → K e.tables → K (rest e).1.tables)
      → K d.tables
      → K (claiming codec mysql r key method id hash now rest d).1.tables
  unfolding claiming
  claiming_keeps key method hash id rest d keeps h =
      let claimed = claim mysql key (user_id r) method ("/notes/" ++ format_int id) hash now d in
      let sound =
        closed.keys.claim key (user_id r) method ("/notes/" ++ format_int id) hash now d h in
      elim (Bool-cases (key == "")) [
        | inl blank ↦ along K {t = (rest d).1.tables} (ground arith) (keeps d h)
        | inr given ↦ elim (Result-cases claimed.0) [
          | inl (e, refused) ↦ along K {t = claimed.1.tables} (ground arith) sound
          | inr (res, done) ↦ elim (Option-cases res) [
            | inl new ↦
                along K {t = (rest claimed.1).1.tables} (ground arith) (keeps claimed.1 sound)
            | inr (text, stored) ↦ along K {t = claimed.1.tables} (ground arith) sound
          ]
        ]
      ]

  module _ (q : Q (user_id r)) where
    update_claimed_keeps :
        (key : String) (id : ℤ) (input : NoteInput) (d : Db)
        → K d.tables
        → K (update_claimed codec mysql r key id input now d).1.tables
    unfolding update_claimed
    update_claimed_keeps key id input d h =
        let updated = Repo.update (user_id r) id (trim_space input.title) input.body now d in
        let sound =
          closed.notes.update (user_id r) id (trim_space input.title) input.body now d q h in
        elim (Result-cases updated.0) [
          | inl (e, failed) ↦ along K {t = updated.1.tables} (ground arith) sound
          | inr (n, done) ↦
              along K {t = (finish codec mysql r key now n updated.1).1.tables} (ground arith)
                (finish_keeps key n updated.1 sound)
        ]

    delete_claimed_keeps :
        (key : String) (id : ℤ) (d : Db)
        → K d.tables
        → K (delete_claimed codec mysql r key id now d).1.tables
    unfolding delete_claimed
    delete_claimed_keeps key id d h =
        let deleted = Repo.delete (user_id r) id now d in
        let sound = closed.notes.delete (user_id r) id now d q h in
        elim (Result-cases deleted.0) [
          | inl (e, failed) ↦ along K {t = deleted.1.tables} (ground arith) sound
          | inr (n, done) ↦
              along K {t = (finish codec mysql r key now n deleted.1).1.tables} (ground arith)
                (finish_keeps key n deleted.1 sound)
        ]

    pub create_keeps : (d : Db) → K d.tables → K (create codec r now d).1.tables
    unfolding create create_note Repo.get
    create_keeps d h = elim (Option-cases (codec.decode_note r.body)) [
      | inl missing ↦ along K {t = d.tables} (ground arith) h
      | inr (input, decoded) ↦ elim (Bool-cases (trim_space input.title == "")) [
        | inl blank ↦ along K {t = d.tables} (ground arith) h
        | inr titled ↦
            along K
              {t = (Repo.create (user_id r) (trim_space input.title) input.body now d).1.tables}
              (ground arith)
              (closed.notes.create (user_id r) (trim_space input.title) input.body now d q h)
      ]
    ]

    pub update_keeps : (d : Db) → K d.tables → K (update codec mysql r now d).1.tables
    unfolding update
    update_keeps d h = elim (Option-cases (parsed_id (parse_int (r.param "id")))) [
      | inl missing ↦ along K {t = d.tables} (ground arith) h
      | inr (id, named) ↦
          let key = r.header "Idempotency-Key" in
          let raw = if key == "" then r.body else take 1048576 r.body in
          elim (Option-cases (codec.decode_note raw)) [
            | inl missing ↦ along K {t = d.tables} (ground arith) h
            | inr (input, decoded) ↦
                let rest = update_claimed codec mysql r key id input now in
                along K
                  {t = (claiming codec mysql r key "PUT" id (hex (codec.sha256 raw)) now rest
                    d).1.tables}
                  (ground arith)
                  (claiming_keeps key "PUT" (hex (codec.sha256 raw)) id rest d
                    (update_claimed_keeps key id input) h)
          ]
    ]

    pub delete_keeps : (d : Db) → K d.tables → K (delete codec mysql r now d).1.tables
    unfolding delete
    delete_keeps d h = elim (Option-cases (parsed_id (parse_int (r.param "id")))) [
      | inl missing ↦ along K {t = d.tables} (ground arith) h
      | inr (id, named) ↦
          let key = r.header "Idempotency-Key" in
          let rest = delete_claimed codec mysql r key id now in
          along K {t = (claiming codec mysql r key "DELETE" id "delete" now rest d).1.tables}
            (ground arith)
            (claiming_keeps key "DELETE" "delete" id rest d (delete_claimed_keeps key id) h)
    ]
