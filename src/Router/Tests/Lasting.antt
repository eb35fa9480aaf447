-- ===== src/Router/Tests/Lasting.antt =====
-- A note that is deleted, and one that stays.
use go_notes_api.Base.{
  ◌≡◌, refl, false, some, [], ◌∷◌, eq_of_text, ◌==◌, arith, first_where, update_where,
}
use go_notes_api.Base.Int.{pos, int_eq, int_lt}
use go_notes_api.Base.Text.{trim_space, hex, format_int, char_length, parse_int, utf8}
use go_notes_api.Repos.Notes.{get, insert_note, create}
use go_notes_api.Router.{
  serve_all, Site, dispatch, handle, serve, healthz, limited, measured, recorded, audited,
}
use go_notes_api.Sql.{query, exec_id, exec}
use go_notes_api.Http.{Request}
use go_notes_api.World.{World}
use go_notes_api.Fixtures.{Memory, blank_memory, plain_mysql, plain_codec, empty_db}
use go_notes_api.Router.Isolation.{IsForeign}
use go_notes_api.Fixtures.Site.{claims, site, at, deleting}
use go_notes_api.Router.Deletion.{delete-get}
use go_notes_api.Router.Lasting.{posted-get, made}
use go_notes_api.Handlers.Notes.{NoteInput, conditional, note_etag, encode}
use go_notes_api.Middleware.Audit.{insert_audit, audit}
use go_notes_api.Middleware.Headers.{security_headers, cors, body_limit, request_id, request_id_of}
use go_notes_api.Middleware.RedisLimit.{redis_limit, is_allowed, new_redis_limiter}
use go_notes_api.Middleware.Metrics.{observe}
use go_notes_api.Middleware.Logger.{log_request}
use go_notes_api.Handlers.Notes as Notes
use go_notes_api.Repos.Notes as Repo
use go_notes_api.Repos.Notes.Deletion.{IsNumbered}

-- User 7 deletes a note of its own.
abbrev mine_world : World Memory
mine_world = record {
  db = (create (pos 7) "eggs" "six" (pos 6) empty_db).1;
  store = blank_memory;
  observed = [];
}

mine-IsNumbered : IsNumbered mine_world.db
unfolding int_lt create insert_note exec_id
mine-IsNumbered = (refl, tt)

abbrev reading : Request
reading = record deleting { method = "GET" }

deleted : (Notes.delete plain_codec plain_mysql deleting (pos 9) mine_world.db).0.status ≡ 200
unfolding Notes.delete Notes.delete_claimed Notes.claiming Notes.finish Repo.delete Repo.bury
    Repo.select_note create insert_note exec_id exec query first_where update_where parse_int int_eq
deleted = refl

delete-get_example :
    (Notes.get plain_codec reading
      (serve_all site ((at, deleting) ∷ (at, reading) ∷ []) (record mine_world {
        db = (Notes.delete plain_codec plain_mysql deleting (pos 9) mine_world.db).1;
      })).db).0.status
    ≡ 404
unfolding parse_int
delete-get_example =
    delete-get site deleting reading (pos 1) (pos 9) mine_world
      ((at, deleting) ∷ (at, reading) ∷ []) mine-IsNumbered refl refl deleted refl refl

-- User 8 adds a note and reads it, while a request to /healthz is served.
abbrev healthy_site : Site (Unit {0}) Memory
healthy_site = record site { chi = λ table r. some (healthz, λ name. "1") }

abbrev theirs : Request
theirs = record deleting { user = some (pos 8) }

abbrev blank_world : World Memory
blank_world = record { db = empty_db; store = blank_memory; observed = [] }

abbrev milk_note : NoteInput
milk_note = record { title = "milk"; body = "two" }

milk_titled : (trim_space "milk" == "") ≡ false
unfolding trim_space
milk_titled = refl

checking-IsForeign : IsForeign healthy_site at (pos 8) deleting
checking-IsForeign raw c borne parsed e = let same : claims ≡ c = ground arith in ground arith

asked : "1" ≡ format_int (pos 1)
unfolding format_int
asked = refl

abbrev checked : World Memory
checked =
    serve_all healthy_site ((at, deleting) ∷ [])
      (record blank_world { db = (Notes.create plain_codec theirs (pos 9) blank_world.db).1 })

checked-sent : checked.db.fails checked.db.calls ≡ false
unfolding serve_all serve security_headers cors body_limit request_id limited measured observe
    recorded log_request audited audit redis_limit dispatch handle insert_audit exec Notes.create
    Notes.create_note Repo.create Repo.get is_allowed new_redis_limiter int_lt trim_space
    char_length request_id_of hex utf8
checked-sent = refl

posted-get_example :
    (Notes.get plain_codec theirs checked.db).0
    ≡ conditional plain_codec theirs
        (note_etag plain_codec (made healthy_site theirs (pos 9) milk_note blank_world))
        (encode plain_codec "milk")
unfolding trim_space
posted-get_example =
    posted-get healthy_site theirs (pos 9) milk_note blank_world theirs ((at, deleting) ∷ [])
      (λ q. refl) refl refl milk_titled (omega arith) (checking-IsForeign, tt) refl asked
      checked-sent
