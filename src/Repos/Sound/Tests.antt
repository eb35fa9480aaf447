-- ===== src/Repos/Sound/Tests.antt =====
-- An account, its token and its note, while the token of someone else is rotated.
use go_notes_api.Base.{refl, [], ◌∷◌}
use go_notes_api.Base.Int.{pos}
use go_notes_api.Schema.{Db}
use go_notes_api.Fixtures.{plain_mysql, empty_db}
use go_notes_api.Repos.Notes
use go_notes_api.Repos.Users
use go_notes_api.Repos.RefreshTokens
use go_notes_api.Repos.Steps.{Later, creating, issuing, rotating, enrolling, here, next}
use go_notes_api.Repos.Sound.{IsSound, Anyone, Anything, Anytime, Later-IsSound}

abbrev enrolled : Db
enrolled = (Users.create plain_mysql "a@b.c" "h" empty_db).1

abbrev issued : Db
issued = (RefreshTokens.issue plain_mysql (1 ∷ []) (pos 7) (pos 100) enrolled).1

-- Another request took its copy of the tables, with its own count of statements.
abbrev rotated : Db
rotated =
    (RefreshTokens.use_and_rotate plain_mysql "01" (pos 200) (2 ∷ []) (pos 20)
      (record empty_db { tables = issued.tables })).1

abbrev noted : Db
noted = (Notes.create (pos 7) "milk" "two" (pos 30) (record issued { tables = rotated.tables })).1

empty-IsSound : IsSound plain_mysql empty_db.tables
empty-IsSound = record { keyed = tt; numbered = tt; enrolled = (tt, tt) }

path : Later plain_mysql Anyone Anything Anytime empty_db.tables noted.tables
path =
    next
      (next
        (next (next here (enrolling "a@b.c" "h" empty_db refl refl))
          (issuing (1 ∷ []) (pos 7) (pos 100) enrolled tt refl refl))
        (rotating "01" (pos 200) (2 ∷ []) (pos 20) (record empty_db { tables = issued.tables }) tt
          refl refl))
      (creating (pos 7) "milk" "two" (pos 30) (record issued { tables = rotated.tables }) tt refl
        refl)

Later-IsSound_example : IsSound plain_mysql noted.tables
Later-IsSound_example = Later-IsSound plain_mysql path empty-IsSound
