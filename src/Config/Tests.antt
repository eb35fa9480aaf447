-- ===== src/Config/Tests.antt =====
-- The configuration from small environments.
use go_notes_api.Base.{◌≡◌, refl, some, String, [], ◌∷◌, ◌==◌, eq_of_text, if◌then◌else◌}
use go_notes_api.Base.Int.{pos}
use go_notes_api.Base.Text.{parse_int, split, trim_space}
use go_notes_api.Config.{load, split_csv}
use go_notes_api.Config.Panics.{failure, settings, complaint, first_complaint, failure-load}

abbrev bad_number : String → String
bad_number k = if k == "REDIS_DB" then "x" else ""

complains :
    first_complaint bad_number (λ s. some (pos 1)) (λ s. some tt) settings
    ≡ some "REDIS_DB: invalid int x"
unfolding first_complaint complaint parse_int
complains = refl

sites : split_csv "a.b, c.d" ≡ "a.b" ∷ "c.d" ∷ []
unfolding split_csv split trim_space
sites = refl

failure-load_example :
    failure (load bad_number (λ s. some (pos 1)) (λ s. some tt))
    ≡ first_complaint bad_number (λ s. some (pos 1)) (λ s. some tt) settings
failure-load_example = failure-load bad_number (λ s. some (pos 1)) (λ s. some tt)
