-- ===== src/Repos/Idempotency/Tests.antt =====
-- Runs of idempotency.go on small tables.
use go_notes_api.Base.{◌≡◌, ◌≢◌, refl, none, ok, err, exists_where, first_where, eq_of_text}
use go_notes_api.Base.Int.{pos, int_eq, eq_of_int}
use go_notes_api.Schema.{Db}
use go_notes_api.Sql.{exec, query, begin_tx, rollback, commit}
use go_notes_api.Fixtures.{plain_mysql, empty_db}
use go_notes_api.Repos.Idempotency.{in_progress, insert_key, select_key, refuse, replay, claim}

keys : Unit {0}
unfolding claim refuse replay insert_key select_key begin_tx exec query rollback commit exists_where
    first_where int_eq
keys = tt

granted : (claim plain_mysql "k" (pos 7) "POST" "/notes" "aa" (pos 10) empty_db).0 ≡ ok none
unfolding keys
granted = refl

abbrev claimed : Db
claimed = (claim plain_mysql "k" (pos 7) "POST" "/notes" "aa" (pos 10) empty_db).1

waiting : (claim plain_mysql "k" (pos 7) "POST" "/notes" "aa" (pos 11) claimed).0 ≡ err in_progress
unfolding keys
waiting = refl

not_granted : (claim plain_mysql "k" (pos 7) "POST" "/notes" "aa" (pos 11) claimed).0 ≢ ok none
not_granted e = cc waiting
