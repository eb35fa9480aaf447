-- ===== src/Repos/IdempotencyGeneric/Tests.antt =====
-- Runs of idempotency_generic.go on small tables.
use go_notes_api.Base.{
  ◌≡◌, ◌≢◌, refl, false, ◌+◌, none, some, ok, exists_where, first_where, update_where, eq_of_text,
  eq_of_nat,
}
use go_notes_api.Base.Int.{pos, int_eq, eq_of_int}
use go_notes_api.Schema.{Db}
use go_notes_api.Sql.{exec, query, begin_tx, rollback, commit}
use go_notes_api.Fixtures.{plain_mysql, empty_db}
use go_notes_api.Repos.Idempotency.{insert_key, select_key}
use go_notes_api.Repos.IdempotencyGeneric.{complete_text, refuse, replay, claim, complete}
use go_notes_api.Repos.IdempotencyGeneric.Once.{
  here, next, claiming, completing, claim_granted_once,
}
use go_notes_api.Repos.IdempotencyGeneric.Replay.{claim-complete-replay}

keys : Unit {0}
unfolding claim complete complete_text refuse replay insert_key select_key begin_tx exec query
    rollback commit exists_where first_where update_where int_eq
keys = tt

-- User 7 claims the key "k" at the time 10 and completes it at the time 12.
abbrev claimed : Db
claimed = (claim plain_mysql "k" (pos 7) "PUT" "/notes/1" "aa" (pos 10) empty_db).1

abbrev completed : Db
completed = (complete plain_mysql "k" (pos 7) "done" (pos 12) claimed).1

granted : (claim plain_mysql "k" (pos 7) "PUT" "/notes/1" "aa" (pos 10) empty_db).0 ≡ ok none
unfolding keys
granted = refl

sent : claimed.fails claimed.calls ≡ false
unfolding keys
sent = refl

claim_granted_once_example :
    (claim plain_mysql "k" (pos 8) "PUT" "/notes/2" "bb" (pos 20) completed).0 ≢ ok none
claim_granted_once_example =
    claim_granted_once plain_mysql "k" (pos 7) "PUT" "/notes/1" "aa" (pos 10) empty_db completed
      (pos 8) "PUT" "/notes/2" "bb" (pos 20) granted refl
      (next here (completing "k" (pos 7) "done" (pos 12) refl))

-- In between, user 8 tries the key.
abbrev tried : Db
tried = (claim plain_mysql "k" (pos 8) "PUT" "/notes/2" "bb" (pos 20) completed).1

tried-sent : (tried.fails tried.calls ≡ false) × (tried.fails (tried.calls + 1 + 1) ≡ false)
unfolding keys
tried-sent = (refl, refl)

claim-complete-replay_example :
    (claim plain_mysql "k" (pos 7) "PUT" "/notes/1" "aa" (pos 30) tried).0 ≡ ok (some "done")
claim-complete-replay_example =
    claim-complete-replay plain_mysql "k" (pos 7) "PUT" "/notes/1" "aa" "done" (pos 10) (pos 12)
      empty_db claimed tried "PUT" "/notes/1" "aa" (pos 30) granted refl refl sent
      (next here (claiming "k" (pos 8) "PUT" "/notes/2" "bb" (pos 20) refl)) tried-sent
