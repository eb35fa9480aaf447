-- ===== src/Repos/IdempotencyGeneric/Replay.antt =====
-- internal/repos/idempotency_generic.go, Claim: what a caller gets for a key that is taken.
use go_notes_api.Base.{
  ◌≡◌, refl, ◌∙◌, ap, ◌&&◌, Bool, true, false, not, ◌+◌, none, some, String, ok, err, arith,
  first_where, exists_where, ◌==◌, eq_of_text, if◌then◌else◌,
}
use go_notes_api.Base.Int.{ℤ, eq_of_int, int_eq_iff}
use go_notes_api.Base.Rows.{
  first_where-update_where, first_where-update_where_hit, first_where-exists, first_where-holds,
}
use go_notes_api.Schema.{Db, IdempotencyKey}
use go_notes_api.Sql.{Mysql}
use go_notes_api.Repos.Idempotency.{mismatch, is_completed}
use go_notes_api.Repos.IdempotencyGeneric.{claim, complete}
use go_notes_api.Repos.IdempotencyGeneric.Once.{
  Step, claiming, completing, elsewhere, Later, here, next,
}

-- BEGIN and the third statement of a claim get through.
abbrev pub IsSent : Db → Type 0
IsSent db = (db.fails db.calls ≡ false) × (db.fails (db.calls + 1 + 1) ≡ false)

module _ (mysql : Mysql) (key : String) (uid : ℤ) where
  open mysql use {same, same_refl, same_sym, same_trans}

  abbrev pub is_mine : IdempotencyKey → Bool
  is_mine r = same r.key key && r.user_id == uid

  -- The key of the user is completed with a response, for a body with the hash.
  pub record IsDone (hash text : String) (db : Db) : Type 0 where
    pub row : IdempotencyKey
    pub found : first_where is_mine db.idempotency_keys ≡ some row
    pub hashed : row.body_sha256 ≡ hash
    pub completed : is_completed row ≡ true
    pub stored : row.result_text ≡ some text

  module _ (hash text : String) where
    claim-found :
        (k : String) (uid' : ℤ) (method path hash' : String) (now : ℤ) (db : Db)
        (r : IdempotencyKey)
        → first_where is_mine db.idempotency_keys ≡ some r
        → first_where is_mine (claim mysql k uid' method path hash' now db).1.idempotency_keys
          ≡ some r
    unfolding claim first_where
    claim-found k uid' method path hash' now db r h = ground (
      arith,
      first_where-holds is_mine db.idempotency_keys r h,
      first_where-exists is_mine (λ s. same s.key k) db.idempotency_keys r h,
      same_sym k key,
      same_trans r.key key k,
    )

    complete-found :
        (k : String) (uid' : ℤ) (result : String) (now : ℤ) (db : Db) (r : IdempotencyKey)
        → first_where is_mine db.idempotency_keys ≡ some r
        → is_completed r ≡ true
        → first_where is_mine (complete mysql k uid' result now db).1.idempotency_keys ≡ some r
    unfolding complete
    complete-found k uid' result now db r h done = ground (
      arith,
      first_where-update_where (λ s. same s.key k && s.user_id == uid' && not (is_completed s))
          is_mine
          (λ (s : IdempotencyKey). record s { result_text = some result; completed_at = some now })
          db.idempotency_keys r h (ground arith) (λ s. refl),
    )

    IsDone-at :
        {db after : Db} (d : IsDone hash text db)
        → first_where is_mine after.idempotency_keys ≡ some d.row
        → IsDone hash text after
    IsDone-at d e = record {
      row = d.row;
      found = e;
      hashed = d.hashed;
      completed = d.completed;
      stored = d.stored;
    }

    pub Step-IsDone :
        {db after : Db} → Step mysql key db after → IsDone hash text db → IsDone hash text after
    Step-IsDone {db} (claiming k uid' method path hash' now e) d = IsDone-at d (
        ap (λ (x : Db). first_where is_mine x.idempotency_keys) e
        ∙ claim-found k uid' method path hash' now db d.row d.found)
    Step-IsDone {db} (completing k uid' result now e) d = IsDone-at d (
        ap (λ (x : Db). first_where is_mine x.idempotency_keys) e
        ∙ complete-found k uid' result now db d.row d.found d.completed)
    Step-IsDone (elsewhere e) d = IsDone-at d (ap (first_where is_mine) e ∙ d.found)

    pub Later-IsDone :
        {db after : Db} → Later mysql key db after → IsDone hash text db → IsDone hash text after
    Later-IsDone here d = d
    Later-IsDone (next l s) d = Step-IsDone s (Later-IsDone l d)

    pub IsDone-taken :
        (db : Db)
        → IsDone hash text db
        → exists_where (λ s. same s.key key) db.idempotency_keys ≡ true
    IsDone-taken db d = ground (
      arith,
      first_where-holds is_mine db.idempotency_keys d.row d.found,
      first_where-exists is_mine (λ s. same s.key key) db.idempotency_keys d.row d.found,
    )

    -- A completed key answers its stored response, or a mismatch if the body is another.
    pub claim_done :
        (method path hash' : String) (now : ℤ) (db : Db)
        → IsDone hash text db
        → IsSent db
        → (claim mysql key uid method path hash' now db).0
          ≡ (if hash == hash' then ok (some text) else err mismatch)
    unfolding claim
    claim_done method path hash' now db d (begun, read) = ground (
      arith,
      d.found,
      d.hashed,
      d.completed,
      d.stored,
      first_where-holds is_mine db.idempotency_keys d.row d.found,
      first_where-exists is_mine (λ s. same s.key key) db.idempotency_keys d.row d.found,
    )

  -- The row that the first claim of a key stores.
  abbrev pub claimed_row : String → String → String → ℤ → IdempotencyKey
  claimed_row method path hash now = record {
    key = key;
    user_id = uid;
    method = method;
    path = path;
    body_sha256 = hash;
    note_id = none;
    claimed_at = now;
    completed_at = none;
    result_text = none;
  }

  pub claim_grant-found :
      (method path hash : String) (now : ℤ) (db : Db)
      → (claim mysql key uid method path hash now db).0 ≡ ok none
      → db.fails (db.calls + 1 + 1) ≡ false
      → first_where is_mine (claim mysql key uid method path hash now db).1.idempotency_keys
        ≡ some (claimed_row method path hash now)
  unfolding claim first_where
  claim_grant-found method path hash now db granted sent =
      ground (arith, same_refl key, int_eq_iff uid uid)

  complete-hit :
      (text : String) (now : ℤ) (db : Db) (r : IdempotencyKey)
      → first_where is_mine db.idempotency_keys ≡ some r
      → is_completed r ≡ false
      → db.fails db.calls ≡ false
      → first_where is_mine (complete mysql key uid text now db).1.idempotency_keys
        ≡ some (record r { result_text = some text; completed_at = some now })
  unfolding complete
  complete-hit text now db r h pending sent =
      let held = first_where-holds is_mine db.idempotency_keys r h in
      ground (
        arith,
        first_where-update_where_hit
            (λ s. same s.key key && s.user_id == uid && not (is_completed s)) is_mine
            (λ (s : IdempotencyKey). record s { result_text = some text; completed_at = some now })
            db.idempotency_keys r h (ground arith) (λ s. refl),
      )

  -- A claim that was granted, work that leaves the keys alone, and the completion.
  pub claim-complete-IsDone :
      (method path hash text : String) (now now' : ℤ) (db mid : Db)
      → (claim mysql key uid method path hash now db).0 ≡ ok none
      → db.fails (db.calls + 1 + 1) ≡ false
      → mid.idempotency_keys ≡ (claim mysql key uid method path hash now db).1.idempotency_keys
      → mid.fails mid.calls ≡ false
      → IsDone hash text (complete mysql key uid text now' mid).1
  claim-complete-IsDone method path hash text now now' db mid granted sent kept sent' = record {
    row = record (claimed_row method path hash now) {
      result_text = some text;
      completed_at = some now';
    };
    found =
        complete-hit text now' mid (claimed_row method path hash now)
          (ap (first_where is_mine) kept ∙ claim_grant-found method path hash now db granted sent)
          refl sent';
    hashed = refl;
    completed = refl;
    stored = refl;
  }

  -- After a claim that was granted and stored, and its completion with a text, at a time when the
  -- keys are as the claim left them, every later claim of the key by that user, for whatever method
  -- and path, answers the text if the body has the same hash and a mismatch if not, after any steps
  -- in between, if BEGIN and the SELECT of the claim get through.
  pub claim-complete-replay :
      (method path hash text : String) (now now' : ℤ) (db mid last : Db)
      (method' path' hash' : String) (now'' : ℤ)
      → (claim mysql key uid method path hash now db).0 ≡ ok none
      → db.fails (db.calls + 1 + 1) ≡ false
      → mid.idempotency_keys ≡ (claim mysql key uid method path hash now db).1.idempotency_keys
      → mid.fails mid.calls ≡ false
      → Later mysql key (complete mysql key uid text now' mid).1 last
      → IsSent last
      → (claim mysql key uid method' path' hash' now'' last).0
        ≡ (if hash == hash' then ok (some text) else err mismatch)
  claim-complete-replay method path hash text now now' db mid last method' path' hash' now'' granted
        sent kept sent' later sent'' =
      claim_done hash text method' path' hash' now'' last
        (Later-IsDone hash text later
          (claim-complete-IsDone method path hash text now now' db mid granted sent kept sent'))
        sent''
