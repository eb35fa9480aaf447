-- ===== src/Middleware/Limiter/Buckets.antt =====
-- internal/middleware/ratelimit.go, get: the map of buckets, as each client sees it.
use go_notes_api.Base.{
  ◌≡◌, refl, ap, Bool, false, none, some, List, [], ◌∷◌, String, arith, ◌==◌, eq_of_text, eq_iff,
  if◌then◌else◌, first_where, update_where, Bool-cases, Option-cases, inl, inr,
}
use go_notes_api.Base.Int.{ℤ}
use go_notes_api.Base.Rows.{
  first_where-update_where_apart, first_where-update_where_hit, first_where-holds,
  first_where-front, first_where-behind,
}
use go_notes_api.Middleware.Limiter.{Bucket, Entry, get, allow_at}

module _ {L : Type 0} (bucket : Bucket L) where
  open bucket use {fresh, allow}

  -- The bucket of a client.
  abbrev pub bucket_of : String → List (Entry L) → L
  bucket_of k entries = elim (first_where (λ e. e.key == k) entries) [
    | none ↦ fresh
    | some e ↦ e.lim
  ]

  -- The answers that a client gets while others call too.
  unfoldable pub answers : String → List (String × ℤ) → List (Entry L) → List Bool
  answers k [] entries = []
  answers k ((j, now) ∷ rs) entries =
      let (passed, entries') = allow_at bucket j now entries in
      let rest = answers k rs entries' in if j == k then passed ∷ rest else rest

  -- The answers that it would get from a bucket of its own.
  unfoldable pub answers_alone : String → List (String × ℤ) → L → List Bool
  answers_alone k [] lim = []
  answers_alone k ((j, now) ∷ rs) lim =
      let (passed, lim') = allow now lim in
      let mine = answers_alone k rs lim' in
      let others = answers_alone k rs lim in if j == k then passed ∷ mine else others

  update-bucket_of :
      (j k : String) (f : Entry L → Entry L) (entries : List (Entry L))
      → ((e : Entry L) → (f e).key ≡ e.key)
      → (j == k) ≡ false
      → bucket_of k (update_where (λ e. e.key == j) f entries) ≡ bucket_of k entries
  update-bucket_of j k f entries keep ne =
      let kept =
        first_where-update_where_apart (λ (e : Entry L). e.key == j) (λ (e : Entry L). e.key == k) f
          entries
          (λ e h. (
            ground (arith, eq_iff e.key j, eq_iff e.key k, eq_iff j k),
            ground (arith, keep e, eq_iff (f e).key k, eq_iff e.key j, eq_iff e.key k, eq_iff j k),
          )) in
      ground arith

  update-first_where :
      (k : String) (f : Entry L → Entry L) (entries : List (Entry L)) (e : Entry L)
      → ((e : Entry L) → (f e).key ≡ e.key)
      → first_where (λ (e : Entry L). e.key == k) entries ≡ some e
      → first_where (λ (e : Entry L). e.key == k) (update_where (λ e. e.key == k) f entries)
        ≡ some (f e)
  update-first_where k f entries e keep found =
      first_where-update_where_hit (λ (e : Entry L). e.key == k) (λ (e : Entry L). e.key == k) f
        entries e found (first_where-holds (λ (e : Entry L). e.key == k) entries e found)
        (λ d. ap (λ t. t == k) (keep d))

  allow_at-answer :
      (k : String) (now : ℤ) (entries : List (Entry L))
      → (allow_at bucket k now entries).0 ≡ (allow now (bucket_of k entries)).0
  unfolding allow_at get
  allow_at-answer k now entries =
      elim (Option-cases (first_where (λ (e : Entry L). e.key == k) entries)) [
        | inl missing ↦ ground arith
        | inr (e, found) ↦ ground arith
      ]

  abbrev mark : ℤ → Entry L → Entry L
  mark now e = record e { ts = now }

  abbrev spend : ℤ → L → Entry L → Entry L
  spend now lim e = record e { lim = (allow now lim).1 }

  allow_at-same :
      (k : String) (now : ℤ) (entries : List (Entry L))
      → bucket_of k (allow_at bucket k now entries).1 ≡ (allow now (bucket_of k entries)).1
  unfolding allow_at get
  allow_at-same k now entries =
      elim (Option-cases (first_where (λ (e : Entry L). e.key == k) entries)) [
        | inl missing ↦
            let front : Entry L = record { key = k; lim = fresh; ts = now } in
            let spent =
              update-first_where k (spend now fresh) (front ∷ entries) front (λ e. refl)
                (first_where-front (λ (e : Entry L). e.key == k) entries front
                  ((eq_iff k k).1 refl)) in
            ground arith
        | inr (e, found) ↦
            let marked = update-first_where k (mark now) entries e (λ e. refl) found in
            let spent =
              update-first_where k (spend now e.lim)
                (update_where (λ (e : Entry L). e.key == k) (mark now) entries) (mark now e)
                (λ e. refl) marked in
            ground arith
      ]

  allow_at-other :
      (j k : String) (now : ℤ) (entries : List (Entry L))
      → (j == k) ≡ false
      → bucket_of k (allow_at bucket j now entries).1 ≡ bucket_of k entries
  unfolding allow_at get
  allow_at-other j k now entries ne =
      elim (Option-cases (first_where (λ (e : Entry L). e.key == j) entries)) [
        | inl missing ↦
            let front : Entry L = record { key = j; lim = fresh; ts = now } in
            let spent = update-bucket_of j k (spend now fresh) (front ∷ entries) (λ e. refl) ne in
            let apart = first_where-behind (λ (e : Entry L). e.key == k) entries front ne in
            ground arith
        | inr (e, found) ↦
            let marked = update-bucket_of j k (mark now) entries (λ e. refl) ne in
            let spent =
              update-bucket_of j k (spend now e.lim)
                (update_where (λ (e : Entry L). e.key == j) (mark now) entries) (λ e. refl) ne in
            ground arith
      ]

  -- The answers that a client gets from the limiter, while others call too, are those that it would
  -- get from a bucket of its own, which starts as the one in the map, or new.
  pub answers-answers_alone :
      (k : String) (rs : List (String × ℤ)) (entries : List (Entry L))
      → answers k rs entries ≡ answers_alone k rs (bucket_of k entries)
  unfolding answers answers_alone
  answers-answers_alone k [] entries = refl
  answers-answers_alone k ((j, now) ∷ rs) entries = elim (Bool-cases (j == k)) [
    | inl mine ↦
        let same = (eq_iff j k).0 mine in
        let now_at = allow_at-answer j now entries in
        let left = allow_at-same j now entries in
        let later = answers-answers_alone k rs (allow_at bucket j now entries).1 in ground arith
    | inr other ↦
        let left = allow_at-other j k now entries other in
        let later = answers-answers_alone k rs (allow_at bucket j now entries).1 in ground arith
  ]
