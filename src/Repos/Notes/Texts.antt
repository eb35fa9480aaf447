-- ===== src/Repos/Notes/Texts.antt =====
-- internal/repos/notes.go: the text at a user and an id after each statement.
use go_notes_api.Base.{
  ◌≡◌, ◌∙◌, ◌&&◌, true, false, none, some, List, ◌∷◌, String, arith, first_where, update_where,
  ◌==◌, if◌then◌else◌, eq_iff, Option-cases, Bool-cases, inl, inr,
}
use go_notes_api.Base.Int.{ℤ, eq_of_int, int_eq_iff}
use go_notes_api.Base.Rows.{
  first_where-update_where_apart, first_where-update_where_hit, first_where-update_where-none,
  first_where-none-update_where, first_where-holds,
}
use go_notes_api.Schema.{Note}
use go_notes_api.Repos.Notes.{is_note, is_present, edit_note, bury_note}
use go_notes_api.Repos.Notes.Shelf.{text_of, rewritten, text_at}

module _ (uid id : ℤ) (u i : ℤ) where
  -- Another user or another id.
  apart :
      (u == uid && i == id) ≡ false → (n : Note) → is_note uid id n ≡ true → is_note u i n ≡ false
  apart ne n h = ground (
    arith,
    int_eq_iff n.user_id uid,
    int_eq_iff n.id id,
    int_eq_iff n.user_id u,
    int_eq_iff n.id i,
    int_eq_iff u uid,
    int_eq_iff i id,
  )

edit-is_note :
    (uid id : ℤ) (title body : String) (now : ℤ) (n : Note)
    → is_note uid id (edit_note title body now n) ≡ is_note uid id n
unfolding edit_note
edit-is_note uid id title body now n = ground arith

edit-text_of :
    (title body : String) (now : ℤ) (n : Note)
    → text_of (edit_note title body now n) ≡ (title, body)
unfolding edit_note
edit-text_of title body now n = ground (arith, eq_iff n.title title, eq_iff n.body body)

pub edit-text_here :
    (uid id : ℤ) (title body : String) (now : ℤ) (ns : List Note)
    → text_at uid id (update_where (is_note uid id) (edit_note title body now) ns)
      ≡ rewritten title body (text_at uid id ns)
edit-text_here uid id title body now ns = elim (Option-cases (first_where (is_note uid id) ns)) [
  | inl missing ↦
      let still =
        first_where-none-update_where (is_note uid id) (is_note uid id) (edit_note title body now)
          ns missing (λ n h. edit-is_note uid id title body now n ∙ h) in
      ground arith
  | inr (n, found) ↦
      let hit =
        first_where-update_where_hit (is_note uid id) (is_note uid id) (edit_note title body now) ns
          n found (first_where-holds (is_note uid id) ns n found)
          (λ m. edit-is_note uid id title body now m) in
      ground (arith, edit-text_of title body now n)
]

pub edit-text_at :
    (uid id u i : ℤ) (title body : String) (now : ℤ) (ns : List Note)
    → text_at u i (update_where (is_note uid id) (edit_note title body now) ns)
      ≡ (if u == uid && i == id then rewritten title body (text_at uid id ns) else text_at u i ns)
edit-text_at uid id u i title body now ns = elim (Bool-cases (u == uid && i == id)) [
  | inl hit ↦
      let eu : u ≡ uid = ground (arith, int_eq_iff u uid) in
      let ei : i ≡ id = ground (arith, int_eq_iff i id) in
      rw hit (rw (eu, ei) (edit-text_here uid id title body now ns))
  | inr ne ↦
      let kept =
        first_where-update_where_apart (is_note uid id) (is_note u i) (edit_note title body now) ns
          (λ n h. (
            apart uid id u i ne n h,
            edit-is_note u i title body now n ∙ apart uid id u i ne n h,
          )) in
      ground arith
]

bury-text_here :
    (uid id now : ℤ) (ns : List Note)
    → text_at uid id (update_where (is_note uid id) (bury_note now) ns) ≡ none
bury-text_here uid id now ns =
    let gone =
      first_where-update_where-none (is_note uid id) (bury_note now) ns (λ n. ground arith) in
    ground arith

pub bury-text_at :
    (uid id u i now : ℤ) (ns : List Note)
    → text_at u i (update_where (is_note uid id) (bury_note now) ns)
      ≡ (if u == uid && i == id then none else text_at u i ns)
bury-text_at uid id u i now ns = elim (Bool-cases (u == uid && i == id)) [
  | inl hit ↦
      let eu : u ≡ uid = ground (arith, int_eq_iff u uid) in
      let ei : i ≡ id = ground (arith, int_eq_iff i id) in
      rw hit (rw (eu, ei) (bury-text_here uid id now ns))
  | inr ne ↦
      let kept =
        first_where-update_where_apart (is_note uid id) (is_note u i) (bury_note now) ns
          (λ n h. (apart uid id u i ne n h, ground arith)) in
      ground arith
]

pub new-text_at :
    (n : Note) (u i : ℤ) (ns : List Note)
    → is_present n ≡ true
    → text_at u i (n ∷ ns)
      ≡ (if u == n.user_id && i == n.id then some (text_of n) else text_at u i ns)
unfolding first_where
new-text_at n u i ns h =
    ground
      (arith, int_eq_iff n.user_id u, int_eq_iff n.id i, int_eq_iff u n.user_id, int_eq_iff i n.id)
