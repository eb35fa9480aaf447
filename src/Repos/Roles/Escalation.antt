-- ===== src/Repos/Roles/Escalation.antt =====
-- internal/repos/roles.go: grants of one role, and who has another.
use go_notes_api.Base.{
  ◌≡◌, refl, subst, ◌&&◌, Bool, true, false, some, List, [], ◌∷◌, String, arith, rows_where,
  first_where, exists_where, length, ◌==◌, Bool-cases, Option-cases, inl, inr,
}
use go_notes_api.Base.Int.{ℤ, eq_of_int, int_eq_iff}
use go_notes_api.Base.Keys.{IsKeyed}
use go_notes_api.Base.Rows.{first_where-exists}
use go_notes_api.Schema.{Role, Db}
use go_notes_api.Sql.{Mysql}
use go_notes_api.Repos.Roles.{joined, assign}

-- PRIMARY KEY(id)
abbrev pub same_id : Role → Role → Bool
same_id o p = p.id == o.id

module _ (mysql : Mysql) (asked held : String) (ne : mysql.same held asked ≡ false) where
  open mysql use {same, same_sym, same_trans}

  named_apart : (o : Role) → same o.name held ≡ true → same o.name asked ≡ false
  named_apart o h = elim (Bool-cases (same o.name asked)) [
    | inl both ↦ ground (arith, same_sym o.name held, same_trans held o.name asked)
    | inr other ↦ other
  ]

  -- No row has the id.
  unnamed :
      (rid : ℤ) (os : List Role)
      → exists_where (λ o. o.id == rid) os ≡ false
      → length (rows_where (λ o. o.id == rid && same o.name asked) os) ≡ 0
  unfolding exists_where rows_where
  unnamed rid [] h = refl
  unnamed rid (o ∷ os) h = ground (arith, unnamed rid os)

  -- The role `held` is not a row of the role `asked`.
  found_apart :
      (o : Role) (os : List Role)
      → IsKeyed same_id os
      → first_where (λ p. same p.name held) os ≡ some o
      → length (rows_where (λ p. p.id == o.id && same p.name asked) os) ≡ 0
  unfolding first_where rows_where
  found_apart o [] keyed h = refl
  found_apart o (p ∷ ps) (apart, keyed) h = elim (Bool-cases (same p.name held)) [
    | inl here ↦
        let other = named_apart p here in
        let first : p ≡ o = ground arith in
        let rest : length (rows_where (λ q. q.id == o.id && same q.name asked) ps) ≡ 0 =
          subst (λ (x : Role). length (rows_where (λ q. q.id == x.id && same q.name asked) ps) ≡ 0)
            first (unnamed p.id ps apart) in
        ground arith
    | inr later ↦
        let found : first_where (λ q. same q.name held) ps ≡ some o = ground arith in
        let differs : (p.id == o.id) ≡ false = ground (
          arith,
          first_where-exists (λ q. same q.name held) (same_id p) ps o found apart,
          int_eq_iff p.id o.id,
          int_eq_iff o.id p.id,
        ) in
        ground (arith, found_apart o ps keyed found)
  ]

  -- Assign of the role `held` gives nobody the role `asked`.
  pub assign-joined :
      (uid other : ℤ) (db : Db)
      → IsKeyed same_id db.roles
      → joined mysql other asked db.roles (assign mysql uid held db).1.user_roles
        ≡ joined mysql other asked db.roles db.user_roles
  unfolding assign joined
  assign-joined uid other db keyed =
      elim (Option-cases (first_where (λ o. same o.name held) db.roles)) [
        | inl missing ↦ ground arith
        | inr (o, found) ↦ ground (arith, found_apart o db.roles keyed found)
      ]
