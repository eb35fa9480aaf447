-- ===== src/Repos/Roles/Grants.antt =====
-- internal/repos/roles.go: Has after an Assign and after an Unassign.
use go_notes_api.Base.{
  ◌≡◌, ◌≢◌, refl, ap, ◌&&◌, Bool, true, false, ℕ, ◌+◌, ◌<◌, some, List, [], ◌∷◌, String, ok, arith,
  All, rows_where, first_where, exists_where, delete_where, length, ◌==◌, Bool-cases, Option-cases,
  inl, inr,
}
use go_notes_api.Base.Int.{ℤ, eq_of_int, int_eq_iff}
use go_notes_api.Base.Keys.{IsKeyed, IsKeyed-first_where}
use go_notes_api.Base.Rows.{exists_where-delete_where, All-map}
use go_notes_api.Schema.{Role, UserRole, Db}
use go_notes_api.Sql.{Mysql}
use go_notes_api.Repos.Roles.{count_grants, joined, assign, unassign, has}

-- The row of user_roles that links the user to the role.
abbrev pub links : ℤ → ℤ → UserRole → Bool
links uid rid g = g.user_id == uid && g.role_id == rid

module _ (mysql : Mysql) where
  open mysql use {same, same_refl, same_sym, same_trans}

  -- UNIQUE(name)
  abbrev pub clash : Role → Role → Bool
  clash o p = same p.name o.name

  rows_where-found :
      (role : String) (o : Role) (os : List Role)
      → first_where (λ p. same p.name role) os ≡ some o
      → 0 < length (rows_where (λ p. p.id == o.id && same p.name role) os)
  unfolding first_where rows_where
  rows_where-found role o [] h = ground arith
  rows_where-found role o (p ∷ ps) h =
      ground (arith, int_eq_iff p.id o.id, rows_where-found role o ps)

  joined-hit :
      (uid rid : ℤ) (role : String) (os : List Role) (gs : List UserRole)
      → 0 < length (rows_where (λ o. o.id == rid && same o.name role) os)
      → exists_where (links uid rid) gs ≡ true
      → 0 < joined mysql uid role os gs
  unfolding joined exists_where
  joined-hit uid rid role os [] h e = ground arith
  joined-hit uid rid role os (g ∷ gs) h e = elim (Bool-cases (links uid rid g)) [
    | inl hit ↦
        let here : g.role_id ≡ rid = ground (arith, int_eq_iff g.role_id rid) in
        let many : 0 < length (rows_where (λ o. o.id == g.role_id && same o.name role) os) =
          rw here h in
        ground arith
    | inr miss ↦ ground (arith, joined-hit uid rid role os gs h)
  ]

  rows_where-apart :
      (rid gid : ℤ) (role : String) (os : List Role)
      → gid ≢ rid
      → All (λ o. same o.name role ≡ true → o.id ≡ rid) os
      → length (rows_where (λ o. o.id == gid && same o.name role) os) ≡ 0
  unfolding rows_where
  rows_where-apart rid gid role [] ne h = refl
  rows_where-apart rid gid role (o ∷ os) ne (h, hs) =
      ground (arith, int_eq_iff o.id gid, h, rows_where-apart rid gid role os ne hs)

  joined-miss :
      (uid rid : ℤ) (role : String) (os : List Role) (gs : List UserRole)
      → All (λ o. same o.name role ≡ true → o.id ≡ rid) os
      → exists_where (links uid rid) gs ≡ false
      → joined mysql uid role os gs ≡ 0
  unfolding joined exists_where
  joined-miss uid rid role os [] h e = refl
  joined-miss uid rid role os (g ∷ gs) h e = ground (
    arith,
    joined-miss uid rid role os gs h,
    int_eq_iff g.role_id rid,
    rows_where-apart rid g.role_id role os,
    h,
  )

  joined-delete_where :
      (uid uid' rid : ℤ) (role : String) (os : List Role) (gs : List UserRole)
      → uid ≢ uid'
      → joined mysql uid' role os (delete_where (links uid rid) gs) ≡ joined mysql uid' role os gs
  unfolding joined delete_where
  joined-delete_where uid uid' rid role os [] ne = refl
  joined-delete_where uid uid' rid role os (g ∷ gs) ne = ground (
    arith,
    joined-delete_where uid uid' rid role os gs ne,
    int_eq_iff g.user_id uid,
    int_eq_iff g.user_id uid',
  )

  -- The roles with the name of the one that a query finds have its id.
  named-IsKeyed :
      (role : String) (o : Role) (os : List Role)
      → IsKeyed clash os
      → first_where (λ p. same p.name role) os ≡ some o
      → All (λ p. same p.name role ≡ true → p.id ≡ o.id) os
  named-IsKeyed role o os keyed found =
      All-map os
        (IsKeyed-first_where clash (λ p. same p.name role) (λ p. same p.name role) (λ p h. h)
          (λ p q h k. same_trans q.name role p.name k (same_sym p.name role h)) os o keyed found)
        (λ p h k. ap (λ (r : Role). r.id) (h k))

  module _ (uid : ℤ) (role : String) (db : Db) where
    -- While no statement fails, Has answers true for a role that was assigned to the user.
    pub assign-has :
        ((n : ℕ) → db.fails n ≡ false)
        → (assign mysql uid role db).0 ≡ ok tt
        → (has mysql uid role (assign mysql uid role db).1).0 ≡ ok true
    unfolding assign has exists_where count_grants
    assign-has healthy done = elim (Option-cases (first_where (λ o. same o.name role) db.roles)) [
      | inl missing ↦ ground (arith, healthy db.calls)
      | inr (o, found) ↦
          let named = rows_where-found role o db.roles found in
          let present = joined-hit uid o.id role db.roles db.user_roles named in
          let added =
            joined-hit uid o.id role db.roles
              (record { user_id = uid; role_id = o.id } ∷ db.user_roles) named in
          ground (
            arith,
            healthy db.calls,
            healthy (db.calls + 1),
            healthy (db.calls + 1 + 1),
            int_eq_iff uid uid,
            int_eq_iff o.id o.id,
          )
    ]

    -- While no statement fails and role names are unique, Has answers false for a role that was
    -- taken from the user.
    pub unassign-has :
        ((n : ℕ) → db.fails n ≡ false)
        → IsKeyed clash db.roles
        → (unassign mysql uid role db).0 ≡ ok tt
        → (has mysql uid role (unassign mysql uid role db).1).0 ≡ ok false
    unfolding unassign has count_grants
    unassign-has healthy keyed done =
        elim (Option-cases (first_where (λ o. same o.name role) db.roles)) [
          | inl missing ↦ ground (arith, healthy db.calls)
          | inr (o, found) ↦
              let none_left =
                joined-miss uid o.id role db.roles (delete_where (links uid o.id) db.user_roles)
                  (named-IsKeyed role o db.roles keyed found)
                  (exists_where-delete_where (links uid o.id) db.user_roles) in
              ground (arith, healthy db.calls, healthy (db.calls + 1), healthy (db.calls + 1 + 1))
        ]

    -- Whatever role is assigned to a user or taken from them, the rows that Has counts for any
    -- other user and role are as many as before.
    pub others_keep_roles :
        (uid' : ℤ) (role' : String)
        → uid ≢ uid'
        → (joined mysql uid' role'
              (assign mysql uid role db).1.roles
              (assign mysql uid role db).1.user_roles
            ≡ joined mysql uid' role' db.roles db.user_roles)
          × (joined mysql uid' role'
                (unassign mysql uid role db).1.roles
                (unassign mysql uid role db).1.user_roles
              ≡ joined mysql uid' role' db.roles db.user_roles)
    unfolding assign unassign joined
    others_keep_roles uid' role' ne =
        elim (Option-cases (first_where (λ o. same o.name role) db.roles)) [
          | inl missing ↦ (ground arith, ground arith)
          | inr (o, found) ↦ (
            ground (arith, int_eq_iff uid uid'),
            ground (arith, joined-delete_where uid uid' o.id role' db.roles db.user_roles ne),
          )
        ]
