-- ===== src/Repos/Users/Keys.antt =====
-- internal/repos/users.go: the UNIQUE column email, and the ids of the accounts.
use go_notes_api.Base.{
  ◌≡◌, Bool, true, ℕ, ◌+◌, List, String, arith, All, exists_where, Bool-cases, inl, inr,
}
use go_notes_api.Base.Int.{pos, int_lt}
use go_notes_api.Base.Keys.{IsKeyed}
use go_notes_api.Base.Rows.{All-map}
use go_notes_api.Schema.{Db, User}
use go_notes_api.Sql.{Mysql}
use go_notes_api.Repos.Users.{create}

-- Every id is below the next value of the AUTO_INCREMENT column.
abbrev pub IsBelow : ℕ → User → Type 0
IsBelow next u = int_lt u.id (pos next) ≡ true

IsBelow-suc : (bound : ℕ) (u : User) → IsBelow bound u → IsBelow (bound + 1) u
unfolding int_lt
IsBelow-suc bound u h = ground arith

next-IsBelow : (bound : ℕ) → int_lt (pos bound) (pos (bound + 1)) ≡ true
unfolding int_lt
next-IsBelow bound = ground arith

module _ (mysql : Mysql) where
  abbrev pub clash : User → User → Bool
  clash u v = mysql.same v.email u.email

  -- No two accounts have one email address, and every id was given out.
  abbrev pub IsEnrolled : List User → ℕ → Type 0
  IsEnrolled users next = IsKeyed clash users × All (IsBelow next) users

  pub create-IsEnrolled :
      (email hash : String) (db : Db)
      → IsEnrolled db.users db.next_user
      → IsEnrolled (create mysql email hash db).1.users (create mysql email hash db).1.next_user
  unfolding create
  create-IsEnrolled email hash db (keyed, below) =
      let older = All-map db.users below (λ u k. IsBelow-suc db.next_user u k) in
      elim (Bool-cases (db.fails db.calls)) [
        | inl lost ↦ elim (Bool-cases (db.kept db.calls)) [
          | inl kept ↦ elim (Bool-cases (exists_where (λ u. mysql.same u.email email) db.users)) [
            | inl taken ↦ rw (lost, kept, taken) (keyed, below)
            | inr new ↦ rw (lost, kept, new) ((new, keyed), (next-IsBelow db.next_user, older))
          ]
          | inr dropped ↦ rw (lost, dropped) (keyed, below)
        ]
        | inr sent ↦ elim (Bool-cases (exists_where (λ u. mysql.same u.email email) db.users)) [
          | inl taken ↦ rw (sent, taken) (keyed, below)
          | inr new ↦ rw (sent, new) ((new, keyed), (next-IsBelow db.next_user, older))
        ]
      ]
