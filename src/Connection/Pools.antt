-- ===== src/Connection/Pools.antt =====
-- internal/db/db.go: how many pools are left open.
use go_notes_api.Base.{
  ◌≡◌, ◌+◌, ℕ, suc, none, List, [], ◌∷◌, String, ok, err, arith, Option-cases, inl, inr, ◌⊎◌,
}
use go_notes_api.Connection.{
  Driver, Pool, Action, opened, closed, closing, up_error, open_and_migrate,
}

-- The number of pools that were opened, and of those that were closed.
unfoldable pub opens : List Action → ℕ
opens [] = 0
opens (opened ∷ done) = suc (opens done)
opens (_ ∷ done) = opens done

unfoldable pub closes : List Action → ℕ
closes [] = 0
closes (closed ∷ done) = suc (closes done)
closes (_ ∷ done) = closes done

module _ (driver : Driver) (dsn : String) (pool : Pool) where
  -- No call has failed, or Up had nothing to do.
  pub record IsUp : Type 0 where
    pub connect_ok : driver.connect "mysql" dsn ≡ none
    pub ping_ok : driver.ping ≡ none
    pub source_ok : driver.source "file://migrations" ≡ none
    pub instance_ok : driver.instance ≡ none
    pub migrator_ok : driver.migrator "file" "mysql" ≡ none
    pub up_ok : up_error (driver.up pool.tables).0 ≡ none

  pub open_and_migrate-pools :
      ((IsUp
        × ((open_and_migrate driver dsn pool).0 ≡ ok tt)
        × (opens (open_and_migrate driver dsn pool).1.actions + closes pool.actions
            ≡ suc (opens pool.actions + closes (open_and_migrate driver dsn pool).1.actions))))
      ⊎ ((e : String) × ((open_and_migrate driver dsn pool).0 ≡ err e)
          × (opens (open_and_migrate driver dsn pool).1.actions + closes pool.actions
              ≡ opens pool.actions + closes (open_and_migrate driver dsn pool).1.actions))
  unfolding open_and_migrate closing opens closes
  open_and_migrate-pools = elim (Option-cases (driver.connect "mysql" dsn)) [
    | inr (e, e0) ↦ inr (e, ground arith, ground arith)
    | inl o0 ↦ elim (Option-cases driver.ping) [
      | inr (e, e1) ↦ inr (e, ground arith, ground arith)
      | inl o1 ↦ elim (Option-cases (driver.source "file://migrations")) [
        | inr (e, e2) ↦ inr (e, ground arith, ground arith)
        | inl o2 ↦ elim (Option-cases driver.instance) [
          | inr (e, e3) ↦ inr (e, ground arith, ground arith)
          | inl o3 ↦ elim (Option-cases (driver.migrator "file" "mysql")) [
            | inr (e, e4) ↦ inr (e, ground arith, ground arith)
            | inl o4 ↦ elim (Option-cases (up_error (driver.up pool.tables).0)) [
              | inr (e, e5) ↦ inr (e, ground arith, ground arith)
              | inl o5 ↦ inl (
                record {
                  connect_ok = o0;
                  ping_ok = o1;
                  source_ok = o2;
                  instance_ok = o3;
                  migrator_ok = o4;
                  up_ok = o5;
                },
                ground arith,
                ground arith,
              )
            ]
          ]
        ]
      ]
    ]
  ]
