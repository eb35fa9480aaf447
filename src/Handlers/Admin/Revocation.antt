-- ===== src/Handlers/Admin/Revocation.antt =====
-- internal/handlers/admin_jti.go with internal/jti/store.go.
use go_notes_api.Base.{
  ◌≡◌, ◌≢◌, true, some, String, ℕ, ◌<◌, ◌/◌, leb, ltb, ◌&&◌, arith, eq_of_text, eq_iff, Bool-cases,
  inl, inr,
}
use go_notes_api.Base.Int.{ℤ, pos, negsuc, int_lt, ◌*ℤ◌}
use go_notes_api.Http.{Request}
use go_notes_api.Errors
use go_notes_api.Redis.{Redis}
use go_notes_api.Jti
use go_notes_api.Handlers.Admin.{AdminCodec, revocation_ttl, whole_seconds, revoke_jti}

-- SETEX and TTL in Redis: right after a SETEX that succeeds, the key lives for as long as it said.
abbrev pub IsExpiring : {S : Type 0} → Redis S → Type 0
IsExpiring {S} redis =
    (k v : String) (n : ℕ) (s : S)
    → 0 < n
    → (redis.set_ex k v (pos n) s).0 ≡ true
    → (redis.ttl k (redis.set_ex k v (pos n) s).1).0 ≡ some (pos n)

whole_seconds-positive :
    (ns : ℤ) → int_lt (pos 0) ns ≡ true → (n : ℕ) × (whole_seconds ns ≡ pos n) × (0 < n)
unfolding int_lt
whole_seconds-positive (pos n) h = elim (Bool-cases (leb 1 n && ltb n 1000000000)) [
  | inl brief ↦ (1, ground arith, omega arith)
  | inr long ↦ (n / 1000000000, ground arith, ground arith)
]
whole_seconds-positive (negsuc n) h = ground arith

revocation_ttl-positive : (seconds : ℤ) → int_lt (pos 0) (revocation_ttl seconds) ≡ true
unfolding revocation_ttl int_lt
revocation_ttl-positive seconds = elim (Bool-cases (int_lt (pos 0) (seconds *ℤ pos 1000000000))) [
  | inl positive ↦ ground arith
  | inr other ↦ ground arith
]

module _ {S : Type 0} (redis : Redis S) (expiring : IsExpiring redis) (codec : AdminCodec)
    (prefix jti : String) (seconds : ℤ) (r : Request) (s : S) where
  -- After a request to revoke an id that is not empty was answered with 204, IsRevoked answers true
  -- for the id, whatever number of seconds was asked for, if a SETEX that succeeds makes its key
  -- live for as long as it says.
  pub revoke_jti-is_revoked :
      codec.decode_revocation r.body ≡ some (jti, seconds)
      → jti ≢ ""
      → (revoke_jti codec redis prefix r s).0.status ≡ 204
      → (Jti.is_revoked redis prefix jti (revoke_jti codec redis prefix r s).1).0 ≡ some true
  unfolding revoke_jti Jti.is_revoked Jti.revoke Errors.write int_lt
  revoke_jti-is_revoked decoded named done =
      let (n, seconds_of, positive) =
        whole_seconds-positive (revocation_ttl seconds) (revocation_ttl-positive seconds) in
      let lives = expiring (Prim.Native.String.◌++◌ prefix jti) "1" n s positive in
      ground (arith, eq_iff jti "")
