-- ===== src/Jti.antt =====
-- internal/jti/store.go: the ids of revoked access tokens, kept in Redis under a prefix.
use Prim.Native.String.{◌++◌}
use go_notes_api.Base.{Bool, none, some, Option, String, Call, pure, ◌>>=◌}
use go_notes_api.Base.Int.{ℤ, pos, int_lt}
use go_notes_api.Redis.{Redis}

module _ {S : Type 0} (redis : Redis S) (prefix : String) where
  -- IsRevoked: whether the id is there, or none for an error
  unfoldable pub is_revoked : String → Call S (Option Bool)
  is_revoked jti = do
    left ← redis.ttl (prefix ++ jti)
    pure (elim left [ none ↦ none | some t ↦ some (int_lt (pos 0) t) ])

  -- Revoke: whether it succeeded
  unfoldable pub revoke : String → ℤ → Call S Bool
  revoke jti ttl = redis.set_ex (prefix ++ jti) "1" ttl
