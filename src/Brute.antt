-- ===== src/Brute.antt =====
-- internal/security/brute.go: the failed-login counter, by address and email.
use Prim.Native.String.{◌++◌}
use go_notes_api.Base.{
  not, true, false, ℕ, ◌+◌, ◌*◌, ◌%◌, List, [], ◌∷◌, none, some, Bool, String, Call, pure, ◌>>=◌,
  ◌==◌, eq_of_text, if◌then◌else◌,
}
use go_notes_api.Base.Int.{ℤ, pos, int_lt, ◌-ℤ◌, ◌+ℤ◌}
use go_notes_api.Base.Text.{before_char, trim_space}
use go_notes_api.Http.{Request}
use go_notes_api.Redis.{Redis}

-- ipOf: what stands before the first ',' (44), or before the first ':' (58)
unfoldable pub ip_of : Request → String
ip_of r =
    let real = r.header "X-Real-IP" in
    let forwarded = r.header "X-Forwarded-For" in
    if real == ""
    then if forwarded == "" then before_char 58 r.remote_addr else before_char 44 forwarded
    else real

pub record Verdict : Type 0 where
  pub allowed : Bool
  pub remaining : ℤ
  pub ttl : ℤ

module _ {S : Type 0} (redis : Redis S) (to_lower : String → String) where
  -- Brute.Key
  unfoldable pub key : Request → String → String
  key r email = "brute:" ++ (ip_of r ++ (":" ++ to_lower (trim_space email)))

  -- Brute.Allow
  unfoldable pub allow : ℤ → ℤ → Request → String → Call S Verdict
  allow limit window r email = do
    v ← redis.incr_expire (key r email) window
    if not (int_lt limit v)
        then pure (record { allowed = true; remaining = limit -ℤ v; ttl = pos 0 })
        else do
          left ← redis.ttl (key r email)
          pure (record {
            allowed = false;
            remaining = pos 0;
            ttl = elim left [ none ↦ pos 0 | some t ↦ t ];
          })

-- binary.LittleEndian.Uint64
unfoldable pub little_endian : List ℕ → ℕ
little_endian [] = 0
little_endian (b ∷ bs) = b + 256 * little_endian bs

-- JitterBackoff, in nanoseconds, where `b` are the 8 bytes of rand.Read
unfoldable pub jitter_backoff : List ℕ → ℤ → ℤ
jitter_backoff b base = base +ℤ pos (little_endian b % 250 * 1000000)
