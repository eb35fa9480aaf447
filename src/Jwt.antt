-- ===== src/Jwt.antt =====
-- internal/jwtauth: the keys of access tokens, and what the program uses of golang-jwt.
-- os.Getenv is a function: "" for a variable that is not set. A secret is kept as its text.
pub mod Keys
pub mod Unset
pub mod Loaders
mod Tests
use go_notes_api.Base.{◌≡◌, ℕ, ◌<◌, ◌^◌, true, none, some, Option, String}
use go_notes_api.Base.Int.{ℤ, pos, int_lt}

-- The claims of an access token, where Parse finds none for a claim that is missing or no number.
pub record Claims : Type 0 where
  pub sub : Option ℤ
  pub exp : Option ℤ
  pub iat : ℤ
  pub iss : String
  pub aud : String
  pub jti : String

-- NewWithClaims with SignedString, for a kid and a secret; and Parse, which asks a key function for
-- the secret of a kid ("" for a token without one), with the audience and the issuer that are wanted,
-- and answers the claims of a token that is valid at the time.
pub record Jwt : Type 0 where
  pub sign : String → String → Claims → String
  pub parse : (String → Option String) → Option String → Option String → ℤ → String → Option Claims

-- What Parse documents of a token with the claims `c`, signed with a secret under a kid: if the key
-- function knows the secret and the token has not expired, it is valid for its audience and issuer,
-- and its claims come back. (A number comes back as a float64, which is exact below 2^53.)
abbrev pub IsVerified : Jwt → String → String → Claims → Type 0
IsVerified jwt kid secret c =
    (key_fn : String → Option String) (now : ℤ) (sub exp : ℕ)
    → c.sub ≡ some (pos sub)
    → sub < 2 ^ 53
    → c.exp ≡ some (pos exp)
    → exp < 2 ^ 53
    → key_fn kid ≡ some secret
    → int_lt now (pos exp) ≡ true
    → jwt.parse key_fn (some c.aud) (some c.iss) now (jwt.sign kid secret c) ≡ some c
