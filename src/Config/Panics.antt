-- ===== src/Config/Panics.antt =====
-- internal/config/config.go, Load: when it panics.
use Prim.Native.String.{◌++◌}
use go_notes_api.Base.{
  ◌≡◌, refl, none, some, Option, List, [], ◌∷◌, String, Result, ok, err, arith, ◌==◌, eq_of_text,
  if◌then◌else◌,
}
use go_notes_api.Base.Int.{ℤ}
use go_notes_api.Base.Text.{parse_int}
use go_notes_api.Http.{parsed_id}
use go_notes_api.Config.{◌>>=◌, getenv, must, must_int, must_dur, must_float, load}

-- A variable that Load parses, with its default.
pub data Setting : Type 0 where
  duration number float : String → String → Setting

abbrev pub settings : List Setting
settings =
    duration "APP_READ_TIMEOUT" "5s"
    ∷ duration "APP_WRITE_TIMEOUT" "10s"
    ∷ duration "DB_TIMEOUT" "3s"
    ∷ float "RATE_AUTH_RPS" "2"
    ∷ number "RATE_AUTH_BURST" "5"
    ∷ duration "JWT_TTL" "15m"
    ∷ duration "REFRESH_TTL" "720h"
    ∷ float "OTEL_SAMPLER" "0.1"
    ∷ number "REDIS_DB" "0"
    ∷ number "MAX_BODY_BYTES" "1048576"
    ∷ number "BCRYPT_COST" "12"
    ∷ float "RATE_RPS" "10"
    ∷ number "RATE_BURST" "10"
    ∷ []

-- The error of a result.
abbrev pub failure : {A : Type 0} → Result String A → Option String
failure (ok a) = none
failure (err e) = some e

failure-bind :
    {A B : Type 0} (m : Result String A) (f : A → Result String B) {o later : Option String}
    → failure m ≡ o
    → ((a : A) → failure (f a) ≡ later)
    → failure (m >>= f) ≡ elim o [ none ↦ later | some e ↦ some e ]
failure-bind (ok a) f {o = none} h k = k a
failure-bind (ok a) f {o = some e} h k = ground arith
failure-bind (err e) f {o = none} h k = ground arith
failure-bind (err e) f {o = some e'} h k = h

module _ (env : String → String) {F : Type 0} (parse_duration : String → Option ℤ)
    (parse_float : String → Option F) where
  -- Why a text is no value of a kind, for a variable.
  complaint_of : {A : Type 0} → Option A → String → String → String → Option String
  complaint_of (some a) wrong k v = none
  complaint_of none wrong k v = some (k ++ ": invalid " ++ wrong ++ " " ++ v)

  -- The text that counts for a variable.
  abbrev pub set_to : String → String → String
  set_to k def = if env k == "" then def else env k

  unfoldable pub complaint : Setting → Option String
  unfolding complaint_of
  complaint (duration k def) =
      complaint_of (parse_duration (set_to k def)) "duration" k (set_to k def)
  complaint (number k def) =
      complaint_of (parsed_id (parse_int (set_to k def))) "int" k (set_to k def)
  complaint (float k def) = complaint_of (parse_float (set_to k def)) "float" k (set_to k def)

  -- The complaint about the first variable that does not parse.
  unfoldable pub first_complaint : List Setting → Option String
  first_complaint [] = none
  first_complaint (s ∷ ss) =
      let later = first_complaint ss in elim (complaint s) [ none ↦ later | some e ↦ some e ]

  failure-must :
      {A : Type 0} (parse : String → Option A) (wrong k def : String)
      → failure (must env parse wrong k def)
        ≡ complaint_of (parse (set_to k def)) wrong k (set_to k def)
  unfolding must complaint_of getenv
  failure-must parse wrong k def = ground arith

  failure-must_dur :
      (k def : String)
      → failure (must_dur env parse_duration parse_float k def) ≡ complaint (duration k def)
  unfolding must_dur complaint complaint_of
  failure-must_dur k def = failure-must parse_duration "duration" k def

  failure-must_int : (k def : String) → failure (must_int env k def) ≡ complaint (number k def)
  unfolding must_int complaint complaint_of
  failure-must_int k def = failure-must (λ v. parsed_id (parse_int v)) "int" k def

  failure-must_float :
      (k def : String)
      → failure (must_float env parse_duration parse_float k def) ≡ complaint (float k def)
  unfolding must_float complaint complaint_of
  failure-must_float k def = failure-must parse_float "float" k def

  -- Load panics exactly if one of the durations, integers and floats of the environment does not
  -- parse, with a message about the first of them in the order of the fields.
  pub failure-load : failure (load env parse_duration parse_float) ≡ first_complaint settings
  unfolding load first_complaint
  failure-load = failure-bind _ _ (failure-must_dur "APP_READ_TIMEOUT" "5s") λ _.
      failure-bind _ _ (failure-must_dur "APP_WRITE_TIMEOUT" "10s") λ _.
        failure-bind _ _ (failure-must_dur "DB_TIMEOUT" "3s") λ _.
          failure-bind _ _ (failure-must_float "RATE_AUTH_RPS" "2") λ _.
            failure-bind _ _ (failure-must_int "RATE_AUTH_BURST" "5") λ _.
              failure-bind _ _ (failure-must_dur "JWT_TTL" "15m") λ _.
                failure-bind _ _ (failure-must_dur "REFRESH_TTL" "720h") λ _.
                  failure-bind _ _ (failure-must_float "OTEL_SAMPLER" "0.1") λ _.
                    failure-bind _ _ (failure-must_int "REDIS_DB" "0") λ _.
                      failure-bind _ _ (failure-must_int "MAX_BODY_BYTES" "1048576") λ _.
                        failure-bind _ _ (failure-must_int "BCRYPT_COST" "12") λ _.
                          failure-bind _ _ (failure-must_float "RATE_RPS" "10")
                            λ _. failure-bind _ _ (failure-must_int "RATE_BURST" "10") λ _. refl
