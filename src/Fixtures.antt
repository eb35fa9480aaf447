-- ===== src/Fixtures.antt =====
-- Concrete data for the tests: a server that compares texts exactly and keeps the order of rows, an
-- empty database on a connection that never fails, and simple stand-ins for the encoders.
pub mod Site
use Prim.Native.String.{◌++◌}
use mathlib.Core.List.Perm
use text.Mathlib.TextLemmas.{append-eq-nil_iff}
use text.Mathlib.TextPositions.{eq_refl}
use go_notes_api.Base.{
  refl, ap, ◌≢◌, ◌≡◌, ◌<◌, ◌+◌, ℕ, Option, length, ltb, arith, if◌then◌else◌, Bool, false, true,
  String, [], ◌∷◌, none, some, ◌==◌, eq_of_text, eq_iff, sym, ◌∙◌,
}
use go_notes_api.Base.Int.{ℤ, pos}
use go_notes_api.Schema.{AuditLog, Tables, Db}
use go_notes_api.Http.{Request}
use go_notes_api.Sql.{Mysql}
use go_notes_api.Handlers.Notes.{Codec}
use go_notes_api.Base.Text.{utf8, format_int}
use go_notes_api.Jwt.{Claims, Jwt}
use go_notes_api.Jwt.Keys.{Keys}
use go_notes_api.Handlers.Admin.{AdminCodec}
use go_notes_api.Net.{Net}
use go_notes_api.Redis.{Redis}
use go_notes_api.Handlers.Auth.{Creds, AuthCodec, AuthConfig}

abbrev pub plain_mysql : Mysql
plain_mysql = record {
  same = λ a b. a == b;
  same_refl = eq_refl;
  same_sym = λ a b h. (eq_iff b a).1 (sym ((eq_iff a b).0 h));
  same_trans = λ a b c h k. (eq_iff a c).1 ((eq_iff a b).0 h ∙ (eq_iff b c).0 k);
  like = λ s pattern. true;
  sorted = λ n order rows. rows;
  sorted_perm = λ n order rows. Perm.refl rows;
  sorted_total = λ m n order rows total keyed. refl;
}

abbrev pub no_tables : Tables
no_tables = record {
  notes = [];
  next_note = 1;
  users = [];
  next_user = 1;
  refresh_tokens = [];
  roles = [];
  user_roles = [];
  audit_logs = [];
  next_audit = 1;
  idempotency_keys = [];
}

abbrev pub empty_db : Db
empty_db = record { tables = no_tables; calls = 0; fails = λ n. false; kept = λ n. false }

-- The body of a request is its title; a note is printed as its title.
abbrev pub plain_codec : Codec
plain_codec = record {
  decode_note = λ bytes. some (record { title = "milk"; body = "two" });
  note_json = λ n. n.title;
  listing_json = λ l page size. "[]";
  error_json = λ code message rid fields. code;
  sha256 = λ bytes. bytes;
  crc32 = λ bytes. 7;
  to_lower = λ s. s;
  describe = λ e. "failed";
}

-- A request of user 7 about note 1 under the key "k".
abbrev pub plain_request : Request
plain_request = record {
  method = "PUT";
  path = "/notes/1";
  remote_addr = "10.0.0.1:5000";
  content_length = pos 3;
  header = λ name. if name == "Idempotency-Key" then "k" else "";
  query = λ name. "";
  param = λ name. "1";
  body = 1 ∷ 2 ∷ [];
  user = some (pos 7);
}

-- A password is hashed to itself behind a letter.
unfoldable pub plain_hash : String → Option String
plain_hash password = if ltb 72 (length (utf8 password)) then none else some ("h" ++ password)

unfoldable pub plain_same : String → String → Bool
plain_same hash password = hash == "h" ++ password

pub plain_same-hash :
    (password hash : String) → plain_hash password ≡ some hash → plain_same hash password ≡ true
unfolding plain_hash plain_same
plain_same-hash password hash h = ground (arith, eq_iff hash ("h" ++ password))

pub plain_hash-long : (password : String) → 72 < length (utf8 password) → plain_hash password ≡ none
unfolding plain_hash
plain_hash-long password h = ground arith

hash-ne-nil : (password : String) → "h" ++ password ≢ ""
hash-ne-nil password e = ground (arith, eq_iff "h" "", append-eq-nil_iff.0 e)

pub plain_same-nil : (password : String) → plain_same "" password ≡ false
unfolding plain_same
plain_same-nil password = ground (arith, hash-ne-nil password, eq_iff "" ("h" ++ password))

-- Credentials and the token of a request are the same whatever its body is.
abbrev pub plain_creds : Creds
plain_creds = record { email = "a@b.c"; password = "password" }

abbrev pub auth_codec : Creds → String → AuthCodec
auth_codec input token = record {
  decode_creds = λ bytes. some input;
  decode_refresh = λ bytes. some token;
  left_refresh = λ bytes. token;
  left_decoded = λ bytes sent decoded. ap (λ o. elim o [ none ↦ token | some t ↦ t ]) decoded;
  valid = λ c. true;
  hash_password = λ salt. plain_hash;
  same_password = plain_same;
  same_hashed = λ salt. plain_same-hash;
  too_long = λ salt. plain_hash-long;
  empty_hash = plain_same-nil;
  to_lower = λ s. s;
  id_json = format_int;
  tokens_json = λ access refresh. access ++ refresh;
  error_json = λ code message rid fields. code;
}

abbrev pub plain_config : AuthConfig
plain_config = record {
  jwt_ttl = pos 900;
  jwt_issuer = "notes";
  jwt_audience = "web";
  refresh_ttl = pos 3600;
}

abbrev pub plain_keys : Keys
plain_keys = record { current = "k1"; set = ("k1", "s1") ∷ [] }

-- A server that knows one token, and the claims of it.
abbrev pub plain_jwt : Claims → Jwt
plain_jwt c = record {
  sign = λ kid secret claims. "token";
  parse = λ key_fn aud iss now token. elim (key_fn "k1") [
    | none ↦ none
    | some secret ↦ if token == "token" then some c else none
  ];
}

-- A Redis server whose keys never expire: the counters, and how long the other keys live.
pub record Memory : Type 0 where
  pub counts : String → ℕ
  pub lives : String → ℤ

abbrev pub blank_memory : Memory
blank_memory = record { counts = λ k. 0; lives = λ k. pos 0 }

abbrev pub plain_redis : Redis Memory
plain_redis = record {
  incr_expire = λ k window s. (
    pos (s.counts k + 1),
    record s { counts = λ j. if j == k then s.counts k + 1 else s.counts j },
  );
  ttl = λ k s. (some (s.lives k), s);
  set_ex = λ k v n s. (true, record s { lives = λ j. if j == k then n else s.lives j });
}

-- Every address is in every network.
abbrev pub plain_net : Net
plain_net = record {
  split_host = λ s. "10.0.0.1";
  parse_ip = λ s. some (10 ∷ []);
  parse_cidr = λ s. some (λ ip. true);
}

abbrev pub admin_codec : String → AdminCodec
admin_codec action = record {
  decode_action = λ bytes. some (action, "admin");
  decode_revocation = λ bytes. some ("id", pos 60);
  users_json = λ page size l. "[]";
  audit_json = λ from to limit rows. "[]";
  csv = λ rows. "";
  parse_time = λ s. none;
  format_time = λ t. "";
  error_json = λ code message rid fields. code;
  store_error = "failed";
}

-- The roles of the migration.
abbrev pub two_roles : Db
two_roles = record empty_db {
  tables = record no_tables {
    roles = record { id = pos 1; name = "admin" } ∷ record { id = pos 2; name = "user" } ∷ [];
  };
}

abbrev pub audit_row : ℤ → ℤ → AuditLog
audit_row id time = record {
  id = id;
  user_id = some (pos 0);
  method = "GET";
  path = "/notes";
  status = 200;
  ip = "10.0.0.1";
  rid = "r";
  created_at = time;
}
