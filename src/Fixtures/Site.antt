-- ===== src/Fixtures/Site.antt =====
-- A small site, and requests of user 7 to it.
use go_notes_api.Base.{false, true, none, some, [], ◌∷◌, eq_of_text, ◌==◌, if◌then◌else◌}
use go_notes_api.Base.Int.{pos}
use go_notes_api.Fixtures.{
  plain_jwt, two_roles, Memory, blank_memory, plain_mysql, plain_redis, plain_net, plain_codec,
  plain_creds, auth_codec, admin_codec, plain_config, plain_keys, plain_request, empty_db,
}
use go_notes_api.Config.{Config}
use go_notes_api.Http.{Request, http_error}
use go_notes_api.Jwt.{Jwt, Claims}
use go_notes_api.World.{World}
use go_notes_api.Repos.Notes.{create}
use go_notes_api.Handlers.Auth.{access_claims}
use go_notes_api.Router.{Site, Moment, notes_delete}

abbrev pub config : Config (Unit {0})
config = record {
  app_env = "prod";
  port = "8080";
  read_timeout = pos 5;
  write_timeout = pos 10;
  db_dsn = "";
  db_timeout = pos 3;
  jwt_secret = "";
  jwt_ttl = pos 900;
  refresh_ttl = pos 3600;
  max_body_bytes = pos 1048576;
  cors_origins = "*" ∷ [];
  metrics_allow_cidr = "127.0.0.1/32";
  bcrypt_cost = pos 12;
  rate_rps = tt;
  rate_burst = pos 10;
  jwt_issuer = "notes";
  jwt_audience = "web";
  rate_auth_rps = tt;
  rate_auth_burst = pos 5;
  otel_endpoint = "";
  otel_sample = tt;
  redis_addr = "127.0.0.1:6379";
  redis_pass = "";
  redis_db = pos 0;
  redis_tls = false;
  jti_prefix = "jti:";
  rate_allow_cidr = "";
}

abbrev pub claims : Claims
claims = access_claims plain_config (pos 7) (pos 10) (5 ∷ [])

-- Every token is one of user 7.
abbrev pub sevens : Jwt
sevens = record { sign = λ kid secret c. "token"; parse = λ key_fn aud iss now token. some claims }

abbrev pub site : Site (Unit {0}) Memory
site = record {
  cfg = config;
  auth_cfg = plain_config;
  mysql = plain_mysql;
  jwt = sevens;
  provider = plain_keys;
  loaded = plain_keys;
  any_of = λ ks. none;
  net = plain_net;
  redis = plain_redis;
  codec = plain_codec;
  auth_codec = auth_codec plain_creds "";
  admin_codec = admin_codec "add";
  equal_fold = λ a b. a == b;
  real_ip = λ r. r;
  chi = λ table r. some (notes_delete, λ name. "1");
  unmatched = λ r. http_error "404 page not found" 404;
  metrics_page = http_error "" 200;
}

abbrev pub at : Moment
at = record {
  now = pos 20;
  took = pos 4;
  lasted = pos 3;
  rid = 171 ∷ [];
  jti = 5 ∷ [];
  token = 1 ∷ [];
  salt = [];
  email_limiter = λ email. true;
}

-- DELETE /notes/1 of user 7, where the note 1 is user 8's.
abbrev pub deleting : Request
deleting = record plain_request {
  method = "DELETE";
  header = λ name. if name == "Authorization" then "Bearer token" else "";
}

abbrev pub world : World Memory
world = record {
  db = (create (pos 8) "eggs" "six" (pos 6) empty_db).1;
  store = blank_memory;
  observed = [];
}

-- User 7 with the role "user", whose token was signed with the key k1, adds a note.
abbrev pub members : Site (Unit {0}) Memory
members = record site { jwt = plain_jwt claims }

abbrev pub adding : Request
adding = record deleting { method = "POST" }

abbrev pub roles_world : World Memory
roles_world = record {
  db = record two_roles {
    tables = record two_roles.tables {
      user_roles = record { user_id = pos 7; role_id = pos 2 } ∷ [];
    };
  };
  store = blank_memory;
  observed = [];
}
