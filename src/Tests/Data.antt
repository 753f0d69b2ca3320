-- ===== src/Tests/Data.antt =====
-- The stores and requests that the runs start from.
use certmon.Prelude.{false, none, some, [], ◌∷◌, codes, ◌++◌}
use certmon.Db.{User, Session, Job, Database, empty}
use certmon.Models.{issuing}
use certmon.Auth.{Hashing}
use certmon.Renewals.Identifiers.{Names}

-- a hash that can be evaluated; it is no hash for real use
abbrev pub plain : Hashing
plain = record { pbkdf2 = λ password salt rounds. codes password ++ salt; sha256 = λ token. token }

abbrev pub names : Names
names = record { is_ip = λ s. false; idna = λ s. some s }

abbrev pub ada : User
ada = record {
  id = "u1";
  username = "Ada";
  password_hash = "";
  roles = "admin" ∷ [];
  created_at = 1;
  disabled_at = none;
}

abbrev pub bob : User
bob = record ada { id = "u2"; username = "bob"; roles = "viewer" ∷ [] }

abbrev pub bobs_session : Session
bobs_session = record {
  token_hash = "secret";
  user_id = "u2";
  created_at = 5;
  last_seen_at = 5;
  expires_at = 100;
}

abbrev pub adas_session : Session
adas_session = record bobs_session { token_hash = "key"; user_id = "u1" }

abbrev pub office : Database
office = record empty { users = ada ∷ bob ∷ []; sessions = bobs_session ∷ adas_session ∷ [] }

abbrev pub job : Job
job = record {
  id = "j1";
  endpoint_host = "10.0.0.7";
  endpoint_port = 443;
  issuer_type = "acme";
  state = issuing;
  version = 3;
  identifiers = "tv.example.org" ∷ [];
  profile = "extron-rsa";
  environment = some "staging";
  dns_provider = some "manual";
  certificate_id = none;
  error_code = none;
  error_message = none;
  metadata = [];
  created_at = 2;
  updated_at = 9;
}

abbrev pub workshop : Database
workshop = record empty { jobs = job ∷ [] }
