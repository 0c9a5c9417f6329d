-- ===== src/Tests/Parties.antt =====
-- A broker with one agent, one profile and one capability.
use taskgrant.Prelude.{true, false, none, some, [], ◌∷◌, Bytes, codes, same, if◌then◌else◌}
use taskgrant.Guardrails.{Result, pass}
use taskgrant.Mint.{Credentials, assumed}
use taskgrant.Broker.{
  SynthVerdict, SynthResult, SynthReply, GrantRequest, ProfileConfig, Config, CatalogCapability,
  Snapshot, Deps, Broker,
}
use taskgrant.Broker.Entries.{no_result}
use taskgrant.Tests.Fixture.{dataset}

abbrev pub bot : Bytes
bot = codes "bot"

abbrev pub reads : Bytes
reads = codes "s3-read"

abbrev pub g1 : Bytes
g1 = codes "gr_1"

abbrev pub profile : ProfileConfig
profile = record {
  role_arn = codes "arn:aws:iam::1:role/r";
  max_duration_seconds = 1800;
  region = [];
  external_id = [];
  policy_arns = [];
}

abbrev pub config : Config
config = record {
  agents = (bot, record { profiles = codes "p" ∷ []; default_profile = codes "p" }) ∷ [];
  profiles = (codes "p", profile) ∷ [];
  rules = [];
  sts_region = codes "eu";
  default_duration_seconds = 900;
  max_duration_seconds = 3600;
  credential_redelivery = false;
  revoke_on_release = true;
}

abbrev pub result : SynthResult
result = record no_result {
  verdict = SynthVerdict.policy;
  policy_json = codes "{ }";
  effective_duration = 1200;
  capabilities = record { id = reads; version = 1 } ∷ [];
}

abbrev pub read_capability : CatalogCapability
read_capability = record {
  max_duration_seconds = 1000;
  is_tagging = false;
  actions = codes "s3:GetObject" ∷ [];
}

abbrev pub catalog : Snapshot
catalog = record {
  capability = λ id. if same id reads then some read_capability else none;
  validate_params = λ id ps. none;
}

abbrev pub credentials : Credentials
credentials = record {
  access_key_id = codes "AK";
  secret_access_key = codes "SK";
  session_token = codes "ST";
  expiration = 100;
}

abbrev pub passing : Result
passing = record {
  checks = [];
  overall = pass;
  expanded_actions = codes "s3:GetObject" ∷ [];
  effective_duration_seconds = 900;
  policy_chars = 3;
}

abbrev pub deps : Deps
deps = record {
  config = config;
  synthesize = λ q. SynthReply.synthesized result (some []);
  compact = λ r n. none;
  evaluate = λ st i s. (passing, s);
  catalog = some catalog;
  dataset = dataset;
  client = λ calls i. assumed credentials;
  parse_strict = λ g. true;
  decode_token = λ t. some (g1, 1);
  chained = false;
  revoker = some (λ role g expiry. true);
}

abbrev pub request : GrantRequest
request = record {
  task = codes "read";
  reason = [];
  profile = [];
  capabilities = [];
  services = [];
  resources = [];
  access = [];
  duration_seconds = 0;
  caller_ref = [];
  idempotency_key = [];
  retry_token = [];
}

abbrev pub broker : Broker
broker = record {
  grants = [];
  approvals = record { ttl = 10; queue = []; first_uses = []; waiters = []; inbox = [] };
  durable = record { buckets = []; uses = [] };
  idempotency_keys = [];
  log = [];
  calls = [];
}
