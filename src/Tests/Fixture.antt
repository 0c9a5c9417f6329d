-- ===== src/Tests/Fixture.antt =====
-- One policy, its evaluator, and a request for it.
use taskgrant.Prelude.{ℕ, ◌+◌, String, Bool, true, false, Option, none, some, [], ◌∷◌, Bytes, codes}
use taskgrant.Dataset.{Dataset, access_read, access_list}
use taskgrant.Guardrails.{Config, Input}
use taskgrant.Guardrails.Parse.{Json, Items, Members}
use taskgrant.Guardrails.Evaluator.{Evaluator, evaluator_of}
use taskgrant.Guardrails.Policy.{ParsedStatement, ParsedPolicy}
use taskgrant.Guardrails.State.{StateStore}

abbrev pub dataset : Dataset
dataset = record {
  schema_version = 1;
  source_commit = codes "c0ffee";
  hash = codes "00";
  actions =
      (
        codes "s3:getobject",
        record {
          action = codes "s3:GetObject";
          access_level = access_read;
          resource_types = codes "object" ∷ [];
          condition_keys = [];
        },
      )
      ∷ [];
  names = codes "s3:GetObject" ∷ [];
}

abbrev pub config : Config
config = record {
  allowed_access_levels = [];
  extra_deny_services = [];
  resource_allowlist = codes "arn:aws:s3:::b/*" ∷ [];
  global_service_exemptions = none;
  global_namespace_services = none;
  accounts = [];
  max_policy_chars = 0;
  global_max_duration_seconds = 0;
}

abbrev pub evaluator : Evaluator
evaluator = evaluator_of dataset config (access_read ∷ access_list ∷ [])

abbrev pub text : String → Json
text s = Json.str (codes s)

abbrev pub one_value : String → String → Members
one_value k v = Members.member (codes k) (text v) Members.end

abbrev pub policy_value : Json
policy_value = Json.obj (
    Members.member (codes "Version") (text "2012-10-17") (
      Members.member (codes "Statement")
        (Json.arr (
          Items.item
            (Json.obj (
              Members.member (codes "Effect") (text "Allow") (
                Members.member (codes "Action") (text "s3:GetObject") (
                  Members.member (codes "Resource") (text "arn:aws:s3:::b/k") (
                    Members.member (codes "Condition")
                      (Json.obj (
                        Members.member (codes "StringEquals")
                          (Json.obj (
                            Members.member (codes "aws:RequestedRegion") (text "eu")
                              (one_value "aws:ResourceAccount" "1")))
                          Members.end))
                      Members.end)))))
            Items.nil))
        Members.end))

-- A decoder that knows one document.
abbrev pub decode : Bytes → Option (Json × Bool)
decode raw = some (policy_value, false)

abbrev pub input : Input
input = record {
  policy_json = codes "{ }";
  agent_id = codes "bot";
  allowed_access_levels = none;
  requested_duration_seconds = 1200;
  profile_max_duration_seconds = 0;
  capabilities =
      record {
        id = codes "s3-read";
        max_duration_seconds = 1000;
        tagging_opt_in = false;
        resource_star_opt_in = false;
        wildcard_allowlist_resource = false;
      }
      ∷ [];
  require_resource_account = false;
  broker_chained = true;
  max_policy_chars = 0;
}

-- The state counts its calls.
abbrev pub store : StateStore ℕ
store = record {
  take_token = λ agent capability n. (some true, n + 1);
  distinct_capability_count = λ agent ids n. (some 1, n);
}

abbrev pub statement : ParsedStatement
statement = record {
  sid = [];
  effect = codes "Allow";
  actions = codes "s3:GetObject" ∷ [];
  resources = codes "arn:aws:s3:::b/k" ∷ [];
  conditions =
      (
        codes "StringEquals",
        (codes "aws:RequestedRegion", codes "eu" ∷ [])
            ∷ (codes "aws:ResourceAccount", codes "1" ∷ [])
            ∷ [],
      )
      ∷ [];
  expanded = [];
}

abbrev pub document : ParsedPolicy
document = record {
  version = codes "2012-10-17";
  statements = statement ∷ [];
  problems = [];
  fatal = false;
}

abbrev pub expanded_statement : ParsedStatement
expanded_statement = record statement { expanded = codes "s3:GetObject" ∷ [] }
