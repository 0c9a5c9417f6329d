-- ===== src/Guardrails/Evaluator.antt =====
-- `New` and `accessLevelSet` of internal/guardrails/guardrails.go. A negative `int` takes the branch
-- of 0 in every test of this package, so the numbers are natural.
use taskgrant.Prelude.{
  ℕ, Option, none, some, List, [], ◌∷◌, ◌++◌, ◌==◌, ltb, Bytes, codes, same, lower, trim_space,
  is_empty, map, if◌then◌else◌,
}
use taskgrant.Dataset.{
  Dataset, access_level_valid, access_permissions_management, access_read, access_list,
}
use taskgrant.Guardrails.{Config}

abbrev pub default_max_policy_chars : ℕ
default_max_policy_chars = 1748

abbrev pub duration_floor_seconds : ℕ
duration_floor_seconds = 900

abbrev pub global_duration_cap_seconds : ℕ
global_duration_cap_seconds = 3600

abbrev pub chained_duration_cap_seconds : ℕ
chained_duration_cap_seconds = 3600

abbrev pub max_capabilities_per_grant : ℕ
max_capabilities_per_grant = 3

abbrev pub rate_tokens_per_hour : ℕ
rate_tokens_per_hour = 30

abbrev pub creep_alert_threshold : ℕ
creep_alert_threshold = 5

abbrev pub creep_hard_cap : ℕ
creep_hard_cap = 10

abbrev pub mandatory_deny_services : List Bytes
mandatory_deny_services =
    codes "iam"
    ∷ codes "sts"
    ∷ codes "organizations"
    ∷ codes "account"
    ∷ codes "aws-portal"
    ∷ codes "billing"
    ∷ codes "payments"
    ∷ codes "invoicing"
    ∷ codes "ce"
    ∷ codes "cur"
    ∷ codes "tax"
    ∷ codes "sso"
    ∷ codes "sso-directory"
    ∷ codes "signin"
    ∷ []

abbrev pub default_global_service_exemptions : List Bytes
default_global_service_exemptions =
    codes "cloudfront"
    ∷ codes "globalaccelerator"
    ∷ codes "route53"
    ∷ codes "route53domains"
    ∷ codes "shield"
    ∷ codes "support"
    ∷ codes "trustedadvisor"
    ∷ codes "waf"
    ∷ codes "wafv2"
    ∷ []

abbrev pub default_global_namespace_services : List Bytes
default_global_namespace_services = codes "s3" ∷ []

pub data NewError : Type 0 where
  unknown_level : Bytes → NewError
  permissions_management global_max_under_floor : NewError

pub data Checked {ℓ} (A : Type ℓ) : Type ℓ where
  ok : A → Checked A
  err : NewError → Checked A

-- The set is the list of the names.
unfoldable pub access_level_set : List Bytes → Checked (List Bytes)
access_level_set [] = ok []
access_level_set (lvl ∷ levels) =
    let rest = access_level_set levels in
    if access_level_valid lvl
    then if same lvl access_permissions_management
      then err permissions_management
      else elim rest [ err e ↦ err e | ok set ↦ ok (lvl ∷ set) ]
    else err (unknown_level lvl)

pub record Evaluator : Type 0 where
  pub ds : Dataset
  pub cfg : Config
  pub deny_services : List Bytes
  pub global_exempt : List Bytes
  pub global_namespace : List Bytes
  pub default_levels : List Bytes
  pub accounts : List Bytes
  pub max_policy_chars : ℕ
  pub global_max_seconds : ℕ

abbrev pub normal : Bytes → Bytes
normal svc = lower (trim_space svc)

abbrev pub or_default : Option (List Bytes) → List Bytes → List Bytes
or_default none d = d
or_default (some l) d = l

abbrev pub if_zero : ℕ → ℕ → ℕ
if_zero n d = if n == 0 then d else n

abbrev pub evaluator_of : Dataset → Config → List Bytes → Evaluator
evaluator_of ds cfg levels = record {
  ds = ds;
  cfg = cfg;
  deny_services = mandatory_deny_services ++ map normal cfg.extra_deny_services;
  global_exempt =
      map normal (or_default cfg.global_service_exemptions default_global_service_exemptions);
  global_namespace =
      map normal (or_default cfg.global_namespace_services default_global_namespace_services);
  default_levels = levels;
  accounts = map trim_space cfg.accounts;
  max_policy_chars = if_zero cfg.max_policy_chars default_max_policy_chars;
  global_max_seconds = if_zero cfg.global_max_duration_seconds global_duration_cap_seconds;
}

abbrev pub configured_levels : Config → List Bytes
configured_levels cfg =
    if is_empty cfg.allowed_access_levels
    then access_read ∷ access_list ∷ []
    else cfg.allowed_access_levels

unfoldable pub new : Dataset → Config → Checked Evaluator
new ds cfg = elim (access_level_set (configured_levels cfg)) [
  | err e ↦ err e
  | ok set ↦
      if ltb (if_zero cfg.global_max_duration_seconds global_duration_cap_seconds)
        duration_floor_seconds
      then err global_max_under_floor
      else ok (evaluator_of ds cfg set)
]
