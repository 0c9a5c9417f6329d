-- ===== src/Guardrails/Pins.antt =====
-- G5 of internal/guardrails/evaluate.go: operators, mandatory conditions and supported keys.
use taskgrant.Prelude.{
  Bool, ◌&&◌, ◌||◌, not, List, [], ◌∷◌, ◌++◌, Bytes, codes, has, is_empty, any, all, if◌then◌else◌,
}
use taskgrant.Glob.Arn.{account_field_wildcard}
use taskgrant.Dataset.{Dataset}
use taskgrant.Dataset.Keys.{supports_condition_key}
use taskgrant.Guardrails.{Check, fail_if, Input, CapabilityMeta, conditions}
use taskgrant.Guardrails.Policy.{ParsedStatement}
use taskgrant.Guardrails.Conditions.{
  operators, has_condition_key, constraining_condition_values, condition_keys, services_of,
}
use taskgrant.Guardrails.Evaluator.{Evaluator}

abbrev pub allowed_condition_operators : List Bytes
allowed_condition_operators =
    codes "StringEquals"
    ∷ codes "StringEqualsIgnoreCase"
    ∷ codes "StringLike"
    ∷ codes "ArnEquals"
    ∷ codes "ArnLike"
    ∷ codes "NumericEquals"
    ∷ codes "NumericLessThanEquals"
    ∷ codes "Bool"
    ∷ codes "IpAddress"
    ∷ []

abbrev pub requested_region : Bytes
requested_region = codes "aws:RequestedRegion"

abbrev pub resource_account : Bytes
resource_account = codes "aws:ResourceAccount"

-- `missing` and `not_pinned` are the two texts of `mandatoryConditionProblem`.
pub data PinProblem : Type 0 where
  operator_outside missing not_pinned foreign_account : Bytes → PinProblem
  unsupported_key : Bytes → Bytes → PinProblem

unfoldable pub mandatory_condition_problem : ParsedStatement → Bytes → PinProblem
mandatory_condition_problem st key =
    if has_condition_key st key then not_pinned key else missing key

unfoldable pub operator_problems : List Bytes → List PinProblem
operator_problems [] = []
operator_problems (op ∷ ops) =
    let rest = operator_problems ops in
    if has op allowed_condition_operators then rest else operator_outside op ∷ rest

-- Exempt from the region: some service, and only global ones.
unfoldable pub is_exempt : Evaluator → List Bytes → Bool
is_exempt e svcs = not (is_empty svcs) && all (λ svc. has svc e.global_exempt) svcs

unfoldable pub region_problems : Evaluator → ParsedStatement → List PinProblem
region_problems e st =
    if is_exempt e (services_of st.expanded)
    then []
    else if is_empty (constraining_condition_values st requested_region)
    then mandatory_condition_problem st requested_region ∷ []
    else []

unfoldable pub require_account : Input → Bool
require_account i =
    i.require_resource_account
    || any (λ (c : CapabilityMeta). c.wildcard_allowlist_resource) i.capabilities

unfoldable pub needs_account : Evaluator → Bool → ParsedStatement → Bool
needs_account e required st =
    required
    || (any (λ svc. has svc e.global_namespace) (services_of st.expanded)
        || any account_field_wildcard st.resources)

unfoldable pub foreign_accounts : List Bytes → List Bytes → List PinProblem
foreign_accounts accounts [] = []
foreign_accounts accounts (v ∷ vs) =
    let rest = foreign_accounts accounts vs in
    if has v accounts then rest else foreign_account v ∷ rest

unfoldable pub account_problems : Evaluator → Bool → ParsedStatement → List PinProblem
account_problems e required st =
    let vals = constraining_condition_values st resource_account in
    if needs_account e required st
    then if is_empty vals
      then mandatory_condition_problem st resource_account ∷ []
      else if is_empty e.accounts
      then []
      else foreign_accounts e.accounts vals
    else []

unfoldable pub key_problems : Dataset → Bytes → List Bytes → List PinProblem
key_problems ds key [] = []
key_problems ds key (a ∷ as') =
    let rest = key_problems ds key as' in
    if supports_condition_key ds a key then rest else unsupported_key key a ∷ rest

unfoldable pub keys_problems : Dataset → List Bytes → List Bytes → List PinProblem
keys_problems ds expanded [] = []
keys_problems ds expanded (k ∷ ks) = key_problems ds k expanded ++ keys_problems ds expanded ks

-- The body of the loop over the statements.
unfoldable pub pin_problems : Evaluator → Bool → ParsedStatement → List PinProblem
pin_problems e required st =
    operator_problems (operators st)
    ++ (region_problems e st
        ++ (account_problems e required st ++ keys_problems e.ds st.expanded (condition_keys st)))

unfoldable pub pins_problems : Evaluator → Bool → List ParsedStatement → List PinProblem
pins_problems e required [] = []
pins_problems e required (st ∷ sts) = pin_problems e required st ++ pins_problems e required sts

unfoldable pub check_conditions : Evaluator → List ParsedStatement → Input → Check
check_conditions e sts i = fail_if conditions (pins_problems e (require_account i) sts)
