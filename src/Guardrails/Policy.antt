-- ===== src/Guardrails/Policy.antt =====
-- The decoded policy of internal/guardrails/policy.go, and the problems that its checks report.
use taskgrant.Prelude.{ℕ, Bool, List, Bytes, codes}

abbrev pub policy_version : Bytes
policy_version = codes "2012-10-17"

-- operator -> condition key -> values
abbrev pub Conditions : Type 0
Conditions = List (Bytes × List (Bytes × List Bytes))

pub record ParsedStatement : Type 0 where
  pub sid : Bytes
  pub effect : Bytes
  pub actions : List Bytes
  pub resources : List Bytes
  pub conditions : Conditions
  pub expanded : List Bytes

-- Why `stringOrList` refuses a value.
pub data ListError : Type 0 where
  empty_string not_string_or_list empty_list empty_string_in_list : ListError

-- Why a condition block is refused; `unsupported` names the operator and the key.
pub data ConditionError : Type 0 where
  not_operator_map : ConditionError
  unsupported : Bytes → Bytes → ConditionError

pub data StatementProblem : Type 0 where
  not_object sid_not_string effect_not_string no_action no_resource : StatementProblem
  banned_element unexpected_field wrong_effect : Bytes → StatementProblem
  bad_action bad_resource : ListError → StatementProblem
  bad_condition : ConditionError → StatementProblem

pub data Problem : Type 0 where
  empty_document not_json_object trailing_data version_not_string id_not_string : Problem
  no_statement empty_statement_list : Problem
  unexpected_top_field wrong_version : Bytes → Problem
  statement : ℕ → StatementProblem → Problem
  outside_charset : ℕ → Problem

pub record ParsedPolicy : Type 0 where
  pub version : Bytes
  pub statements : List ParsedStatement
  pub problems : List Problem
  pub fatal : Bool
