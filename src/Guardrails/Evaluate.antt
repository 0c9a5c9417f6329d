-- ===== src/Guardrails/Evaluate.antt =====
-- `Evaluate` of internal/guardrails/evaluate.go: all checks in their order. The durable state comes
-- back with the result.
mod Passed
pub mod Actions
pub mod Resources
pub mod Conditions
use taskgrant.Prelude.{
  ℕ, ◌≡◌, refl, Bool, true, false, ◌&&◌, Option, none, some, List, [], ◌∷◌, ◌++◌, map, Bytes,
  length, arith, if◌then◌else◌,
}
use taskgrant.Guardrails.{
  Verdict, pass, warn, fail, Check, check_of, CheckName, Result, is_ok, aggregate, Input, structure,
  existence, access_levels, service_denylist, resource_allowlist, conditions, size_budget,
  duration_clamp, capability_count, rate_limit, creep,
}
use taskgrant.Guardrails.Policy.{ParsedPolicy, ParsedStatement}
use taskgrant.Guardrails.Parse.{Json}
use taskgrant.Guardrails.Document.{parse_policy}
use taskgrant.Guardrails.Evaluator.{Evaluator}
use taskgrant.Guardrails.Checks.{
  check_structure, check_existence, collect_expanded, check_access_levels, check_service_denylist,
  check_resource_allowlist,
}
use taskgrant.Guardrails.Pins.{check_conditions}
use taskgrant.Guardrails.Limits.{check_size_budget, check_duration_clamp, check_capability_count}
use taskgrant.Guardrails.State.{StateStore, check_rate_limit, check_creep}

-- G1 to G5 on a document that did not decode: each fails.
abbrev pub skipped : List Check
skipped =
    check_of existence fail
    ∷ check_of access_levels fail
    ∷ check_of service_denylist fail
    ∷ check_of resource_allowlist fail
    ∷ check_of conditions fail
    ∷ []

-- The statements behind G1.
unfoldable pub expanded_statements : Evaluator → ParsedPolicy → List ParsedStatement
expanded_statements e doc = (check_existence e doc.statements).0

unfoldable pub expanded_actions : Evaluator → ParsedPolicy → List Bytes
expanded_actions e doc = if doc.fatal then [] else collect_expanded (expanded_statements e doc)

-- G1 to G5.
unfoldable pub semantic_checks : Evaluator → ParsedPolicy → Input → List Check
semantic_checks e doc i =
    if doc.fatal
    then skipped
    else (check_existence e doc.statements).1
      ∷ check_access_levels e (collect_expanded (expanded_statements e doc)) i
      ∷ check_service_denylist e (expanded_statements e doc)
          (collect_expanded (expanded_statements e doc))
      ∷ check_resource_allowlist e (expanded_statements e doc) i
      ∷ check_conditions e (expanded_statements e doc) i
      ∷ []

-- G6 to the count of G8.
unfoldable pub limit_checks : Evaluator → Input → List Check
limit_checks e i =
    check_size_budget e i ∷ (check_duration_clamp e i).0 ∷ check_capability_count i ∷ []

module _ {S : Type 0} (decode : Bytes → Option (Json × Bool)) where
  unfoldable pub evaluate : Evaluator → Option (StateStore S) → Input → S → Result × S
  evaluate e st i s =
      let doc = parse_policy decode i.policy_json in
      let (rate, s1) = check_rate_limit st i s in
      let (creeping, s2) = check_creep st i s1 in
      let checks =
        check_structure i.policy_json doc
        ∷ (semantic_checks e doc i ++ (limit_checks e i ++ (rate ∷ creeping ∷ []))) in
      (
        record {
          checks = checks;
          overall = aggregate checks;
          expanded_actions = expanded_actions e doc;
          effective_duration_seconds = (check_duration_clamp e i).1;
          policy_chars = length i.policy_json;
        },
        s2,
      )
