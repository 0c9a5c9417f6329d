-- ===== src/Tests/Guards.antt =====
-- The policy of the fixture, check by check.
use taskgrant.Prelude.{
  ◌≡◌, refl, ap, ◌⊎◌, inl, ◌≤◌, true, some, List, [], ◌∷◌, Bytes, codes, In, lower, trim_space,
  sort, add_new, add_all,
}
use taskgrant.Glob.{guardrails_match}
use taskgrant.Glob.Arn.{cut, split_n, arn_pattern_match, account_field_wildcard}
use taskgrant.Dataset.{
  Dataset, lookup, expand, expand_literal, valid_pattern, is_pattern_byte, access_level_valid,
  access_read, access_list,
}
use taskgrant.Dataset.Denylist.{is_escalation_action, canonical, escalation_denylist}
use taskgrant.Dataset.Keys.{supports_condition_key, has_prefix}
use taskgrant.Guardrails.{
  size_budget, duration_clamp, capability_count, rate_limit, creep, warn, check_of, pass, structure,
  existence, access_levels, service_denylist, resource_allowlist, conditions, Config, Input,
  CapabilityMeta, Result, is_ok, aggregate, Check,
}
use taskgrant.Guardrails.Parse.{Json, Items, Members, parse_statement, parse_statements}
use taskgrant.Guardrails.Document.{parse_policy}
use taskgrant.Guardrails.Evaluator.{new, Checked, access_level_set}
use taskgrant.Guardrails.Checks.{
  check_structure, check_existence, collect_expanded, check_access_levels, check_service_denylist,
  check_resource_allowlist,
}
use taskgrant.Guardrails.Pins.{check_conditions}
use taskgrant.Guardrails.State.{StateStore, check_rate_limit, check_creep}
use taskgrant.Guardrails.Evaluate.{evaluate, expanded_statements, limit_checks, semantic_checks}
use taskgrant.Guardrails.{rank}
use taskgrant.Guardrails.Conditions.{
  services_of, IsPinned, constraining_condition_values, constraining_condition_values-IsPinned,
}
use taskgrant.Guardrails.Evaluator.{
  mandatory_deny_services, duration_floor_seconds, chained_duration_cap_seconds,
}
use taskgrant.Guardrails.Limits.{effective_duration, Capped, effective_duration_bounds}
use taskgrant.Guardrails.Pins.{require_account}
use taskgrant.Guardrails.Checks.{star_opted, allowed_levels, tagging_opted}
use taskgrant.Guardrails.Evaluate.{expanded_actions}
use taskgrant.Guardrails.Evaluate.Actions.{IsGrantable, evaluate_ok_actions, evaluate_ok_services}
use taskgrant.Guardrails.Evaluate.Resources.{IsStar, IsAllowlisted, evaluate_ok_resources}
use taskgrant.Guardrails.Evaluate.Conditions.{IsConstrained, evaluate_ok_conditions}
use taskgrant.Tests.Fixture.{
  dataset, config, evaluator, decode, input, store, statement, document, expanded_statement,
}

made : new dataset config ≡ Checked.ok evaluator
unfolding new access_level_set access_level_valid
made = refl

parsed : parse_policy decode (codes "{ }") ≡ document
unfolding parse_policy trim_space taskgrant.Guardrails.Document.parse_object
    taskgrant.Guardrails.Parse.unmarshal_map taskgrant.Guardrails.Document.parse_top
    taskgrant.Guardrails.Document.top_fields taskgrant.Guardrails.Document.top_field
    taskgrant.Guardrails.Document.parse_list taskgrant.Guardrails.Document.statement_list
    taskgrant.Guardrails.Parse.unmarshal_list taskgrant.Guardrails.Parse.unmarshal_string
    parse_statements parse_statement taskgrant.Guardrails.Parse.parse_fields
    taskgrant.Guardrails.Parse.parse_field taskgrant.Guardrails.Parse.shape_problems
parsed = refl

passed_structure : check_structure (codes "{ }") document ≡ check_of structure pass
unfolding check_structure taskgrant.Guardrails.Charset.check_sts_charset
passed_structure = refl

passed_existence :
    check_existence evaluator (statement ∷ []) ≡ (expanded_statement ∷ [], check_of existence pass)
unfolding check_existence taskgrant.Guardrails.Checks.expand_statements
    taskgrant.Guardrails.Checks.expand_statement sort taskgrant.Guardrails.Checks.expand_patterns
    expand trim_space valid_pattern is_pattern_byte expand_literal lookup lower add_all add_new
passed_existence = refl

collected : collect_expanded (expanded_statement ∷ []) ≡ codes "s3:GetObject" ∷ []
unfolding collect_expanded sort taskgrant.Guardrails.Checks.collect_loop add_all add_new
collected = refl

passed_levels :
    check_access_levels evaluator (codes "s3:GetObject" ∷ []) input ≡ check_of access_levels pass
unfolding check_access_levels taskgrant.Guardrails.Checks.allowed_levels
    taskgrant.Guardrails.Checks.actions_problems taskgrant.Guardrails.Checks.action_problems
    is_escalation_action canonical escalation_denylist lower trim_space lookup
    taskgrant.Guardrails.Checks.level_problem
passed_levels = refl

passed_denylist :
    check_service_denylist evaluator (expanded_statement ∷ []) (codes "s3:GetObject" ∷ [])
    ≡ check_of service_denylist pass
unfolding check_service_denylist taskgrant.Guardrails.Conditions.services_of sort cut add_new lower
    taskgrant.Guardrails.Checks.raw_services taskgrant.Guardrails.Checks.literal_services
    taskgrant.Guardrails.Checks.literal_service
passed_denylist = refl

passed_resources :
    check_resource_allowlist evaluator (expanded_statement ∷ []) input
    ≡ check_of resource_allowlist pass
unfolding check_resource_allowlist taskgrant.Guardrails.Checks.statements_resources
    taskgrant.Guardrails.Checks.resources_problems taskgrant.Guardrails.Checks.resource_problems
    taskgrant.Guardrails.Checks.resource_allowed arn_pattern_match guardrails_match
passed_resources = refl

passed_conditions :
    check_conditions evaluator (expanded_statement ∷ []) input ≡ check_of conditions pass
unfolding check_conditions taskgrant.Guardrails.Pins.pins_problems
    taskgrant.Guardrails.Pins.pin_problems taskgrant.Guardrails.Pins.operator_problems
    taskgrant.Guardrails.Conditions.operators sort taskgrant.Guardrails.Pins.region_problems
    taskgrant.Guardrails.Pins.is_exempt taskgrant.Guardrails.Conditions.services_of cut add_new
    lower trim_space taskgrant.Guardrails.Conditions.constraining_condition_values
    taskgrant.Guardrails.Conditions.pinned_in taskgrant.Guardrails.Pins.account_problems
    taskgrant.Guardrails.Pins.needs_account taskgrant.Guardrails.Pins.require_account
    taskgrant.Guardrails.Pins.keys_problems taskgrant.Guardrails.Conditions.condition_keys
    taskgrant.Guardrails.Pins.key_problems supports_condition_key lookup
    taskgrant.Dataset.Keys.before has_prefix taskgrant.Dataset.Keys.key_supported
    taskgrant.Dataset.Keys.templated account_field_wildcard split_n
    taskgrant.Guardrails.Conditions.has_condition_key taskgrant.Guardrails.Pins.foreign_accounts
passed_conditions = refl

passed_limits :
    limit_checks evaluator input
    ≡ check_of size_budget pass ∷ check_of duration_clamp pass ∷ check_of capability_count pass ∷ []
unfolding limit_checks taskgrant.Guardrails.Limits.check_size_budget
    taskgrant.Guardrails.Limits.check_duration_clamp
    taskgrant.Guardrails.Limits.check_capability_count
passed_limits = refl

passed_rate : check_rate_limit (some store) input 0 ≡ (check_of rate_limit pass, 1)
unfolding check_rate_limit taskgrant.Guardrails.State.take_tokens
passed_rate = refl

passed_creep : check_creep (some store) input 1 ≡ (check_of creep pass, 1)
unfolding check_creep
passed_creep = refl

abbrev result : Result
result = (evaluate decode evaluator (some store) input 0).0

expansion : expanded_statements evaluator document ≡ expanded_statement ∷ []
unfolding expanded_statements
expansion = ap (λ q. q.0) passed_existence

passed_semantic :
    semantic_checks evaluator document input
    ≡ check_of existence pass
      ∷ check_of access_levels pass
      ∷ check_of service_denylist pass
      ∷ check_of resource_allowlist pass
      ∷ check_of conditions pass
      ∷ []
unfolding semantic_checks
passed_semantic =
    rw
      (
        passed_existence, expansion, collected, passed_levels, passed_denylist, passed_resources,
        passed_conditions,
      )
      refl

abbrev passing : List Check
passing =
    check_of structure pass
    ∷ check_of existence pass
    ∷ check_of access_levels pass
    ∷ check_of service_denylist pass
    ∷ check_of resource_allowlist pass
    ∷ check_of conditions pass
    ∷ check_of size_budget pass
    ∷ check_of duration_clamp pass
    ∷ check_of capability_count pass
    ∷ check_of rate_limit pass
    ∷ check_of creep pass
    ∷ []

all_pass : result.checks ≡ passing
unfolding evaluate
all_pass =
    rw (parsed, passed_structure, passed_semantic, passed_limits, passed_rate, passed_creep) refl

overall_pass : result.overall ≡ aggregate result.checks
unfolding evaluate
overall_pass = refl

aggregate-passing : aggregate passing ≡ pass
unfolding aggregate
aggregate-passing = refl

passes : is_ok result ≡ true
unfolding is_ok evaluate
passes = rw (overall_pass, all_pass, aggregate-passing) refl

inside :
    In expanded_statement (expanded_statements evaluator (parse_policy decode input.policy_json))
inside = rw (parsed, expansion, In) (inl refl)

grants : result.expanded_actions ≡ codes "s3:GetObject" ∷ []
unfolding evaluate expanded_actions
grants = rw (parsed, expansion) collected

serves : services_of (codes "s3:GetObject" ∷ []) ≡ codes "s3" ∷ []
unfolding services_of cut sort add_new lower
serves = refl

pinned :
    constraining_condition_values expanded_statement (codes "aws:RequestedRegion") ≡ codes "eu" ∷ []
unfolding constraining_condition_values sort taskgrant.Guardrails.Conditions.pinned_in lower
pinned = refl

evaluate_ok_actions_example :
    (allowed : List Bytes) × (allowed_levels evaluator input ≡ Checked.ok allowed)
    × ((a : Bytes)
        → In a result.expanded_actions
        → IsGrantable dataset allowed (tagging_opted input) a)
evaluate_ok_actions_example = evaluate_ok_actions decode evaluator (some store) input 0 passes

evaluate_ok_services_example : ¬ In (codes "s3") mandatory_deny_services
evaluate_ok_services_example =
    evaluate_ok_services decode evaluator (some store) input 0 dataset config made passes
      (codes "s3") (rw (grants, serves, In) (inl refl))

evaluate_ok_resources_example :
    IsStar evaluator (star_opted input) expanded_statement (codes "arn:aws:s3:::b/k")
    ⊎ IsAllowlisted evaluator (codes "arn:aws:s3:::b/k")
evaluate_ok_resources_example =
    evaluate_ok_resources decode evaluator (some store) input 0 passes expanded_statement inside
      (codes "arn:aws:s3:::b/k") (inl refl)

evaluate_ok_conditions_example : IsConstrained evaluator (require_account input) expanded_statement
evaluate_ok_conditions_example =
    evaluate_ok_conditions decode evaluator (some store) input 0 passes expanded_statement inside

effective_duration_bounds_example :
    (duration_floor_seconds ≤ effective_duration evaluator input)
    × Capped 1200 (effective_duration evaluator input)
    × ((c : CapabilityMeta)
        → In c input.capabilities
        → Capped c.max_duration_seconds (effective_duration evaluator input))
    × Capped 0 (effective_duration evaluator input)
    × Capped 3600 (effective_duration evaluator input)
    × (true ≡ true → effective_duration evaluator input ≤ chained_duration_cap_seconds)
effective_duration_bounds_example = effective_duration_bounds evaluator input
