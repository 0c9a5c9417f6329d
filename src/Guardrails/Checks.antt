-- ===== src/Guardrails/Checks.antt =====
-- The checks G0 to G4 of internal/guardrails/evaluate.go.
use taskgrant.Prelude.{
  Bool, false, ◌&&◌, none, some, List, [], ◌∷◌, ◌++◌, Bytes, codes, same, has, has_wildcard, lower,
  is_empty, any, keep, add_all, sort, if◌then◌else◌,
}
use taskgrant.Glob.Arn.{cut, arn_pattern_match}
use taskgrant.Dataset.{
  Dataset, ActionInfo, lookup, expand, names_of, failed, ExpandError, access_tagging,
  access_permissions_management,
}
use taskgrant.Dataset.Denylist.{is_escalation_action}
use taskgrant.Guardrails.{
  Check, check_of, fail_if, Input, CapabilityMeta, fail, structure, existence, access_levels,
  service_denylist, resource_allowlist,
}
use taskgrant.Guardrails.Policy.{ParsedStatement, ParsedPolicy}
use taskgrant.Guardrails.Charset.{check_sts_charset}
use taskgrant.Guardrails.Conditions.{services_of}
use taskgrant.Guardrails.Evaluator.{Evaluator, Checked, ok, err, access_level_set}

-- G0
unfoldable pub check_structure : Bytes → ParsedPolicy → Check
check_structure raw doc = fail_if structure (doc.problems ++ check_sts_charset raw)

-- G1: the loop over the patterns of a statement, with `st.expanded`.
unfoldable pub expand_patterns : Dataset → List Bytes → List Bytes → List Bytes × List ExpandError
expand_patterns ds [] out = (out, [])
expand_patterns ds (p ∷ ps) out = elim (expand ds p) [
  | failed e ↦ let (out', errs) = expand_patterns ds ps out in (out', e ∷ errs)
  | names_of acts ↦ expand_patterns ds ps (add_all out acts)
]

unfoldable pub expand_statement : Dataset → ParsedStatement → ParsedStatement × List ExpandError
expand_statement ds st =
    let (out, errs) = expand_patterns ds st.actions [] in (record st { expanded = sort out }, errs)

unfoldable pub expand_statements :
    Dataset → List ParsedStatement → List ParsedStatement × List ExpandError
expand_statements ds [] = ([], [])
expand_statements ds (st ∷ sts) =
    let (st', errs) = expand_statement ds st in
    let (sts', more) = expand_statements ds sts in (st' ∷ sts', errs ++ more)

-- The statements as G1 leaves them, and its check.
unfoldable pub check_existence : Evaluator → List ParsedStatement → List ParsedStatement × Check
check_existence e sts =
    let (sts', errs) = expand_statements e.ds sts in (sts', fail_if existence errs)

unfoldable pub collect_loop : List Bytes → List ParsedStatement → List Bytes
collect_loop out [] = out
collect_loop out (st ∷ sts) = collect_loop (add_all out st.expanded) sts

unfoldable pub collect_expanded : List ParsedStatement → List Bytes
collect_expanded sts = sort (collect_loop [] sts)

-- G2: what one action contributes to the four lists of problems.
pub data LevelProblem : Type 0 where
  escalation unknown perms_management tagging_not_allowed : Bytes → LevelProblem
  outside_levels : Bytes → Bytes → LevelProblem

unfoldable pub level_problem : List Bytes → Bool → Bytes → ActionInfo → List LevelProblem
level_problem allowed tagging_opt_in a info =
    if same info.access_level access_permissions_management
    then perms_management a ∷ []
    else if same info.access_level access_tagging
    then (if has access_tagging allowed && tagging_opt_in then [] else tagging_not_allowed a ∷ [])
    else if has info.access_level allowed
    then []
    else outside_levels a info.access_level ∷ []

unfoldable pub action_problems : Dataset → List Bytes → Bool → Bytes → List LevelProblem
action_problems ds allowed tagging_opt_in a =
    (if is_escalation_action a then escalation a ∷ [] else []) ++ elim (lookup ds a) [
      | none ↦ unknown a ∷ []
      | some info ↦ level_problem allowed tagging_opt_in a info
    ]

unfoldable pub actions_problems : Dataset → List Bytes → Bool → List Bytes → List LevelProblem
actions_problems ds allowed tagging_opt_in [] = []
actions_problems ds allowed tagging_opt_in (a ∷ as') =
    action_problems ds allowed tagging_opt_in a ++ actions_problems ds allowed tagging_opt_in as'

abbrev pub tagging_opted : Input → Bool
tagging_opted i = any (λ (c : CapabilityMeta). c.tagging_opt_in) i.capabilities

unfoldable pub allowed_levels : Evaluator → Input → Checked (List Bytes)
allowed_levels e i = elim i.allowed_access_levels [
  | none ↦ ok e.default_levels
  | some levels ↦ access_level_set levels
]

unfoldable pub check_access_levels : Evaluator → List Bytes → Input → Check
check_access_levels e expanded i = elim (allowed_levels e i) [
  | err x ↦ check_of access_levels fail
  | ok allowed ↦ fail_if access_levels (actions_problems e.ds allowed (tagging_opted i) expanded)
]

-- G3: the denied services of the expansion, and those that a literal prefix of a raw pattern names.
unfoldable pub literal_service : Evaluator → Bytes → List Bytes
literal_service e pat = elim (cut b':' pat) [
  | none ↦ []
  | some (svc, rest) ↦
      if has_wildcard svc
      then []
      else if has (lower svc) e.deny_services
      then lower svc ∷ []
      else []
]

unfoldable pub literal_services : Evaluator → List Bytes → List Bytes
literal_services e [] = []
literal_services e (pat ∷ pats) = literal_service e pat ++ literal_services e pats

unfoldable pub raw_services : Evaluator → List ParsedStatement → List Bytes
raw_services e [] = []
raw_services e (st ∷ sts) = literal_services e st.actions ++ raw_services e sts

unfoldable pub check_service_denylist : Evaluator → List ParsedStatement → List Bytes → Check
check_service_denylist e sts expanded =
    fail_if service_denylist
      (keep (λ svc. has svc e.deny_services) (services_of expanded) ++ raw_services e sts)

-- G4
pub data ResourceProblem : Type 0 where
  star_not_opted star_unverifiable : ResourceProblem
  takes_resources not_allowlisted : Bytes → ResourceProblem

abbrev pub star_opted : Input → Bool
star_opted i = any (λ (c : CapabilityMeta). c.resource_star_opt_in) i.capabilities

-- An action is fit for Resource "*" if the dataset knows it and it takes no resource type.
unfoldable pub is_resource_free : Dataset → Bytes → Bool
is_resource_free ds a = elim (lookup ds a) [
  | none ↦ false
  | some info ↦ is_empty info.resource_types
]

unfoldable pub unfit_for_star : Dataset → List Bytes → List ResourceProblem
unfit_for_star ds [] = []
unfit_for_star ds (a ∷ as') =
    let rest = unfit_for_star ds as' in
    if is_resource_free ds a then rest else takes_resources a ∷ rest

unfoldable pub resource_allowed : Evaluator → Bytes → Bool
resource_allowed e resource = any (λ p. arn_pattern_match p resource) e.cfg.resource_allowlist

unfoldable pub star_problems : Evaluator → Bool → List Bytes → List ResourceProblem
star_problems e opted expanded =
    (if opted then [] else star_not_opted ∷ [])
    ++ (if is_empty expanded then star_unverifiable ∷ [] else unfit_for_star e.ds expanded)

unfoldable pub resource_problems : Evaluator → Bool → List Bytes → Bytes → List ResourceProblem
resource_problems e opted expanded r =
    if same r (codes "*")
    then star_problems e opted expanded
    else if resource_allowed e r
    then []
    else not_allowlisted r ∷ []

unfoldable pub resources_problems :
    Evaluator → Bool → List Bytes → List Bytes → List ResourceProblem
resources_problems e opted expanded [] = []
resources_problems e opted expanded (r ∷ rs) =
    resource_problems e opted expanded r ++ resources_problems e opted expanded rs

unfoldable pub statements_resources : Evaluator → Bool → List ParsedStatement → List ResourceProblem
statements_resources e opted [] = []
statements_resources e opted (st ∷ sts) =
    resources_problems e opted st.expanded st.resources ++ statements_resources e opted sts

unfoldable pub check_resource_allowlist : Evaluator → List ParsedStatement → Input → Check
check_resource_allowlist e sts i =
    fail_if resource_allowlist (statements_resources e (star_opted i) sts)
