-- ===== src/Guardrails.antt =====
-- internal/guardrails: verdicts, checks, results, the configuration and the input of the evaluator.
-- The text of a check's detail is not modelled; the problems that it is rendered from are data.
pub mod Worst
pub mod Policy
pub mod Parse
pub mod Document
pub mod Charset
pub mod Conditions
pub mod Evaluator
pub mod Checks
pub mod Pins
pub mod Limits
pub mod State
pub mod Evaluate
use taskgrant.Prelude.{
  ℕ, zero, suc, ◌+◌, ◌≡◌, ◌⊎◌, Bool, true, false, ◌||◌, Option, none, some, List, [], ◌∷◌, ◌==◌,
  ltb, Bytes, codes, same, In, keep, arith, if◌then◌else◌,
}

-- A `Verdict` is a string; the evaluator only ever makes these four.
pub data Verdict : Type 0 where
  pass warn fail needs_approval : Verdict

abbrev pub rank : Verdict → ℕ
rank pass = 0
rank warn = 1
rank needs_approval = 2
rank fail = 3

pub data CheckName : Type 0 where
  structure existence access_levels service_denylist resource_allowlist : CheckName
  conditions size_budget duration_clamp capability_count rate_limit creep : CheckName

pub record Check : Type 0 where
  pub name : CheckName
  pub verdict : Verdict

abbrev pub check_of : CheckName → Verdict → Check
check_of n v = record { name = n; verdict = v }

-- `newCheck(name, Fail, …)` where there are problems, and `Pass` where there are none.
abbrev pub fail_if {ℓ} : {A : Type ℓ} → CheckName → List A → Check
fail_if n [] = check_of n pass
fail_if n (p ∷ ps) = check_of n fail

pub record Result : Type 0 where
  pub checks : List Check
  pub overall : Verdict
  pub expanded_actions : List Bytes
  pub effective_duration_seconds : ℕ
  pub policy_chars : ℕ

unfoldable pub is_ok : Result → Bool
is_ok r = elim r.overall [ pass ↦ true | warn ↦ true | fail ↦ false | needs_approval ↦ false ]

-- The loop of `aggregate`, with `worst`.
aggregate_loop : Verdict → List Check → Verdict
aggregate_loop worst [] = worst
aggregate_loop worst (c ∷ cs) =
    aggregate_loop (if ltb (rank worst) (rank c.verdict) then c.verdict else worst) cs

unfoldable pub aggregate : List Check → Verdict
unfolding aggregate_loop
aggregate checks = aggregate_loop pass checks

abbrev is_fail : Verdict → Bool
is_fail v = rank v == 3

unfoldable pub failed_checks : Result → List Check
failed_checks r = keep (λ c. is_fail c.verdict) r.checks

pub record CapabilityMeta : Type 0 where
  pub id : Bytes
  pub max_duration_seconds : ℕ
  pub tagging_opt_in : Bool
  pub resource_star_opt_in : Bool
  pub wildcard_allowlist_resource : Bool

-- A nil slice is `none`.
pub record Config : Type 0 where
  pub allowed_access_levels : List Bytes
  pub extra_deny_services : List Bytes
  pub resource_allowlist : List Bytes
  pub global_service_exemptions : Option (List Bytes)
  pub global_namespace_services : Option (List Bytes)
  pub accounts : List Bytes
  pub max_policy_chars : ℕ
  pub global_max_duration_seconds : ℕ

pub record Input : Type 0 where
  pub policy_json : Bytes
  pub agent_id : Bytes
  pub allowed_access_levels : Option (List Bytes)
  pub requested_duration_seconds : ℕ
  pub profile_max_duration_seconds : ℕ
  pub capabilities : List CapabilityMeta
  pub require_resource_account : Bool
  pub broker_chained : Bool
  pub max_policy_chars : ℕ
