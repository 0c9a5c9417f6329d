-- ===== src/Broker/Decide.antt =====
-- `verifyAndDecide` and `autoApprove` of internal/broker/request.go.
pub mod Cleared
use taskgrant.Prelude.{
  ℕ, zero, suc, ◌+◌, ◌/◌, ◌%◌, Bool, true, false, Option, none, some, List, [], ◌∷◌, ◌++◌, ◌==◌,
  ltb, any, Bytes, codes, is_empty, if◌then◌else◌,
}
use taskgrant.Domain.Codes.{DenialCode, guardrail_violation}
use taskgrant.Domain.State.{State}
use taskgrant.Guardrails.{
  Verdict, Check, CheckName, Result, Input, failed_checks, rank, structure, existence,
  access_levels, service_denylist, resource_allowlist, conditions, size_budget, duration_clamp,
  capability_count, rate_limit, creep,
}
use taskgrant.Store.Ledger.{state_adapter}
use taskgrant.Broker.{
  SynthVerdict, SynthResult, ProfileConfig, Deps, Entry, Outcome, RecordKind, Broker, View,
}
use taskgrant.Broker.Entries.{set_state_locked, append_record, save}
use taskgrant.Broker.Rules.{
  capability_meta, declared_action_set, uncovered_actions, approval_rule_required,
}
use taskgrant.Broker.Minting.{
  GrantMint, grant_minted, grant_not_minted, mint_grant, classify_mint_error, is_failed,
}
use taskgrant.Broker.Views.{view_with_delivery}
use taskgrant.Broker.Pipeline.{
  deny_entry, deny_entry_mint, minted_entry, after_mint, sts_body, park_for_approval,
}

abbrev pub check_text : CheckName → Bytes
check_text structure = codes "G0.structure"
check_text existence = codes "G1.existence"
check_text access_levels = codes "G2.access-levels"
check_text service_denylist = codes "G3.service-denylist"
check_text resource_allowlist = codes "G4.resource-allowlist"
check_text conditions = codes "G5.mandatory-conditions"
check_text size_budget = codes "G6.size-budget"
check_text duration_clamp = codes "G7.duration-clamp"
check_text capability_count = codes "G8.capability-count"
check_text rate_limit = codes "G8.rate-limit"
check_text creep = codes "G8.capability-creep"

-- `%d`, with fuel for the digits.
digits : ℕ → ℕ → Bytes → Bytes
digits zero n acc = acc
digits (suc fuel) n acc =
    let rest = digits fuel (n / 10) ((b'0' + n % 10) ∷ acc) in
    if ltb n 10 then (b'0' + n) ∷ acc else rest

unfoldable pub rule_name : ℕ → Bytes
unfolding digits
rule_name i = codes "rule:" ++ digits (suc i) i []

abbrev is_rate_limit : CheckName → Bool
is_rate_limit rate_limit = true
is_rate_limit _ = false

abbrev pub rate_limited : DenialCode
rate_limited = codes "RATE_LIMITED"

unfoldable pub failed_code : Result → DenialCode
failed_code r =
    if any (λ (c : Check). is_rate_limit c.name) (failed_checks r)
    then rate_limited
    else guardrail_violation

abbrev pub is_needs_approval : Verdict → Bool
is_needs_approval v = rank v == 2

-- The name of the first check that asks for an approval.
unfoldable pub approval_check : List Check → Option Bytes
approval_check [] = none
approval_check (c ∷ cs) =
    let rest = approval_check cs in
    if is_needs_approval c.verdict then some (codes "guardrail:" ++ check_text c.name) else rest

abbrev pub is_pending_verdict : SynthVerdict → Bool
is_pending_verdict SynthVerdict.pending_approval = true
is_pending_verdict _ = false

-- Without a trace, or with one that names first uses, the reason is a first use.
abbrev pub seam_reason : Option (List Bytes) → Bytes
seam_reason none = codes "first_use"
seam_reason (some []) = codes "capability_rule"
seam_reason (some (c ∷ cs)) = codes "first_use"

abbrev pub or_else : Option Bytes → Option Bytes → Option Bytes
or_else (some r) o = some r
or_else none o = o

abbrev pub rule_reason : Option (ℕ × Bool) → Option Bytes
rule_reason none = none
rule_reason (some (i, required)) = if required then some (rule_name i) else none

abbrev pub seam_of : SynthResult → Option (List Bytes) → Option Bytes
seam_of res trace = if is_pending_verdict res.verdict then some (seam_reason trace) else none

abbrev pub check_of_result : Result → Option Bytes
check_of_result gres = if is_needs_approval gres.overall then approval_check gres.checks else none

-- A list of actions that stay outside the declared set, none without a catalog.
abbrev pub extra_of : Option (List Bytes) → List Bytes → List Bytes
extra_of none expanded = []
extra_of (some declared) expanded = uncovered_actions declared expanded

module _ (deps : Deps) where
  -- Why a human has to approve; `none` is the empty text.
  unfoldable pub required_by : SynthResult → Option (List Bytes) → Result → Entry → Option Bytes
  required_by res trace gres e = or_else (seam_of res trace) (
      or_else (check_of_result gres) (
        rule_reason
          (approval_rule_required deps.dataset deps.config.rules e.agent_id e.profile res)))

  abbrev pub guardrail_input : SynthResult → ProfileConfig → Entry → Input
  guardrail_input res profile e =
      let (meta, wildcard) = capability_meta deps.catalog res in
      record {
        policy_json = res.policy_json;
        agent_id = e.agent_id;
        allowed_access_levels = none;
        requested_duration_seconds = res.effective_duration;
        profile_max_duration_seconds = profile.max_duration_seconds;
        capabilities = meta;
        require_resource_account = wildcard;
        broker_chained = deps.chained;
        max_policy_chars = 0;
      }

  unfoldable pub auto_approve : ℕ → Entry → Broker → View × Broker
  auto_approve now e b =
      let (out, (e', b')) =
        mint_grant deps (record (set_state_locked State.auto_approved e) { decided_at = now }) b in
      elim out [
        | grant_not_minted x ↦ deny_entry_mint now (classify_mint_error x) e' b'
        | grant_minted m ↦
            let live = minted_entry now m e' in
            let (v, handed) =
              view_with_delivery deps.config.credential_redelivery b.approvals.ttl live in
            (
              v,
              append_record RecordKind.grant_decision (sts_body Outcome.auto_approved m) handed
                  (save handed (after_mint now live b')),
            )
      ]

  -- After the guardrails: the cross-check and the approval routing.
  unfoldable pub route :
      ℕ → SynthResult → Option (List Bytes) → Result → Entry → Broker → View × Broker
  route now res trace gres e b =
      if is_failed gres
      then deny_entry now (failed_code gres) e b
      else if is_empty
          (extra_of (declared_action_set deps.catalog res.capabilities) gres.expanded_actions)
      then elim (required_by res trace gres e) [
        | some reason ↦ park_for_approval now res reason e b
        | none ↦ auto_approve now e b
      ]
      else deny_entry now guardrail_violation e b

  unfoldable pub verify_and_decide :
      ℕ → SynthResult → Option (List Bytes) → ProfileConfig → Entry → Broker → View × Broker
  verify_and_decide now res trace profile e b =
      let e1 = set_state_locked State.guardrails e in
      if is_empty res.policy_json
      then deny_entry now guardrail_violation e1 b
      else let (gres, durable) =
          deps.evaluate (some (state_adapter now)) (guardrail_input res profile e1) b.durable in
        route now res trace gres (record e1 { effective_seconds = gres.effective_duration_seconds })
          (record b { durable = durable })
