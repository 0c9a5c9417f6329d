-- ===== src/Broker/Pipeline.antt =====
-- The stages of `RequestGrant` in internal/broker/request.go: denials, clarifications, errors, the
-- verification of the policy, parking and the automatic approval. An entry is saved to the registry
-- where a stage ends. Waiting for a human is not part of a stage: a parked request gets its view.
use taskgrant.Prelude.{
  ℕ, Bool, true, false, Option, none, some, List, [], Bytes, map, if◌then◌else◌,
}
use taskgrant.Domain.Codes.{DenialCode, denial_code_valid, no_match}
use taskgrant.Domain.State.{State}
use taskgrant.Store.{done, failed}
use taskgrant.Store.Pending.{PendingStatus, PendingApproval}
use taskgrant.Mint.{Minted}
use taskgrant.Approvals.{submit, mark_capabilities}
use taskgrant.Broker.{
  CapabilityRef, SynthResult, Clarification, Entry, Outcome, RecordKind, Body, Broker, Status,
  ErrorCode, View,
}
use taskgrant.Broker.Entries.{set_state_locked, mark_terminal, body_of, append_record, save}
use taskgrant.Broker.Views.{blank_view, build_view}

-- The states that `denyEntry` moves to denied: all up to denied itself.
abbrev pub is_undecided : State → Bool
is_undecided State.denied = false
is_undecided State.minted = false
is_undecided State.active = false
is_undecided State.expired = false
is_undecided State.expired_pending = false
is_undecided (State.other s) = false
is_undecided _ = true

unfoldable pub denied_entry : (State → Bool) → ℕ → DenialCode → Entry → Entry
denied_entry moves now code e =
    let e1 = record e { decided_at = now; denial = code } in
    mark_terminal now (if moves e.state then set_state_locked State.denied e1 else e1)

abbrev pub denied_body : DenialCode → Body
denied_body code = record (body_of Outcome.denied) { denial_code = code }

unfoldable pub deny_entry : ℕ → DenialCode → Entry → Broker → View × Broker
deny_entry now code e b =
    let e' = denied_entry is_undecided now code e in
    (
      build_view b.approvals.ttl e',
      append_record RecordKind.grant_decision (denied_body code) e' (save e' b),
    )

unfoldable pub deny_synth : ℕ → SynthResult → Entry → Broker → View × Broker
deny_synth now res e b =
    deny_entry now (if denial_code_valid res.denial_code then res.denial_code else no_match) e b

abbrev pub round_of : Option Clarification → Option ℕ
round_of none = none
round_of (some c) = some c.round

unfoldable pub clarify : ℕ → SynthResult → Entry → Broker → View × Broker
clarify now res e b =
    let e' = record (set_state_locked State.needs_clarification e) { decided_at = now } in
    let body = record (body_of Outcome.needs_clarification) {
      round = round_of res.clarification;
    } in
    (build_view b.approvals.ttl e', append_record RecordKind.clarification body e' (save e' b))

unfoldable pub record_error : ℕ → Entry → Broker → Broker
record_error now e b =
    let e' = mark_terminal now (record e { errored = true; decided_at = now }) in
    append_record RecordKind.grant_decision (body_of Outcome.error) e' (save e' b)

abbrev pub error_view : Bytes → ErrorCode → View
error_view g code = record (blank_view g Status.error) { error_code = some code }

abbrev pub ids_of : List CapabilityRef → List Bytes
ids_of refs = map (λ (r : CapabilityRef). r.id) refs

abbrev pub pending_row : ℕ → SynthResult → Bytes → Entry → PendingApproval
pending_row now res required_by e = record {
  grant_id = e.grant_id;
  agent_id = e.agent_id;
  profile = e.profile;
  task = e.request.task;
  reason = e.request.reason;
  policy_json = res.policy_json;
  capabilities = ids_of res.capabilities;
  required_by = required_by;
  status = PendingStatus.other [];
  received_at = now;
  expires_at = 0;
  decided_at = 0;
  approver = [];
  method = [];
  note = [];
}

unfoldable pub park_for_approval : ℕ → SynthResult → Bytes → Entry → Broker → View × Broker
park_for_approval now res required_by e b =
    let (reply, m) = submit now (pending_row now res required_by e) b.approvals in
    let b' = record b { approvals = m } in
    elim reply [
      | failed x ↦ (error_view e.grant_id ErrorCode.internal, record_error now e b')
      | done row ↦
          let e' = record (set_state_locked State.pending_approval e) {
            decided_at = now;
            required_by = required_by;
          } in
          (
            build_view b.approvals.ttl e',
            append_record RecordKind.grant_decision (body_of Outcome.pending_approval) e'
                (save e' b'),
          )
    ]

-- The grant as minted and delivered.
unfoldable pub minted_entry : ℕ → Minted → Entry → Entry
minted_entry now m e = set_state_locked State.active (record (set_state_locked State.minted e) {
  minted_at = now;
  expires_at = m.credentials.expiration;
  delivery = some m.credentials;
})

-- `afterMint`: the first uses, approved.
unfoldable pub after_mint : ℕ → Entry → Broker → Broker
after_mint now e b = record b {
  approvals = record (b.approvals) {
    first_uses =
        mark_capabilities e.agent_id (ids_of e.result.capabilities) now true b.approvals.first_uses;
  };
}

abbrev pub sts_body : Outcome → Minted → Body
sts_body o m = record (body_of o) {
  expiration = m.credentials.expiration;
  sts_expiration = some m.credentials.expiration;
}

abbrev pub is_any_approved : State → Bool
is_any_approved State.auto_approved = true
is_any_approved State.approved = true
is_any_approved _ = false

-- After a mint that failed.
unfoldable pub deny_entry_mint : ℕ → DenialCode → Entry → Broker → View × Broker
deny_entry_mint now code e b =
    let e' = denied_entry is_any_approved now code e in
    (
      build_view b.approvals.ttl e',
      append_record RecordKind.grant_decision (denied_body code) e' (save e' b),
    )
