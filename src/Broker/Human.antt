-- ===== src/Broker/Human.antt =====
-- internal/broker/approve.go: what a human decides.
pub mod Misread
pub mod Decided
use taskgrant.Prelude.{
  ℕ, ◌+◌, ◌*◌, Bool, true, false, ◌&&◌, ◌||◌, Option, none, some, List, [], ◌∷◌, ◌==◌, ltb, map,
  Bytes, codes, same, if◌then◌else◌,
}
use taskgrant.Prelude.Maps.{get}
use taskgrant.Domain.Codes.{DenialCode}
use taskgrant.Domain.State.{State, is_state}
use taskgrant.Store.{Reply, done, failed}
use taskgrant.Store.Pending.{PendingStatus, PendingApproval, get_pending_approval}
use taskgrant.Mint.{Minted}
use taskgrant.Approvals.{Answer, decision, Manager, approve, deny, sweep_once}
use taskgrant.Broker.{
  CapabilityRef, SynthVerdict, GrantRequest, Deps, Entry, Outcome, RecordKind, Body, Broker,
}
use taskgrant.Broker.Entries.{
  no_result, set_state_locked, mark_terminal, put_entry, save, new_entry, append_record,
}
use taskgrant.Broker.Minting.{
  GrantMint, grant_minted, grant_not_minted, GrantMintError, mint_grant, classify_mint_error,
}
use taskgrant.Broker.Views.{approval_denied}
use taskgrant.Broker.Pipeline.{denied_body, minted_entry, after_mint, sts_body}

pub data MintOutcome : Type 0 where
  minted mint_failed : MintOutcome

abbrev pub no_request : GrantRequest
no_request = record {
  task = [];
  reason = [];
  profile = [];
  capabilities = [];
  services = [];
  resources = [];
  access = [];
  duration_seconds = 0;
  caller_ref = [];
  idempotency_key = [];
  retry_token = [];
}

abbrev pub blank_entry : Bytes → Entry
blank_entry g = record (new_entry g [] [] no_request 0) { state = State.pending_approval }

abbrev pub unversioned : Bytes → CapabilityRef
unversioned id = record { id = id; version = 0 }

-- The entry rebuilt from the row of the queue.
unfoldable pub entry_from_row : Bytes → Option PendingApproval → Entry
entry_from_row g none = blank_entry g
entry_from_row g (some row) = record (blank_entry g) {
  agent_id = row.agent_id;
  profile = row.profile;
  received_at = row.received_at;
  required_by = row.required_by;
  request = record no_request { task = row.task; reason = row.reason; profile = row.profile };
  result = record no_result {
    verdict = SynthVerdict.pending_approval;
    policy_json = row.policy_json;
    capabilities = map unversioned row.capabilities;
  };
}

unfoldable pub entry_for_approval : Bytes → Broker → Entry × Broker
entry_for_approval g b = elim (get same g b.grants) [
  | some e ↦ (e, b)
  | none ↦ let e = entry_from_row g (get_pending_approval g b.approvals.queue) in (e, put_entry e b)
]

-- When the manager decided, if it did.
abbrev pub decided_of : Answer → Option ℕ
decided_of (decision d) = some d.decided_at
decided_of _ = none

abbrev pub approval_body : Outcome → Body → Body
approval_body d body = record body { approval = some d }

-- After a mint that failed: denied, under a record whose approval still says approved.
unfoldable pub mint_failed_after : ℕ → ℕ → GrantMintError → Entry → Broker → Broker
mint_failed_after now decided_at x e b =
    let code = classify_mint_error x in
    let e' =
      mark_terminal now
        (set_state_locked State.denied (record e { decided_at = decided_at; denial = code })) in
    append_record RecordKind.approval (approval_body Outcome.approved (denied_body code)) e'
      (save e' b)

unfoldable pub minted_after : ℕ → Minted → Entry → Broker → Broker
minted_after now m e b =
    let live = minted_entry now m e in
    append_record RecordKind.approval (approval_body Outcome.approved (sts_body Outcome.approved m))
      live (save live (after_mint now live b))

module _ (deps : Deps) (now : ℕ) where
  -- From the decision on.
  unfoldable pub approved_grant : Bytes → ℕ → Broker → MintOutcome × Broker
  approved_grant g decided_at b =
      let (e, b1) = entry_for_approval g b in
      let (out, (e2, b2)) = mint_grant deps (set_state_locked State.approved e) b1 in
      elim out [
        | grant_not_minted x ↦ (mint_failed, mint_failed_after now decided_at x e2 b2)
        | grant_minted m ↦ (minted, minted_after now m e2 b2)
      ]

  -- The answer of the manager, and the outcome of the mint where it decided.
  unfoldable pub approve_grant :
      Bytes → Bytes → Bytes → Bytes → Broker → Answer × (Option MintOutcome × Broker)
  approve_grant g approver method note b =
      let (answer, m) = approve now g approver method note b.approvals in
      let b' = record b { approvals = m } in
      elim (decided_of answer) [
        | some decided_at ↦
            let (out, b'') = approved_grant g decided_at b' in (answer, (some out, b''))
        | none ↦ (answer, (none, b'))
      ]

  unfoldable pub denied_grant : Bytes → ℕ → Broker → Broker
  denied_grant g decided_at b =
      let (e, b1) = entry_for_approval g b in
      let e' = mark_terminal now (
        set_state_locked State.denied
          (record e { decided_at = decided_at; denial = approval_denied })) in
      append_record RecordKind.approval (approval_body Outcome.denied (denied_body approval_denied))
        e' (save e' b1)

  unfoldable pub deny_grant : Bytes → Bytes → Bytes → Bytes → Broker → Answer × Broker
  deny_grant g approver method note b =
      let (answer, m) = deny now g approver method note b.approvals in
      let b' = record b { approvals = m } in
      elim (decided_of answer) [
        | some decided_at ↦ (answer, denied_grant g decided_at b')
        | none ↦ (answer, b')
      ]
