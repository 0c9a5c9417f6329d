-- ===== src/Tests/Brokered.antt =====
-- Runs of the broker and of the minter.
use taskgrant.Prelude.{
  ℕ, suc, ◌+◌, ◌≤◌, ◌≡◌, refl, ap, ◌⊎◌, inl, inr, Bool, true, false, Option, none, some, List, [],
  ◌∷◌, ◌++◌, Bytes, codes, same, same→eq, is_empty, length, In, arith, Bool-cases, if◌then◌else◌,
}
use taskgrant.Prelude.Maps.{get}
use taskgrant.Domain.State.{State}
use taskgrant.Guardrails.Evaluator.{duration_floor_seconds, chained_duration_cap_seconds}
use taskgrant.Mint.{
  Credentials, assumed, packed_policy_too_large, refused, AssumeRoleInput, MintRequest, Client,
  Compacted, compacted, mint_with_compact,
}
use taskgrant.Mint.Calls.{IsSent, mint_with_compact-calls}
use taskgrant.Broker.{
  CapabilityRef, SynthVerdict, SynthResult, SynthReply, Clarification, GrantRequest, ProfileConfig,
  AgentConfig, Config, CatalogCapability, Snapshot, Deps, Entry, LogRecord, RecordKind, Outcome,
  Broker, Status, View,
}
use taskgrant.Broker.Minting.{mint_grant, fallback_duration}
use taskgrant.Broker.Minting.Verified.{IsVerified}
use taskgrant.Broker.Minting.Duration.{fallback_duration_bounds}
use taskgrant.Broker.Views.Logged.{reconstruct_view}
use taskgrant.Broker.Views.Polls.{Poll, IsKeyed, handed_out, handed_out_once}
use taskgrant.Broker.Request.{Target, peek_retry_token, retry_target, request_grant}
use taskgrant.Broker.Request.Retry.{request_grant-retry}
use taskgrant.Broker.Request.Cleared.{IsGuarded, request_grant-IsGuarded}
use taskgrant.Broker.Human.{mint_failed, approved_grant}
use taskgrant.Store.Pending.{PendingApproval, pending, is_pending, get_pending_approval, unique}
use taskgrant.Broker.Human.{entry_for_approval, approve_grant}
use taskgrant.Broker.Human.Decided.{minting, decided_broker, approve_grant-IsVerified}
use taskgrant.Tests.Parties.{reads}
use taskgrant.Broker.Human.Misread.{IsWaiting, approved_grant-misread}
use taskgrant.Broker.Release.{ReleaseView, release_grant}
use taskgrant.Broker.Release.Once.{release_grant_once}
use taskgrant.Broker.Entries.{new_entry, body_of}
use taskgrant.Broker.Sweep.{sweep}
use taskgrant.Broker.Sweep.Lapsed.{rows_swept, expired_at, sweep-fresh}
use taskgrant.Tests.Parties.{bot, g1, result, credentials, deps, request, broker}

one_call : length (request_grant deps 5 g1 bot request broker).1.calls ≡ 1
unfolding taskgrant.Broker.Request.request_grant taskgrant.Broker.Request.process
    taskgrant.Broker.Request.synthesize_for taskgrant.Broker.Request.entry_for
    taskgrant.Broker.Request.after_synthesis taskgrant.Broker.Request.by_verdict
    taskgrant.Broker.Entries.resolve_profile taskgrant.Broker.Entries.put_entry
    taskgrant.Broker.Decide.verify_and_decide taskgrant.Broker.Decide.route
    taskgrant.Broker.Decide.required_by taskgrant.Broker.Decide.auto_approve
    taskgrant.Broker.Rules.declared_action_set taskgrant.Broker.Rules.declared_actions
    taskgrant.Broker.Rules.uncovered_actions taskgrant.Broker.Rules.uncovered
    taskgrant.Broker.Rules.approval_rule_required taskgrant.Broker.Rules.first_match
    taskgrant.Prelude.lower taskgrant.Prelude.sort taskgrant.Broker.Pipeline.after_mint
    taskgrant.Broker.Entries.append_record taskgrant.Broker.Minting.mint_grant
    taskgrant.Broker.Minting.mint_request taskgrant.Broker.Entries.combined_policy_arns
    taskgrant.Broker.Entries.add_arns taskgrant.Mint.mint_with_compact taskgrant.Mint.mint
    taskgrant.Mint.build_assume_role_input taskgrant.Domain.Names.validate_agent_id
    taskgrant.Mint.mint_reply taskgrant.Broker.Entries.new_entry
    taskgrant.Broker.Entries.set_state_locked taskgrant.Broker.Minting.fallback_duration
one_call = refl

request_grant-IsGuarded_example :
    IsGuarded deps 5 bot request broker (request_grant deps 5 g1 bot request broker)
request_grant-IsGuarded_example = request_grant-IsGuarded deps 5 bot request g1 broker

abbrev live : Entry
live = record (new_entry g1 bot (codes "p") request 1) {
  state = State.active;
  expires_at = 100;
  delivery = some credentials;
  result = result;
}

abbrev holding : Entry → Broker
holding e = record broker { grants = (g1, e) ∷ [] }

abbrev retry : GrantRequest
retry = record request { retry_token = codes "t." }

abbrev asking : Entry
asking = record live {
  state = State.needs_clarification;
  delivery = none;
  result = record result {
    clarification = some record { code = []; questions = []; retry_token = codes "t."; round = 1 };
  };
}

request_grant-retry_example :
    ((request_grant deps 5 (codes "gr_2") bot retry (holding asking)).1 ≡ holding asking)
    ⊎ ((g : Bytes) × (round : ℕ) × (peek_retry_token deps.decode_token deps.parse_strict
            retry.retry_token
          ≡ some (g, round))
        × ((t : Target) × (retry_target g (holding asking) ≡ some t)
            × (t.owner ≡ bot)
            × (t.is_open ≡ true)
            × (t.open_round ≡ round)))
request_grant-retry_example =
    request_grant-retry deps 5 (codes "gr_2") bot retry (holding asking) refl

live-IsKeyed : IsKeyed (holding live)
unfolding new_entry
live-IsKeyed g e i = elim (Bool-cases (same g1 g)) [
  | inl y ↦ ground (arith, same→eq g1 g y)
  | inr n ↦ ground arith
]

abbrev poll : ℕ → Poll
poll at = record { agent = bot; grant_id = g1; at = at }

handed_once : handed_out deps g1 (poll 7 ∷ poll 8 ∷ []) (holding live) ≡ 1
unfolding handed_out taskgrant.Broker.Views.Logged.get_grant new_entry
    taskgrant.Broker.Views.view_with_delivery taskgrant.Broker.Views.build_view
    taskgrant.Broker.Views.refresh_entry taskgrant.Broker.Views.expire_lapsed
    taskgrant.Broker.Views.state_view
handed_once = refl

handed_out_once_example : handed_out deps g1 (poll 7 ∷ poll 8 ∷ []) (holding live) ≤ 1
handed_out_once_example =
    handed_out_once deps refl g1 (poll 7 ∷ poll 8 ∷ []) (holding live) live-IsKeyed

abbrev refusing : Deps
refusing = record deps { client = λ calls i. refused }

abbrev waiting : Entry
waiting = record live { state = State.pending_approval; delivery = none; expires_at = 0 }

abbrev parked_record : LogRecord
parked_record = record {
  kind = RecordKind.grant_decision;
  grant_id = g1;
  agent_id = bot;
  profile = codes "p";
  body = some (body_of Outcome.pending_approval);
}

abbrev parked : Broker
parked = record (holding waiting) { log = parked_record ∷ [] }

parked-IsWaiting : IsWaiting g1 parked
unfolding new_entry
parked-IsWaiting e i = ground (arith, i)

failing : (approved_grant refusing 5 g1 5 parked).0 ≡ mint_failed
unfolding taskgrant.Broker.Human.approved_grant taskgrant.Broker.Human.entry_for_approval
    taskgrant.Broker.Minting.mint_grant taskgrant.Broker.Minting.mint_request
    taskgrant.Broker.Entries.combined_policy_arns taskgrant.Broker.Entries.add_arns
    taskgrant.Mint.mint_with_compact taskgrant.Mint.mint taskgrant.Mint.build_assume_role_input
    taskgrant.Domain.Names.validate_agent_id taskgrant.Mint.mint_reply
    taskgrant.Broker.Entries.new_entry taskgrant.Broker.Entries.set_state_locked
    taskgrant.Broker.Minting.fallback_duration
failing = refl

approved_grant-misread_example :
    ((e : Entry) × (get same g1 (approved_grant refusing 5 g1 5 parked).1.grants ≡ some e)
      × (e.state ≡ State.denied))
    × ((v : View) × (reconstruct_view bot g1 99 (approved_grant refusing 5 g1 5 parked).1 ≡ some v)
        × (v.status ≡ Status.active))
unfolding taskgrant.Broker.Entries.grant_chain
approved_grant-misread_example =
    approved_grant-misread refusing 5 5 g1 bot 99 parked parked_record [] parked-IsWaiting refl refl
      failing

abbrev mint_for : MintRequest
mint_for = record {
  grant_id = g1;
  agent_id = bot;
  profile = codes "p";
  role_arn = codes "r";
  region = [];
  policy_json = codes "{  }";
  policy_arns = [];
  duration_seconds = 900;
  caller_ref = [];
  external_id = [];
}

abbrev shorter : ℕ → ℕ → Compacted ℕ × ℕ
shorter n s = (compacted (codes "{}") none, suc s)

abbrev crowded : Client
crowded calls i = packed_policy_too_large

mint_with_compact-calls_example :
    (new : List AssumeRoleInput) × ((mint_with_compact
        (λ g. true)
        crowded
        mint_for
        shorter
        0
        []).1.1
      ≡ new ++ [])
    × (length new ≤ 2)
    × ((i : AssumeRoleInput) → In i new → IsSent (λ g. true) ℕ crowded mint_for shorter 0 i)
mint_with_compact-calls_example =
    mint_with_compact-calls (λ g. true) ℕ crowded mint_for shorter 0 []

abbrev pending_row : PendingApproval
pending_row = record {
  grant_id = g1;
  agent_id = bot;
  profile = codes "p";
  task = [];
  reason = [];
  policy_json = codes "{ }";
  capabilities = reads ∷ [];
  required_by = codes "rule:0";
  status = pending;
  received_at = 1;
  expires_at = 11;
  decided_at = 0;
  approver = [];
  method = [];
  note = [];
}

abbrev queued : Broker
queued = record broker { approvals = record (broker.approvals) { queue = pending_row ∷ [] } }

queued-unique : unique queued.approvals.queue ≡ true
unfolding get_pending_approval
queued-unique = refl

approve_grant-IsVerified_example :
    ((approve_grant deps 6 g1 (codes "ann") (codes "cli") [] queued).1.1.calls ≡ [])
    ⊎ ((p : PendingApproval) × (get_pending_approval g1 queued.approvals.queue ≡ some p)
        × (is_pending p.status ≡ true)
        × ((new : List AssumeRoleInput) × ((approve_grant deps 6 g1
                (codes "ann")
                (codes "cli")
                []
                queued).1.1.calls
              ≡ new ++ [])
            × (length new ≤ 2)
            × ((i : AssumeRoleInput)
                → In i new
                → IsVerified deps
                    (minting deps 6 g1
                      (decided_broker deps 6 g1 (codes "ann") (codes "cli") [] queued))
                    (entry_for_approval g1
                      (decided_broker deps 6 g1 (codes "ann") (codes "cli") [] queued)).1
                    i)))
approve_grant-IsVerified_example =
    approve_grant-IsVerified deps 6 g1 (codes "ann") (codes "cli") [] queued queued-unique

abbrev cap : ℕ
cap = 1800

fallback_duration_bounds_example :
    (duration_floor_seconds ≤ fallback_duration 5000 1800 true)
    × (duration_floor_seconds ≤ 1800 → fallback_duration 5000 1800 true ≤ 1800)
    × (true ≡ true → fallback_duration 5000 1800 true ≤ chained_duration_cap_seconds)
    × (duration_floor_seconds ≤ 5000
        → (cap ≡ 0) ⊎ (5000 ≤ 1800)
        → (true ≡ false) ⊎ (5000 ≤ chained_duration_cap_seconds)
        → fallback_duration 5000 1800 true ≡ 5000)
fallback_duration_bounds_example = fallback_duration_bounds 5000 1800 true

-- The credentials of `live` run out at 100.
kept : In (g1, live) (rows_swept 150 (holding live))
unfolding taskgrant.Broker.Sweep.sweep_rows taskgrant.Approvals.sweep_once
    taskgrant.Store.Pending.expire_pending_approvals taskgrant.Store.Pending.expire_loop new_entry
kept = inl refl

not_terminal_yet : live.terminal_at ≡ 0
unfolding new_entry
not_terminal_yet = refl

sweep-fresh_example : In (g1, expired_at 150 live) (sweep 150 (holding live)).grants
sweep-fresh_example =
    (sweep-fresh 150 (holding live) g1 live).1 kept (inl refl) (omega arith) (omega arith)
      not_terminal_yet

abbrev released_view : ReleaseView
released_view = record {
  grant_id = g1;
  outcome = codes "done";
  released_at = 50;
  revocation_written = true;
}

released_now : (release_grant deps 50 bot g1 (codes "done") (holding live)).0 ≡ some released_view
unfolding release_grant taskgrant.Broker.Release.release_entry
    taskgrant.Broker.Release.revoke_on_release taskgrant.Broker.Release.role_name_from_arn
    taskgrant.Broker.Release.after_marker taskgrant.Broker.Release.last_segment
    taskgrant.Domain.Names.cut_prefix new_entry taskgrant.Broker.Entries.mark_terminal
released_now = refl

release_grant_once_example :
    release_grant deps 60 bot g1
      (codes "again")
      (release_grant deps 50 bot g1 (codes "done") (holding live)).1
    ≡ (some released_view, (release_grant deps 50 bot g1 (codes "done") (holding live)).1)
release_grant_once_example =
    release_grant_once deps bot g1 50 60 (codes "done") (codes "again") (holding live) released_view
      (live-IsKeyed g1) released_now
