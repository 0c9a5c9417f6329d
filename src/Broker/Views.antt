-- ===== src/Broker/Views.antt =====
-- internal/broker/views.go, with `finalizeExpiredPending` of request.go: what an agent sees of a
-- grant. The texts of the details, the scope summary and the explanation are not modelled.
pub mod Logged
pub mod Once
mod Unhanded
pub mod Polls
use taskgrant.Prelude.{
  ℕ, ◌+◌, Bool, true, false, not, ◌&&◌, Option, none, some, List, [], ◌∷◌, ◌==◌, ltb, Bytes, codes,
  same, if◌then◌else◌,
}
use taskgrant.Prelude.Maps.{get}
use taskgrant.Domain.Codes.{DenialCode}
use taskgrant.Domain.State.{State, is_state}
use taskgrant.Store.Pending.{PendingStatus, PendingApproval, get_pending_approval}
use taskgrant.Broker.{Config, Entry, Outcome, RecordKind, Body, Broker, Status, ErrorCode, View}
use taskgrant.Broker.Entries.{set_state_locked, mark_terminal, body_of, append_record, save}

abbrev pub default_poll_after_seconds : ℕ
default_poll_after_seconds = 5

abbrev pub approval_denied : DenialCode
approval_denied = codes "APPROVAL_DENIED"

abbrev pub approval_timeout : DenialCode
approval_timeout = codes "APPROVAL_TIMEOUT"

abbrev pub blank_view : Bytes → Status → View
blank_view g status = record {
  grant_id = g;
  status = status;
  expires_at = 0;
  poll_after_seconds = 0;
  pending_expires_at = 0;
  clarification = none;
  denial_code = [];
  human_approval_available = false;
  error_code = none;
  credentials = none;
}

-- The `switch` on the state, under the manager's TTL.
unfoldable pub state_view : ℕ → Entry → State → View
state_view ttl e State.active = record (blank_view e.grant_id Status.active) {
  expires_at = e.expires_at;
}
state_view ttl e State.minted = record (blank_view e.grant_id Status.active) {
  expires_at = e.expires_at;
}
state_view ttl e State.pending_approval = record (blank_view e.grant_id Status.pending_approval) {
  poll_after_seconds = default_poll_after_seconds;
  pending_expires_at = e.decided_at + ttl;
}
state_view ttl e State.needs_clarification =
    record (blank_view e.grant_id Status.needs_clarification) {
      clarification = e.result.clarification;
    }
state_view ttl e State.denied = record (blank_view e.grant_id Status.denied) {
  denial_code = e.denial;
  human_approval_available = same e.denial approval_timeout;
}
state_view ttl e State.expired_pending = record (blank_view e.grant_id Status.denied) {
  denial_code = approval_timeout;
  human_approval_available = true;
}
state_view ttl e State.expired = blank_view e.grant_id Status.expired
state_view ttl e _ = record (blank_view e.grant_id Status.pending_approval) {
  poll_after_seconds = 1;
}

unfoldable pub build_view : ℕ → Entry → View
build_view ttl e =
    if e.released
    then blank_view e.grant_id Status.released
    else if e.errored
    then record (state_view ttl e e.state) {
      status = Status.error;
      error_code = some ErrorCode.internal;
    }
    else state_view ttl e e.state

abbrev pub is_active : Status → Bool
is_active Status.active = true
is_active _ = false

-- The view, and the entry after the delivery.
unfoldable pub view_with_delivery : Bool → ℕ → Entry → View × Entry
view_with_delivery redelivery ttl e =
    let v = build_view ttl e in
    if is_active v.status
    then elim e.delivery [
      | none ↦ (v, e)
      | some c ↦ if e.delivered && not redelivery then (v, e) else (
        record v { credentials = some c },
        record e { delivered = true; delivery = if redelivery then some c else none },
      )
    ]
    else (v, e)

unfoldable pub finalize_expired_pending : ℕ → Entry → Broker → Entry × Broker
finalize_expired_pending now e b =
    if is_state State.pending_approval e.state
    then (let e' = mark_terminal now (set_state_locked State.expired_pending e) in
        let body = record (body_of Outcome.expired_pending) {
          approval = some Outcome.expired_pending;
        } in
        (e', append_record RecordKind.approval body e' b))
    else (e, b)

-- Active or minted, and past its expiry.
abbrev pub is_lapsed : ℕ → Entry → Bool
is_lapsed now e =
    if is_state State.active e.state
    then ltb 0 e.expires_at && ltb e.expires_at now
    else is_state State.minted e.state && (ltb 0 e.expires_at && ltb e.expires_at now)

abbrev pub expire_entry : ℕ → Entry → Entry
expire_entry now e =
    mark_terminal now (record (set_state_locked State.expired e) { delivery = none })

unfoldable pub expire_lapsed : ℕ → Entry → Entry
expire_lapsed now e = if is_lapsed now e then expire_entry now e else e

-- A pending grant follows the status of its row in the queue.
unfoldable pub follow_status : ℕ → PendingStatus → Entry → Broker → Entry × Broker
follow_status now PendingStatus.expired_pending e b = finalize_expired_pending now e b
follow_status now PendingStatus.denied e b =
    (mark_terminal now (record (set_state_locked State.denied e) { denial = approval_denied }), b)
follow_status now _ e b = (e, b)

abbrev pub follow_row : ℕ → Option PendingApproval → Entry → Broker → Entry × Broker
follow_row now none e b = (e, b)
follow_row now (some row) e b = follow_status now row.status e b

unfoldable pub refresh_entry : ℕ → Entry → Broker → Entry × Broker
refresh_entry now e b =
    let e' = expire_lapsed now e in
    if is_state State.pending_approval e'.state
    then follow_row now (get_pending_approval e'.grant_id b.approvals.queue) e' b
    else (e', b)
