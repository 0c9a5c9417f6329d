-- ===== src/Broker/Views/Logged.antt =====
-- The grants that are no longer in memory: what the log says of them.
use taskgrant.Prelude.{
  ℕ, Bool, true, false, Option, none, some, List, [], ◌∷◌, ◌==◌, ltb, Bytes, same, if◌then◌else◌,
}
use taskgrant.Prelude.Maps.{get}
use taskgrant.Store.Pending.{PendingStatus, PendingApproval, get_pending_approval}
use taskgrant.Broker.{Deps, Outcome, RecordKind, Body, LogRecord, Broker, Status, ErrorCode, View}
use taskgrant.Broker.Entries.{grant_chain, save}
use taskgrant.Broker.Views.{
  default_poll_after_seconds, approval_denied, approval_timeout, blank_view, view_with_delivery,
  refresh_entry,
}

-- What a clarification record makes of the round so far.
abbrev pub round_from : ℕ → Option Body → ℕ
round_from round none = round
round_from round (some body) = elim body.round [ none ↦ round | some n ↦ n ]

-- `openClarificationRound` of request.go, from what is open so far on.
unfoldable pub open_clarification_round : Bool → ℕ → List LogRecord → Bool × ℕ
open_clarification_round is_open round [] = (is_open, round)
open_clarification_round is_open round (r ∷ rs) = elim r.kind [
  | RecordKind.clarification ↦ open_clarification_round true (round_from round r.body) rs
  | RecordKind.grant_decision ↦ open_clarification_round false 0 rs
  | RecordKind.approval ↦ open_clarification_round false 0 rs
  | RecordKind.release ↦ open_clarification_round is_open round rs
  | RecordKind.other ↦ open_clarification_round is_open round rs
]

abbrev pub approval_decision : Body → Outcome
approval_decision body = elim body.approval [ none ↦ body.outcome | some d ↦ d ]

abbrev pub or_sts : ℕ → Option ℕ → ℕ
or_sts expiration none = expiration
or_sts expiration (some sts) = if expiration == 0 then sts else expiration

-- The status is not there yet where no record has set one.
unfoldable pub active_or_expired : Body → ℕ → View → Option Status × View
active_or_expired body now v =
    let exp = or_sts body.expiration body.sts_expiration in
    if exp == 0 then (some Status.active, v) else (
      some (if ltb exp now then Status.expired else Status.active),
      record v { expires_at = exp },
    )

abbrev pub denied_by_human : View → Option Status × View
denied_by_human v = (some Status.denied, record v { denial_code = approval_denied })

abbrev pub timed_out : View → Option Status × View
timed_out v = (
  some Status.denied,
  record v { denial_code = approval_timeout; human_approval_available = true },
)

unfoldable pub read_approval : Body → ℕ → Option Status × View → Option Status × View
read_approval body now (status, v) = elim (approval_decision body) [
  | Outcome.approved ↦ active_or_expired body now v
  | Outcome.denied ↦ denied_by_human v
  | Outcome.expired_pending ↦ timed_out v
  | Outcome.auto_approved ↦ (status, v)
  | Outcome.pending_approval ↦ (status, v)
  | Outcome.needs_clarification ↦ (status, v)
  | Outcome.error ↦ (status, v)
  | Outcome.other s ↦ (status, v)
]

unfoldable pub read_decision : Body → ℕ → Option Status × View → Option Status × View
read_decision body now (status, v) = elim body.outcome [
  | Outcome.auto_approved ↦ active_or_expired body now v
  | Outcome.pending_approval ↦
      (some Status.pending_approval, record v { poll_after_seconds = default_poll_after_seconds })
  | Outcome.denied ↦ (some Status.denied, record v { denial_code = body.denial_code })
  | Outcome.error ↦ (some Status.error, record v { error_code = some ErrorCode.internal })
  | Outcome.approved ↦ (status, v)
  | Outcome.expired_pending ↦ (status, v)
  | Outcome.needs_clarification ↦ (status, v)
  | Outcome.other s ↦ (status, v)
]

unfoldable pub read_record : LogRecord → ℕ → Option Status × View → Option Status × View
read_record r now (status, v) = elim r.body [
  | none ↦ (status, v)
  | some body ↦ elim r.kind [
    | RecordKind.release ↦ (some Status.released, v)
    | RecordKind.clarification ↦ (some Status.needs_clarification, record v { denial_code = [] })
    | RecordKind.approval ↦ read_approval body now (status, v)
    | RecordKind.grant_decision ↦ read_decision body now (status, v)
    | RecordKind.other ↦ (status, v)
  ]
]

unfoldable pub read_records : List LogRecord → ℕ → Option Status × View → Option Status × View
read_records [] now sv = sv
read_records (r ∷ rs) now sv = read_records rs now (read_record r now sv)

-- The row of the queue decides for a pending grant.
unfoldable pub follow_queue : Option PendingApproval → Status → View → View
follow_queue none status v = record v { status = status }
follow_queue (some row) status v = elim row.status [
  | PendingStatus.pending ↦ record v { status = status; pending_expires_at = row.expires_at }
  | PendingStatus.denied ↦ record v { status = Status.denied; denial_code = approval_denied }
  | PendingStatus.expired_pending ↦ record v {
    status = Status.denied;
    denial_code = approval_timeout;
    human_approval_available = true;
  }
  | PendingStatus.approved ↦ record v { status = status }
  | PendingStatus.other s ↦ record v { status = status }
]

abbrev pub is_pending_status : Status → Bool
is_pending_status Status.pending_approval = true
is_pending_status _ = false

-- `none` is the error `ErrNotFound`.
unfoldable pub read_chain : Bytes → Bytes → ℕ → Broker → List LogRecord → Option View
read_chain agent g now b [] = none
read_chain agent g now b (r ∷ rs) =
    let (status, v) = read_records (r ∷ rs) now (none, blank_view g Status.error) in
    if same r.agent_id agent
    then elim status [
      | none ↦ none
      | some st ↦ some (
          if is_pending_status st
          then follow_queue (get_pending_approval g b.approvals.queue) st v
          else record v { status = st })
    ]
    else none

unfoldable pub reconstruct_view : Bytes → Bytes → ℕ → Broker → Option View
reconstruct_view agent g now b = read_chain agent g now b (grant_chain g b.log)

-- `GetGrant`: the view, `none` for `ErrNotFound`, and the broker afterwards.
unfoldable pub get_grant : Deps → Bytes → Bytes → ℕ → Broker → Option View × Broker
get_grant deps agent g now b =
    if deps.parse_strict g
    then elim (get same g b.grants) [
      | none ↦ (reconstruct_view agent g now b, b)
      | some e ↦
          if same e.agent_id agent
          then (let (e1, b1) = refresh_entry now e b in
              let (v, e2) =
                view_with_delivery deps.config.credential_redelivery b.approvals.ttl e1 in
              (some v, save e2 b1))
          else (none, b)
    ]
    else (none, b)
