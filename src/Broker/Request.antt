-- ===== src/Broker/Request.antt =====
-- `RequestGrant` of internal/broker/request.go: the routing of a retry, the boundary checks, the
-- replay of an idempotency key, and the stages by the synthesizer's verdict. A fresh grant id is an
-- argument. The blocking wait for a human is left out: a parked request gets its view.
pub mod Retry
pub mod Cleared
use taskgrant.Prelude.{
  ℕ, ◌+◌, ◌*◌, Bool, true, false, not, ◌&&◌, ◌||◌, Option, none, some, List, [], ◌∷◌, ◌==◌, ltb,
  length, Bytes, codes, same, is_empty, if◌then◌else◌,
}
use taskgrant.Prelude.Maps.{get}
use taskgrant.Domain.Codes.{DenialCode}
use taskgrant.Domain.State.{State, is_state}
use taskgrant.Store.{Reply, done, failed}
use taskgrant.Store.Idempotency.{put_idempotency_key}
use taskgrant.Broker.{
  SynthVerdict, SynthResult, Clarification, GrantRequest, ProfileConfig, SynthRequest, SynthReply,
  Deps, Entry, LogRecord, Broker, Status, ErrorCode, View,
}
use taskgrant.Broker.Entries.{
  set_state_locked, put_entry, save, new_entry, grant_chain, Resolved, resolve_profile,
}
use taskgrant.Broker.Minting.{effective_max_duration_seconds}
use taskgrant.Broker.Views.{blank_view}
use taskgrant.Broker.Views.Logged.{open_clarification_round, get_grant}
use taskgrant.Broker.Pipeline.{deny_entry, deny_synth, clarify, record_error, error_view}
use taskgrant.Broker.Decide.{verify_and_decide}

abbrev pub idempotency_window : ℕ
idempotency_window = 3600000000000

abbrev pub clarification_exhausted : DenialCode
clarification_exhausted = codes "CLARIFICATION_EXHAUSTED"

-- What stands before the first dot, if there is one.
unfoldable pub cut_dot : Bytes → Option Bytes
cut_dot [] = none
cut_dot (c ∷ s) =
    let rest = cut_dot s in
    if c == b'.' then some [] else elim rest [ none ↦ none | some t ↦ some (c ∷ t) ]

abbrev pub with_valid_id : (Bytes → Bool) → Option (Bytes × ℕ) → Option (Bytes × ℕ)
with_valid_id parse_strict none = none
with_valid_id parse_strict (some (g, round)) = if parse_strict g then some (g, round) else none

-- Nothing is verified here but the form.
unfoldable pub peek_retry_token :
    (Bytes → Option (Bytes × ℕ)) → (Bytes → Bool) → Bytes → Option (Bytes × ℕ)
peek_retry_token decode parse_strict token =
    if ltb 1024 (length token)
    then none
    else elim (cut_dot token) [ none ↦ none | some body ↦ with_valid_id parse_strict (decode body) ]

-- The owner of a grant, and its open clarification round.
pub record Target : Type 0 where
  pub owner : Bytes
  pub is_open : Bool
  pub open_round : ℕ

abbrev pub live_round : Entry → ℕ
live_round e = elim e.result.clarification [ none ↦ 0 | some c ↦ c.round ]

abbrev pub live_target : Entry → Target
live_target e =
    let is_open = is_state State.needs_clarification e.state in
    record {
      owner = e.agent_id;
      is_open = is_open;
      open_round = if is_open then live_round e else 0;
    }

abbrev pub logged_target : List LogRecord → Option Target
logged_target [] = none
logged_target (r ∷ rs) =
    let (is_open, round) = open_clarification_round false 0 (r ∷ rs) in
    some record { owner = r.agent_id; is_open = is_open; open_round = round }

unfoldable pub retry_target : Bytes → Broker → Option Target
retry_target g b = elim (get same g b.grants) [
  | some e ↦ some (live_target e)
  | none ↦ logged_target (grant_chain g b.log)
]

abbrev pub is_continued : Bytes → Entry → Bool
is_continued agent e = same e.agent_id agent && is_state State.needs_clarification e.state

-- The entry of a retry goes on from synthesized, back to received.
abbrev pub continued : GrantRequest → Entry → Entry
continued req e = record (set_state_locked State.synthesized (record e { request = req })) {
  state = State.received;
}

abbrev pub with_profile : Bytes → Entry → Entry
with_profile name e = record e { profile = name }

-- The entry and the registry that hold it.
unfoldable pub entry_for : Bool → Bytes → Bytes → Bytes → GrantRequest → ℕ → Broker → Entry × Broker
entry_for is_retry g agent name req now b =
    let fresh = new_entry g agent name req now in
    if is_retry
    then elim (get same g b.grants) [
      | none ↦ (fresh, put_entry fresh b)
      | some prev ↦
          if is_continued agent prev
          then (let e = with_profile name (continued req prev) in (e, save e b))
          else (fresh, put_entry fresh b)
    ]
    else (fresh, put_entry fresh b)

module _ (deps : Deps) (now : ℕ) where
  abbrev pub failed_synthesis : Entry → Broker → Option View × Broker
  failed_synthesis e b = (some (error_view e.grant_id ErrorCode.internal), record_error now e b)

  abbrev pub replied : View × Broker → Option View × Broker
  replied (v, b) = (some v, b)

  unfoldable pub by_verdict :
      SynthVerdict
      → SynthResult
      → Option (List Bytes)
      → ProfileConfig
      → Entry
      → Broker
      → Option View × Broker
  by_verdict SynthVerdict.deny res trace p e b = replied (deny_synth now res e b)
  by_verdict SynthVerdict.needs_clarification res trace p e b = replied (clarify now res e b)
  by_verdict SynthVerdict.policy res trace p e b =
      replied (verify_and_decide deps now res trace p e b)
  by_verdict SynthVerdict.pending_approval res trace p e b =
      replied (verify_and_decide deps now res trace p e b)
  by_verdict (SynthVerdict.other s) res trace p e b = failed_synthesis e b

  unfoldable pub after_synthesis :
      SynthReply → ProfileConfig → Entry → Broker → Option View × Broker
  after_synthesis SynthReply.invalid_retry_token p e b =
      (some (error_view e.grant_id ErrorCode.invalid_argument), b)
  after_synthesis SynthReply.synthesis_failed p e b = failed_synthesis e b
  after_synthesis (SynthReply.synthesized res trace) p e b =
      by_verdict res.verdict res trace p
        (record (set_state_locked State.synthesized e) { result = res }) b

  abbrev pub synth_request : Bytes → GrantRequest → Entry → SynthRequest
  synth_request name req e = record {
    grant_id = e.grant_id;
    agent_id = e.agent_id;
    profile = name;
    max_duration_seconds = effective_max_duration_seconds deps.config name;
    request = req;
  }

  unfoldable pub synthesize_for :
      Bool → Bytes → Bytes → Bytes → ProfileConfig → GrantRequest → Broker → Option View × Broker
  synthesize_for is_retry g agent name p req b =
      let (e, b') = entry_for is_retry g agent name req now b in
      after_synthesis (deps.synthesize (synth_request name req e)) p e b'

  -- A key that is there already answers with the grant it stands for, if that can be read.
  unfoldable pub replay :
      Bytes → Bytes → Bytes → ProfileConfig → GrantRequest → Broker → Option View × Broker
  replay g agent name p req b =
      let (reply, keys) =
        put_idempotency_key agent req.idempotency_key g now (now + idempotency_window)
          b.idempotency_keys in
      let b1 = record b { idempotency_keys = keys } in
      elim reply [
        | failed x ↦ (some (error_view g ErrorCode.internal), b1)
        | done (stored, created) ↦
            if not created && not (same stored g)
            then (let (v, b2) = get_grant deps agent stored now b1 in
                elim v [
                  | some view ↦ (some view, b2)
                  | none ↦ synthesize_for false g agent name p req b2
                ])
            else synthesize_for false g agent name p req b1
      ]

  unfoldable pub process : Bool → Bytes → Bytes → GrantRequest → Broker → Option View × Broker
  process is_retry g agent req b = elim (resolve_profile deps.config agent req.profile) [
    | Resolved.not_permitted code ↦
        let e = new_entry g agent req.profile req now in
        replied (deny_entry now code e (put_entry e b))
    | Resolved.resolved name p ↦
        if not (is_empty req.idempotency_key) && not is_retry
        then replay g agent name p req b
        else synthesize_for is_retry g agent name p req b
  ]

  abbrev pub closed_view : Bytes → View
  closed_view g = record (blank_view g Status.denied) { denial_code = clarification_exhausted }

  -- A retry: `ErrNotFound` unless the agent owns the grant, a denial unless the round is open.
  unfoldable pub retry_grant : Bytes → ℕ → Bytes → GrantRequest → Broker → Option View × Broker
  retry_grant g round agent req b = elim (retry_target g b) [
    | none ↦ (none, b)
    | some t ↦
        if same t.owner agent
        then if t.is_open && round == t.open_round
          then process true g agent req b
          else (some (closed_view g), b)
        else (none, b)
  ]

  unfoldable pub request_grant : Bytes → Bytes → GrantRequest → Broker → Option View × Broker
  request_grant fresh agent req b =
      if is_empty req.retry_token
      then process false fresh agent req b
      else elim (peek_retry_token deps.decode_token deps.parse_strict req.retry_token) [
        | none ↦ (some (error_view [] ErrorCode.invalid_argument), b)
        | some (g, round) ↦ retry_grant g round agent req b
      ]
