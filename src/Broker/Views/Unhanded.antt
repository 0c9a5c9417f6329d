-- ===== src/Broker/Views/Unhanded.antt =====
-- A view that is rebuilt from the log never holds credentials.
use taskgrant.Prelude.{
  ℕ, ◌≡◌, refl, inl, inr, Option, none, some, List, [], ◌∷◌, Bytes, same, arith, Bool-cases,
  Option-cases,
}
use taskgrant.Store.Pending.{PendingApproval, get_pending_approval}
use taskgrant.Broker.{Broker, View, LogRecord, Body, Status}
use taskgrant.Broker.Views.{blank_view}
use taskgrant.Broker.Views.Logged.{
  read_chain, read_records, read_record, read_approval, read_decision, active_or_expired,
  follow_queue, is_pending_status,
}

abbrev IsBare : Option Status × View → Type 0
IsBare (s, v) = v.credentials ≡ none

active_or_expired-IsBare :
    (body : Body) (now : ℕ) (v : View)
    → v.credentials ≡ none
    → IsBare (active_or_expired body now v)
unfolding active_or_expired
active_or_expired-IsBare body now v h = ground arith

read_approval-IsBare :
    (body : Body) (now : ℕ) (s : Option Status) (v : View)
    → v.credentials ≡ none
    → IsBare (read_approval body now (s, v))
unfolding read_approval
read_approval-IsBare body now s v h = ground (arith, active_or_expired-IsBare body now v h)

read_decision-IsBare :
    (body : Body) (now : ℕ) (s : Option Status) (v : View)
    → v.credentials ≡ none
    → IsBare (read_decision body now (s, v))
unfolding read_decision
read_decision-IsBare body now s v h = ground (arith, active_or_expired-IsBare body now v h)

read_record-IsBare :
    (r : LogRecord) (now : ℕ) (s : Option Status) (v : View)
    → v.credentials ≡ none
    → IsBare (read_record r now (s, v))
unfolding read_record
read_record-IsBare r now s v h = elim (Option-cases r.body) [
  | inl q ↦ rw (q, read_record) h
  | inr (body, q) ↦
      ground (arith, q, read_approval-IsBare body now s v h, read_decision-IsBare body now s v h)
]

read_records-IsBare :
    (rs : List LogRecord) (now : ℕ) (s : Option Status) (v : View)
    → v.credentials ≡ none
    → IsBare (read_records rs now (s, v))
unfolding read_records
read_records-IsBare [] now s v h = h
read_records-IsBare (r ∷ rs) now s v h =
    let (s', v') = read_record r now (s, v) in
    read_records-IsBare rs now s' v' (read_record-IsBare r now s v h)

follow_queue-bare :
    (row : Option PendingApproval) (s : Status) (v : View)
    → v.credentials ≡ none
    → (follow_queue row s v).credentials ≡ none
unfolding follow_queue
follow_queue-bare none s v h = h
follow_queue-bare (some row) s v h = ground arith

abbrev pub is_handed : Option View → ℕ
is_handed none = 0
is_handed (some v) = elim v.credentials [ none ↦ 0 | some c ↦ 1 ]

pub is_handed-bare : (v : View) → v.credentials ≡ none → is_handed (some v) ≡ 0
is_handed-bare v h = rw h refl

pub read_chain-unhanded :
    (agent g : Bytes) (now : ℕ) (b : Broker) (rs : List LogRecord)
    → is_handed (read_chain agent g now b rs) ≡ 0
unfolding read_chain
read_chain-unhanded agent g now b [] = refl
read_chain-unhanded agent g now b (r ∷ rs) =
    let (st, v) = read_records (r ∷ rs) now (none, blank_view g Status.error) in
    let bare = read_records-IsBare (r ∷ rs) now none (blank_view g Status.error) refl in
    elim (Bool-cases (same r.agent_id agent)) [
      | inr n ↦ rw (n, read_chain) refl
      | inl y ↦ elim (Option-cases st) [
        | inl q ↦ rw (y, q, read_chain) refl
        | inr (status, q) ↦ elim (Bool-cases (is_pending_status status)) [
          | inl p ↦
              let row = get_pending_approval g b.approvals.queue in
              rw (y, q, p, read_chain)
                (is_handed-bare (follow_queue row status v) (follow_queue-bare row status v bare))
          | inr p ↦ rw (y, q, p, read_chain) (is_handed-bare (record v { status = status }) bare)
        ]
      ]
    ]
