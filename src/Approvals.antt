-- ===== src/Approvals.antt =====
-- The manager of internal/approvals/approvals.go. The backend is the queue and the first-use table
-- of the store. A waiter's channel is a number, `inbox` what its buffer of one holds, and the clock
-- an argument.
pub mod Approve
use taskgrant.Prelude.{
  ℕ, ◌+◌, ◌≡◌, refl, Bool, true, false, ◌&&◌, ◌||◌, Option, none, some, List, [], ◌∷◌, ◌++◌, ◌==◌,
  Bytes, codes, same, is_empty, length, if◌then◌else◌,
}
use taskgrant.Prelude.Maps.{get, put}
use taskgrant.Store.{Reply, done, failed, StoreError, missing_argument, not_found}
use taskgrant.Store.FirstUse.{FirstUses, mark_first_use}
use taskgrant.Store.Pending.{
  PendingStatus, pending, approved, denied, expired_pending, PendingApproval, Queue, is_pending,
  get_pending_approval, create_pending_approval, Verdict, Decided, moved, already, refused,
  decide_pending_approval, expiry, expire_pending_approvals,
}

pub record Decision : Type 0 where
  pub grant_id : Bytes
  pub status : PendingStatus
  pub approver : Bytes
  pub method : Bytes
  pub note : Bytes
  pub decided_at : ℕ

abbrev pub decision_from : PendingApproval → Decision
decision_from p = record {
  grant_id = p.grant_id;
  status = p.status;
  approver = p.approver;
  method = p.method;
  note = p.note;
  decided_at = p.decided_at;
}

pub record Manager : Type 0 where
  pub ttl : ℕ
  pub queue : Queue
  pub first_uses : FirstUses
  pub waiters : List (Bytes × List ℕ)
  pub inbox : List (ℕ × Decision)

-- A zero `ReceivedAt` is 0.
abbrev pub stamped : ℕ → ℕ → PendingApproval → PendingApproval
stamped ttl now p =
    let received = if p.received_at == 0 then now else p.received_at in
    record p {
      received_at = received;
      status = pending;
      expires_at = received + ttl;
      decided_at = 0;
      approver = [];
      method = [];
      note = [];
    }

unfoldable pub submit : ℕ → PendingApproval → Manager → Reply PendingApproval × Manager
submit now p m =
    if is_empty p.grant_id || is_empty p.agent_id
    then (failed missing_argument, m)
    else let row = stamped m.ttl now p in
      let (reply, q) = create_pending_approval row m.queue in
      elim reply [ failed e ↦ (failed e, m) | done u ↦ (done row, record m { queue = q }) ]

-- `select { case ch <- d: default: }` for each channel.
unfoldable pub deliver : Decision → List ℕ → List (ℕ × Decision) → List (ℕ × Decision)
deliver d [] inbox = inbox
deliver d (ch ∷ chans) inbox = elim (get (◌==◌) ch inbox) [
  | none ↦ deliver d chans (put (◌==◌) ch d inbox)
  | some old ↦ deliver d chans inbox
]

abbrev pub channels : Option (List ℕ) → List ℕ
channels none = []
channels (some chans) = chans

-- `delete(m.waiters, grantID)`.
unfoldable pub drop_waiters : Bytes → List (Bytes × List ℕ) → List (Bytes × List ℕ)
drop_waiters g [] = []
drop_waiters g ((h, chans) ∷ ws) =
    let rest = drop_waiters g ws in if same h g then rest else (h, chans) ∷ rest

unfoldable pub notify : Bytes → Decision → Manager → Manager
notify g d m = record m {
  waiters = drop_waiters g m.waiters;
  inbox = deliver d (channels (get same g m.waiters)) m.inbox;
}

-- The loop over the capabilities; its errors are only logged.
unfoldable pub mark_capabilities : Bytes → List Bytes → ℕ → Bool → FirstUses → FirstUses
mark_capabilities agent [] now flag t = t
mark_capabilities agent (c ∷ cs) now flag t =
    mark_capabilities agent cs now flag (mark_first_use agent c now flag t).1

abbrev pub method_cli : Bytes
method_cli = codes "cli"

abbrev pub method_api : Bytes
method_api = codes "api"

-- The answer of `decide`: the decision, the earlier one with `ErrNotPending`, or another error.
pub data Answer : Type 0 where
  decision not_pending : Decision → Answer
  approver_required bad_method : Answer
  store_error : StoreError → Answer

abbrev pub is_approved : PendingStatus → Bool
is_approved approved = true
is_approved _ = false

-- From the reply of the store on.
unfoldable pub settle : Bytes → PendingStatus → ℕ → Decided → Manager → Answer × Manager
settle g status now (moved p) m = (
  decision (decision_from p),
  notify g (decision_from p) (record m {
    first_uses = mark_capabilities p.agent_id p.capabilities now (is_approved status) m.first_uses;
  }),
)
settle g status now (already p) m = (not_pending (decision_from p), m)
settle g status now (refused e) m = (store_error e, m)

unfoldable pub decide_as :
    ℕ → Bytes → PendingStatus → Bytes → Bytes → Bytes → Manager → Answer × Manager
decide_as now g status approver method note m =
    if is_empty approver
    then (approver_required, m)
    else if same method method_cli || same method method_api
    then (let verdict : Verdict = record {
      to = status;
      approver = approver;
      method = method;
      note = note;
      at = now;
    } in
        let (reply, q) = decide_pending_approval g verdict m.queue in
        settle g status now reply (record m { queue = q }))
    else (bad_method, m)

unfoldable pub approve : ℕ → Bytes → Bytes → Bytes → Bytes → Manager → Answer × Manager
approve now g approver method note m = decide_as now g approved approver method note m

unfoldable pub deny : ℕ → Bytes → Bytes → Bytes → Bytes → Manager → Answer × Manager
deny now g approver method note m = decide_as now g denied approver method note m

abbrev pub expired_answer : Bytes → Decided → Manager → Reply Decision × Manager
expired_answer g (moved p) m = (done (decision_from p), notify g (decision_from p) m)
expired_answer g (already p) m = (done (decision_from p), m)
expired_answer g (refused e) m = (failed e, m)

unfoldable pub expire_one : ℕ → Bytes → Manager → Reply Decision × Manager
expire_one now g m =
    let (reply, q) = decide_pending_approval g (expiry now) m.queue in
    expired_answer g reply (record m { queue = q })

abbrev pub notify_all : List PendingApproval → Manager → Manager
notify_all [] m = m
notify_all (p ∷ ps) m = notify_all ps (notify p.grant_id (decision_from p) m)

unfoldable pub sweep_once : ℕ → Manager → Reply ℕ × Manager
sweep_once now m =
    let (reply, q) = expire_pending_approvals m.ttl now m.queue in
    elim reply [
      | failed e ↦ (failed e, m)
      | done expired ↦ (done (length expired), notify_all expired (record m { queue = q }))
    ]
