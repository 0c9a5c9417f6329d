-- ===== src/Store/Pending.antt =====
-- The pending-approval queue of internal/store/security.go.
pub mod Once
pub mod Sweep
pub mod Unique
use taskgrant.Prelude.{
  ℕ, ◌+◌, ◌≡◌, refl, Bool, true, false, ◌&&◌, ◌||◌, Option, none, some, List, [], ◌∷◌, ◌++◌, leb,
  Bytes, same, is_empty, keep, length, ◌==◌, if◌then◌else◌,
}
use taskgrant.Store.{
  Reply, done, failed, StoreError, missing_argument, invalid_status, not_terminal, bad_ttl,
  not_found, duplicate_grant,
}

-- A status is a string; `other` is any that is not known, the empty one included.
pub data PendingStatus : Type 0 where
  pending approved denied expired_pending : PendingStatus
  other : Bytes → PendingStatus

unfoldable pub status_valid : PendingStatus → Bool
status_valid (other s) = false
status_valid _ = true

abbrev pub is_pending : PendingStatus → Bool
is_pending pending = true
is_pending _ = false

pub record PendingApproval : Type 0 where
  pub grant_id : Bytes
  pub agent_id : Bytes
  pub profile : Bytes
  pub task : Bytes
  pub reason : Bytes
  pub policy_json : Bytes
  pub capabilities : List Bytes
  pub required_by : Bytes
  pub status : PendingStatus
  pub received_at : ℕ
  pub expires_at : ℕ
  pub decided_at : ℕ
  pub approver : Bytes
  pub method : Bytes
  pub note : Bytes

abbrev pub Queue : Type 0
Queue = List PendingApproval

-- `WHERE grant_id = ?` on a table whose grant ids are unique.
unfoldable pub get_pending_approval : Bytes → Queue → Option PendingApproval
get_pending_approval g [] = none
get_pending_approval g (p ∷ q) =
    let rest = get_pending_approval g q in if same p.grant_id g then some p else rest

abbrev pub is_absent : Option PendingApproval → Bool
is_absent none = true
is_absent (some p) = false

-- The primary key: no grant id stands twice in the queue.
abbrev pub unique : Queue → Bool
unique [] = true
unique (p ∷ q) = is_absent (get_pending_approval p.grant_id q) && unique q

abbrev is_some : Option PendingApproval → Bool
is_some none = false
is_some (some p) = true

-- `if p.Status == "" { p.Status = StatusPending }`.
abbrev pub or_pending : PendingStatus → PendingStatus
or_pending (other []) = pending
or_pending s = s

unfoldable pub create_pending_approval : PendingApproval → Queue → Reply (Unit {0}) × Queue
create_pending_approval p q =
    if is_empty p.grant_id || is_empty p.agent_id
    then (failed missing_argument, q)
    else if status_valid (or_pending p.status)
    then (if is_some (get_pending_approval p.grant_id q)
        then (failed duplicate_grant, q)
        else (done tt, q ++ record p { status = or_pending p.status } ∷ []))
    else (failed invalid_status, q)

-- Who decides, how, and with which note.
pub record Verdict : Type 0 where
  pub to : PendingStatus
  pub approver : Bytes
  pub method : Bytes
  pub note : Bytes
  pub at : ℕ

-- `SET` of the `UPDATE`.
abbrev pub decided : Verdict → PendingApproval → PendingApproval
decided v p = record p {
  status = v.to;
  approver = v.approver;
  method = v.method;
  note = v.note;
  decided_at = v.at;
}

abbrev pub is_open : Bytes → PendingApproval → Bool
is_open g p = same p.grant_id g && is_pending p.status

-- The `UPDATE`: the rows after it.
unfoldable pub update : Bytes → Verdict → Queue → Queue
update g v [] = []
update g v (p ∷ q) = let rest = update g v q in if is_open g p then decided v p ∷ rest else p ∷ rest

-- `RowsAffected`.
unfoldable pub affected : Bytes → Queue → ℕ
affected g q = length (keep (is_open g) q)

-- What comes back: the row moved, the row with `ErrAlreadyDecided`, or another error.
pub data Decided : Type 0 where
  moved already : PendingApproval → Decided
  refused : StoreError → Decided

abbrev pub is_terminal : PendingStatus → Bool
is_terminal approved = true
is_terminal denied = true
is_terminal expired_pending = true
is_terminal _ = false

abbrev pub outcome : ℕ → Option PendingApproval → Decided
outcome n none = refused not_found
outcome n (some p) = if n == 0 then already p else moved p

unfoldable pub decide_pending_approval : Bytes → Verdict → Queue → Decided × Queue
decide_pending_approval g v q =
    if is_terminal v.to
    then (outcome (affected g q) (get_pending_approval g (update g v q)), update g v q)
    else (refused not_terminal, q)

abbrev pub expiry : ℕ → Verdict
expiry now = record { to = expired_pending; approver = []; method = []; note = []; at = now }

-- `received_at <= now - ttl`.
abbrev pub is_doomed : ℕ → ℕ → PendingApproval → Bool
is_doomed ttl now p = is_pending p.status && leb (p.received_at + ttl) now

abbrev pub add_moved : Decided → List PendingApproval → List PendingApproval
add_moved (moved p) expired = p ∷ expired
add_moved _ expired = expired

-- The loop over the doomed rows. No error but `ErrAlreadyDecided` comes up: the rows are there and
-- the status is terminal.
unfoldable pub expire_loop : ℕ → List PendingApproval → Queue → List PendingApproval × Queue
expire_loop now [] q = ([], q)
expire_loop now (p ∷ doomed) q =
    let (reply, q') = decide_pending_approval p.grant_id (expiry now) q in
    let (expired, q'') = expire_loop now doomed q' in (add_moved reply expired, q'')

unfoldable pub expire_pending_approvals : ℕ → ℕ → Queue → Reply (List PendingApproval) × Queue
expire_pending_approvals ttl now q =
    if ttl == 0
    then (failed bad_ttl, q)
    else let (expired, q') = expire_loop now (keep (is_doomed ttl now) q) q in (done expired, q')
