-- ===== src/Store/Pending/Unique.antt =====
-- Uniqueness of the grant ids in the queue.
use taskgrant.Prelude.{
  ℕ, ◌≡◌, refl, ap, true, false, inl, inr, List, [], ◌∷◌, ◌++◌, Bytes, same, same→eq, same_refl,
  keep, arith, Bool-cases,
}
use taskgrant.Store.Pending.{
  PendingApproval, Queue, is_absent, unique, get_pending_approval, is_doomed,
  create_pending_approval, or_pending, Verdict, update, decide_pending_approval, expire_loop,
  expire_pending_approvals, expiry,
}
use taskgrant.Store.Pending.Once.{QueueWrite, create, decide, expire, apply, apply_all}

update-absent :
    (h g : Bytes) (v : Verdict) (q : Queue)
    → is_absent (get_pending_approval h (update g v q)) ≡ is_absent (get_pending_approval h q)
unfolding get_pending_approval update
update-absent h g v [] = refl
update-absent h g v (x ∷ q) = ground (arith, update-absent h g v q)

update-unique :
    (g : Bytes) (v : Verdict) (q : Queue) → unique q ≡ true → unique (update g v q) ≡ true
unfolding update
update-unique g v [] u = refl
update-unique g v (x ∷ q) u = ground (arith, update-unique g v q, update-absent x.grant_id g v q)

decide-unique :
    (g : Bytes) (v : Verdict) (q : Queue)
    → unique q ≡ true
    → unique (decide_pending_approval g v q).1 ≡ true
unfolding decide_pending_approval
decide-unique g v q u = ground (arith, update-unique g v q u)

expire_loop-unique :
    (now : ℕ) (ds q : Queue) → unique q ≡ true → unique (expire_loop now ds q).1 ≡ true
unfolding expire_loop
expire_loop-unique now [] q u = u
expire_loop-unique now (d ∷ ds) q u =
    expire_loop-unique now ds (decide_pending_approval d.grant_id (expiry now) q).1
      (decide-unique d.grant_id (expiry now) q u)

append-absent :
    (h : Bytes) (x : PendingApproval) (q : Queue)
    → is_absent (get_pending_approval h q) ≡ true
    → same x.grant_id h ≡ false
    → is_absent (get_pending_approval h (q ++ x ∷ [])) ≡ true
unfolding get_pending_approval
append-absent h x [] a n = ground arith
append-absent h x (y ∷ q) a n = ground (arith, append-absent h x q)

append-unique :
    (x : PendingApproval) (q : Queue)
    → unique q ≡ true
    → is_absent (get_pending_approval x.grant_id q) ≡ true
    → unique (q ++ x ∷ []) ≡ true
unfolding get_pending_approval
append-unique x [] u a = refl
append-unique x (y ∷ q) u a = elim (Bool-cases (same x.grant_id y.grant_id)) [
  | inl e ↦
      ground
        (arith, ap (λ h. same y.grant_id h) (same→eq x.grant_id y.grant_id e), same_refl y.grant_id)
  | inr n ↦ ground (arith, append-absent y.grant_id x q, append-unique x q)
]

apply-unique : (w : QueueWrite) (q : Queue) → unique q ≡ true → unique (apply w q) ≡ true
unfolding apply create_pending_approval expire_pending_approvals
apply-unique (create p) q u =
    ground (arith, append-unique (record p { status = or_pending p.status }) q u)
apply-unique (decide g v) q u = decide-unique g v q u
apply-unique (expire ttl now) q u =
    ground (arith, expire_loop-unique now (keep (is_doomed ttl now) q) q u)

-- Creations, decisions and expiries keep the grant ids of the queue unique.
pub apply_all-unique :
    (ws : List QueueWrite) (q : Queue) → unique q ≡ true → unique (apply_all ws q) ≡ true
unfolding apply_all
apply_all-unique [] q u = u
apply_all-unique (w ∷ ws) q u = apply_all-unique ws (apply w q) (apply-unique w q u)
