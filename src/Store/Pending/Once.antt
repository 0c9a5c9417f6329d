-- ===== src/Store/Pending/Once.antt =====
-- The history of one row of the queue.
use taskgrant.Prelude.{
  ℕ, ◌≡◌, refl, sym, subst, ◌==◌, true, ◌⊎◌, inl, inr, some, List, [], ◌∷◌, ◌++◌, Bytes, same, keep,
  arith, Bool-cases,
}
use taskgrant.Store.Pending.{
  PendingApproval, Queue, is_pending, is_terminal, get_pending_approval, create_pending_approval,
  or_pending, Verdict, decided, is_doomed, is_open, update, decide_pending_approval, expire_loop,
  expire_pending_approvals, expiry,
}

-- The same request: every column but the five that a decision writes.
pub record SameRequest (p r : PendingApproval) : Type 0 where
  pub same_grant : r.grant_id ≡ p.grant_id
  pub same_agent : r.agent_id ≡ p.agent_id
  pub same_profile : r.profile ≡ p.profile
  pub same_task : r.task ≡ p.task
  pub same_reason : r.reason ≡ p.reason
  pub same_policy : r.policy_json ≡ p.policy_json
  pub same_capabilities : r.capabilities ≡ p.capabilities
  pub same_required_by : r.required_by ≡ p.required_by
  pub same_time : r.received_at ≡ p.received_at
  pub same_expiry : r.expires_at ≡ p.expires_at

-- What may become of a row: it stays as it is, or it was pending and is decided.
abbrev pub Evolves : PendingApproval → PendingApproval → Type 0
Evolves p r =
    (r ≡ p) ⊎ ((is_pending p.status ≡ true) × (is_terminal r.status ≡ true) × SameRequest p r)

-- The row of a grant in a later queue.
abbrev pub Kept : Bytes → PendingApproval → Queue → Type 0
Kept g p q = (r : PendingApproval) × (get_pending_approval g q ≡ some r) × Evolves p r

decided-SameRequest : (v : Verdict) (p : PendingApproval) → SameRequest p (decided v p)
decided-SameRequest v p = record {
  same_grant = refl;
  same_agent = refl;
  same_profile = refl;
  same_task = refl;
  same_reason = refl;
  same_policy = refl;
  same_capabilities = refl;
  same_required_by = refl;
  same_time = refl;
  same_expiry = refl;
}

update-Kept :
    (h : Bytes) (v : Verdict) (g : Bytes) (p : PendingApproval) (q : Queue)
    → is_terminal v.to ≡ true
    → get_pending_approval g q ≡ some p
    → Kept g p (update h v q)
unfolding get_pending_approval update
update-Kept h v g p [] t e = cc
update-Kept h v g p (x ∷ q) t e = elim (Bool-cases (same x.grant_id g)) [
  | inr n ↦
      let (r, f, ev) = update-Kept h v g p q t (ground arith) in
      (
        r,
        elim (Bool-cases (is_open h x)) [ inl o ↦ ground (arith, f) | inr c ↦ ground (arith, f) ],
        ev,
      )
  | inl y ↦
      let own : x ≡ p = ground arith in
      elim (Bool-cases (is_open h x)) [
        | inl o ↦ (
          decided v x,
          ground arith,
          subst (λ z. Evolves z (decided v x)) own (inr (ground arith, t, decided-SameRequest v x)),
        )
        | inr c ↦ (x, ground arith, inl own)
      ]
]

Evolves-trans : (p r s : PendingApproval) → Evolves p r → Evolves r s → Evolves p s
Evolves-trans p r s (inl e) h = rw (sym e) h
Evolves-trans p r s (inr h) (inl e) = rw e (inr h)
Evolves-trans p r s (inr (a, b, c)) (inr (d, f, i)) = ground arith

Kept-refl :
    (g : Bytes) (p : PendingApproval) (q : Queue) → get_pending_approval g q ≡ some p → Kept g p q
Kept-refl g p q e = (p, e, inl refl)

Kept-trans :
    (g : Bytes) (p : PendingApproval) (q q' : Queue)
    → Kept g p q
    → ((r : PendingApproval) → get_pending_approval g q ≡ some r → Kept g r q')
    → Kept g p q'
Kept-trans g p q q' (r, e, h) step = let (s, f, k) = step r e in (s, f, Evolves-trans p r s h k)

decide-Kept :
    (h : Bytes) (v : Verdict) (g : Bytes) (p : PendingApproval) (q : Queue)
    → get_pending_approval g q ≡ some p
    → Kept g p (decide_pending_approval h v q).1
unfolding decide_pending_approval
decide-Kept h v g p q e = elim (Bool-cases (is_terminal v.to)) [
  | inl t ↦ rw t (update-Kept h v g p q t e)
  | inr n ↦ rw n (Kept-refl g p q e)
]

expire_loop-Kept :
    (now : ℕ) (ds : List PendingApproval) (g : Bytes) (p : PendingApproval) (q : Queue)
    → get_pending_approval g q ≡ some p
    → Kept g p (expire_loop now ds q).1
unfolding expire_loop
expire_loop-Kept now [] g p q e = Kept-refl g p q e
expire_loop-Kept now (d ∷ ds) g p q e =
    let q' = (decide_pending_approval d.grant_id (expiry now) q).1 in
    Kept-trans g p q' (expire_loop now ds q').1 (decide-Kept d.grant_id (expiry now) g p q e)
      (λ r f. expire_loop-Kept now ds g r q' f)

append-get :
    (g : Bytes) (p x : PendingApproval) (q : Queue)
    → get_pending_approval g q ≡ some p
    → get_pending_approval g (q ++ x ∷ []) ≡ some p
unfolding get_pending_approval
append-get g p x [] e = cc
append-get g p x (y ∷ q) e = elim (Bool-cases (same y.grant_id g)) [
  | inl t ↦ ground arith
  | inr n ↦ ground (arith, append-get g p x q)
]

create-Kept :
    (x : PendingApproval) (g : Bytes) (p : PendingApproval) (q : Queue)
    → get_pending_approval g q ≡ some p
    → Kept g p (create_pending_approval x q).1
unfolding create_pending_approval
create-Kept x g p q e =
    (p, ground (arith, append-get g p (record x { status = or_pending x.status }) q), inl refl)

-- The calls that write to the queue.
pub data QueueWrite : Type 0 where
  create : PendingApproval → QueueWrite
  decide : Bytes → Verdict → QueueWrite
  expire : ℕ → ℕ → QueueWrite

unfoldable pub apply : QueueWrite → Queue → Queue
apply (create p) q = (create_pending_approval p q).1
apply (decide g v) q = (decide_pending_approval g v q).1
apply (expire ttl now) q = (expire_pending_approvals ttl now q).1

unfoldable pub apply_all : List QueueWrite → Queue → Queue
apply_all [] q = q
apply_all (w ∷ ws) q = apply_all ws (apply w q)

expire-Kept :
    (ttl now : ℕ) (g : Bytes) (p : PendingApproval) (q : Queue)
    → get_pending_approval g q ≡ some p
    → Kept g p (expire_pending_approvals ttl now q).1
unfolding expire_pending_approvals
expire-Kept ttl now g p q e = elim (Bool-cases (ttl == 0)) [
  | inl z ↦ rw z (Kept-refl g p q e)
  | inr n ↦ rw n (expire_loop-Kept now (keep (is_doomed ttl now) q) g p q e)
]

apply-Kept :
    (w : QueueWrite) (g : Bytes) (p : PendingApproval) (q : Queue)
    → get_pending_approval g q ≡ some p
    → Kept g p (apply w q)
unfolding apply
apply-Kept (create x) g p q e = create-Kept x g p q e
apply-Kept (decide h v) g p q e = decide-Kept h v g p q e
apply-Kept (expire ttl now) g p q e = expire-Kept ttl now g p q e

-- Through any sequence of creations, decisions and expiries a row of the queue stays there. Either
-- it is unchanged, or it was pending, it has a terminal status now, and its grant, agent, profile,
-- task, reason, policy, capabilities, required_by, time received and expiry are those it had; so a
-- decided row never changes again.
pub apply_all-Evolves :
    (ws : List QueueWrite) (g : Bytes) (p : PendingApproval) (q : Queue)
    → get_pending_approval g q ≡ some p
    → (r : PendingApproval) × (get_pending_approval g (apply_all ws q) ≡ some r)
      × ((r ≡ p) ⊎ ((is_pending p.status ≡ true) × (is_terminal r.status ≡ true) × SameRequest p r))
unfolding apply_all
apply_all-Evolves [] g p q e = Kept-refl g p q e
apply_all-Evolves (w ∷ ws) g p q e =
    Kept-trans g p (apply w q) (apply_all ws (apply w q)) (apply-Kept w g p q e)
      (λ r f. apply_all-Evolves ws g r (apply w q) f)
