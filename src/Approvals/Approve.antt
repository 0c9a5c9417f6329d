-- ===== src/Approvals/Approve.antt =====
-- What a recorded decision of a human means.
use taskgrant.Prelude.{
  ℕ, ◌≡◌, refl, ap, ◌∙◌, true, false, ◌||◌, ◌⊎◌, inl, inr, some, List, [], ◌∷◌, ◌==◌, Bytes, same,
  same→eq, same_refl, is_empty, In, arith, Bool-cases, Option-cases,
}
use taskgrant.Store.{StoreError}
use taskgrant.Store.FirstUse.{FirstUses, first_use_seen, mark_first_use, Mark, mark_first_use-seen}
use taskgrant.Store.Pending.{
  approved, PendingApproval, Queue, is_pending, get_pending_approval, Verdict, decided, is_open,
  update, affected, Decided, moved, already, refused, is_terminal, decide_pending_approval,
  is_absent, unique,
}
use taskgrant.Approvals.{
  Decision, decision_from, Manager, decision, mark_capabilities, settle, decide_as, approve,
  method_cli, method_api, notify,
}

absent-affected :
    (g : Bytes) (q : Queue) → is_absent (get_pending_approval g q) ≡ true → affected g q ≡ 0
unfolding get_pending_approval affected
absent-affected g [] h = refl
absent-affected g (x ∷ q) h = ground (arith, absent-affected g q)

-- The row that an `UPDATE` finds open, before and after it.
abbrev Moved : Bytes → Verdict → Queue → Type 0
Moved g v q =
    (p : PendingApproval) × (get_pending_approval g q ≡ some p)
    × (is_pending p.status ≡ true)
    × (get_pending_approval g (update g v q) ≡ some (decided v p))

affected-Moved :
    (g : Bytes) (v : Verdict) (q : Queue)
    → unique q ≡ true
    → (affected g q == 0) ≡ false
    → Moved g v q
unfolding get_pending_approval affected update
affected-Moved g v [] u h = ground arith
affected-Moved g v (x ∷ q) u h = elim (Bool-cases (same x.grant_id g)) [
  | inl y ↦
      let own = same→eq x.grant_id g y in
      let alone : is_absent (get_pending_approval x.grant_id q) ≡ true = ground arith in
      let rest : affected g q ≡ 0 = absent-affected g q (rw own at alone) in
      elim (Bool-cases (is_open g x)) [
        | inl o ↦ (x, ground arith, ground arith, ground arith)
        | inr c ↦ ground arith
      ]
  | inr n ↦
      let (p, e, o, f) = affected-Moved g v q (ground arith) (ground arith) in
      (p, ground (arith, e), o, ground (arith, f))
]

decide-Moved :
    (g : Bytes) (v : Verdict) (q : Queue) {r : PendingApproval}
    → unique q ≡ true
    → (decide_pending_approval g v q).0 ≡ moved r
    → (p : PendingApproval) × (get_pending_approval g q ≡ some p)
      × (is_pending p.status ≡ true)
      × (r ≡ decided v p)
      × (get_pending_approval g (decide_pending_approval g v q).1 ≡ some r)
unfolding decide_pending_approval
decide-Moved g v q {r} u h = elim (Bool-cases (is_terminal v.to)) [
  | inr n ↦ ground arith
  | inl t ↦ elim (Bool-cases (affected g q == 0)) [
    | inl z ↦ elim (Option-cases (get_pending_approval g (update g v q))) [
      | inl e ↦ ground arith
      | inr (x, e) ↦ ground arith
    ]
    | inr z ↦
        let (p, e, o, f) = affected-Moved g v q u z in
        (p, e, o, ground (arith, f), ground (arith, f))
  ]
]

module _ (agent capability : Bytes) (now : ℕ)
    (named : (is_empty agent || is_empty capability) ≡ false) where
  abbrev mark_of : Bytes → Mark
  mark_of c = record { agent = agent; capability = c; at = now; approved = true }

  mark_capabilities-keeps :
      (cs : List Bytes) (t : FirstUses)
      → first_use_seen agent capability t ≡ (true, true)
      → first_use_seen agent capability (mark_capabilities agent cs now true t) ≡ (true, true)
  unfolding mark_capabilities
  mark_capabilities-keeps [] t h = h
  mark_capabilities-keeps (c ∷ cs) t h =
      mark_capabilities-keeps cs (mark_first_use agent c now true t).1
        (ground (arith, mark_first_use-seen agent capability named (mark_of c) t))

  mark_capabilities-seen :
      (cs : List Bytes) (t : FirstUses)
      → In capability cs
      → first_use_seen agent capability (mark_capabilities agent cs now true t) ≡ (true, true)
  unfolding mark_capabilities
  mark_capabilities-seen [] t i = absurd i
  mark_capabilities-seen (c ∷ cs) t (inl e) =
      mark_capabilities-keeps cs (mark_first_use agent c now true t).1 (
        ground (
          arith,
          e,
          mark_first_use-seen agent capability named (mark_of c) t,
          same_refl agent,
          same_refl capability,
        ))
  mark_capabilities-seen (c ∷ cs) t (inr i) =
      mark_capabilities-seen cs (mark_first_use agent c now true t).1 i

abbrev pub verdict_of : ℕ → Bytes → Bytes → Bytes → Verdict
verdict_of now approver method note = record {
  to = approved;
  approver = approver;
  method = method;
  note = note;
  at = now;
}

Decided-cases :
    (r : Decided)
    → ((p : PendingApproval) × (r ≡ moved p))
      ⊎ (((p : PendingApproval) × (r ≡ already p)) ⊎ ((e : StoreError) × (r ≡ refused e)))
Decided-cases (moved p) = inl (p, refl)
Decided-cases (already p) = inr (inl (p, refl))
Decided-cases (refused e) = inr (inr (e, refl))

module _ (now : ℕ) (g approver method note : Bytes) (m : Manager) where
  abbrev verdict : Verdict
  verdict = verdict_of now approver method note

  abbrev after : Manager
  after = record m { queue = (decide_pending_approval g verdict m.queue).1 }

  -- A decision comes of a row that the store moved.
  approve-settle :
      {d : Decision}
      → (approve now g approver method note m).0 ≡ decision d
      → (r : PendingApproval) × ((decide_pending_approval g verdict m.queue).0 ≡ moved r)
        × (approve now g approver method note m ≡ settle g approved now (moved r) after)
  unfolding approve decide_as settle
  approve-settle {d} h = elim (Bool-cases (is_empty approver)) [
    | inl e ↦ ground arith
    | inr e ↦ elim (Bool-cases (same method method_cli || same method method_api)) [
      | inr n ↦ ground arith
      | inl y ↦ elim (Decided-cases (decide_pending_approval g verdict m.queue).0) [
        | inl (r, q) ↦ (r, q, rw (e, y, q) refl)
        | inr (inl (r, q)) ↦ ground arith
        | inr (inr (x, q)) ↦ ground arith
      ]
    ]
  ]

-- Where the grant ids of the queue are unique and an approval gives a decision, the grant was
-- pending, its row is now the approved one, the decision is read off that row, and each of its
-- capabilities with a name counts as an approved first use of its agent.
pub approve_decides :
    (now : ℕ) (g approver method note : Bytes) (m : Manager) (d : Decision)
    → unique m.queue ≡ true
    → (approve now g approver method note m).0 ≡ decision d
    → (p : PendingApproval) × (get_pending_approval g m.queue ≡ some p)
      × (is_pending p.status ≡ true)
      × (d ≡ decision_from (decided (verdict_of now approver method note) p))
      × (get_pending_approval g (approve now g approver method note m).1.queue
          ≡ some (decided (verdict_of now approver method note) p))
      × ((c : Bytes)
          → In c p.capabilities
          → (is_empty p.agent_id || is_empty c) ≡ false
          → first_use_seen p.agent_id c (approve now g approver method note m).1.first_uses
            ≡ (true, true))
unfolding settle notify
approve_decides now g approver method note m d u h =
    let (r, q, s) = approve-settle now g approver method note m h in
    let (p, e, o, own, f) = decide-Moved g (verdict_of now approver method note) m.queue u q in
    let hd : decision (decision_from r) ≡ decision d = rw s at h in
    (
      p,
      e,
      o,
      ground (arith, hd, ap decision_from own),
      rw s (f ∙ ap some own),
      λ c i named.
          rw (s, own) (mark_capabilities-seen p.agent_id c now named p.capabilities m.first_uses i),
    )
