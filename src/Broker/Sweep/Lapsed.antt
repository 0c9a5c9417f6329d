-- ===== src/Broker/Sweep/Lapsed.antt =====
-- What a sweep leaves in the registry.
use taskgrant.Prelude.{
  ℕ, ◌+◌, ◌<◌, ◌≤◌, ◌≡◌, refl, ◌⊎◌, inl, inr, true, false, ◌||◌, ap, none, List, [], ◌∷◌, Bytes, In,
  arith, Bool-cases,
}
use taskgrant.Domain.State.{State, set_state, validate_transition, is_state}
use taskgrant.Approvals.{sweep_once}
use taskgrant.Broker.{Entry, Broker}
use taskgrant.Broker.Entries.{set_state_locked, mark_terminal}
use taskgrant.Broker.Views.{is_lapsed, expire_lapsed}
use taskgrant.Broker.Sweep.{is_stale, sweep_grants, sweep_rows, sweep}

abbrev pub IsLive : Entry → Type 0
IsLive e = (e.state ≡ State.active) ⊎ (e.state ≡ State.minted)

-- Its credentials have not run out, so far as it has any.
abbrev pub IsUnexpired : ℕ → Entry → Type 0
IsUnexpired now e = ¬ IsLive e ⊎ (e.expires_at ≡ 0) ⊎ (now ≤ e.expires_at)

-- It is not terminal, or has been for an hour at most.
abbrev pub IsRetained : ℕ → Entry → Type 0
IsRetained now e = (e.terminal_at ≡ 0) ⊎ (now ≤ e.terminal_at + 3600000000000)

-- The entry once its credentials have run out.
abbrev pub expired_at : ℕ → Entry → Entry
expired_at now e = record e { state = State.expired; delivery = none; terminal_at = now }

-- The registry after the rows of the queue, before the pass over the grants.
abbrev pub rows_swept : ℕ → Broker → List (Bytes × Entry)
rows_swept now b =
    let m = (sweep_once now b.approvals).1 in
    (sweep_rows now m.queue (record b { approvals = m })).grants

expire-live :
    (s : State)
    → (is_state State.active s || is_state State.minted s) ≡ true
    → (set_state s State.expired).0 ≡ State.expired
unfolding set_state validate_transition
expire-live State.active h = refl
expire-live State.minted h = refl
expire-live _ h = ground arith

is_state-live :
    (s : State)
    → (is_state State.active s || is_state State.minted s) ≡ true
    → (s ≡ State.active) ⊎ (s ≡ State.minted)
is_state-live State.active h = inl refl
is_state-live State.minted h = inr refl
is_state-live _ h = ground arith

is_lapsed-IsLive : (now : ℕ) (e : Entry) → is_lapsed now e ≡ true → IsLive e
is_lapsed-IsLive now e h = is_state-live e.state (ground (arith, h))

is_lapsed-IsUnexpired : (now : ℕ) (e : Entry) → is_lapsed now e ≡ false → IsUnexpired now e
is_lapsed-IsUnexpired now e h =
    elim (Bool-cases (is_state State.active e.state || is_state State.minted e.state)) [
      | inl l ↦ inr (ground (arith, h, l))
      | inr n ↦
          inl (λ live. elim live [ inl q ↦ ground (arith, q, n) | inr q ↦ ground (arith, q, n) ])
    ]

IsUnexpired-is_lapsed : (now : ℕ) (e : Entry) → IsUnexpired now e → is_lapsed now e ≡ false
IsUnexpired-is_lapsed now e h = elim (Bool-cases (is_lapsed now e)) [
  | inr f ↦ f
  | inl t ↦ elim h [
    | inl n ↦ absurd (n (is_lapsed-IsLive now e t))
    | inr (inl z) ↦ ground (arith, z, t)
    | inr (inr le) ↦ ground (arith, le, t)
  ]
]

IsLive-is_lapsed :
    (now : ℕ) (e : Entry)
    → IsLive e
    → 0 < e.expires_at
    → e.expires_at < now
    → is_lapsed now e ≡ true
IsLive-is_lapsed now e (inl q) p r = ground (arith, q, p, r)
IsLive-is_lapsed now e (inr q) p r = ground (arith, q, p, r)

expire_lapsed-expired_at :
    (now : ℕ) (e : Entry)
    → is_lapsed now e ≡ true
    → e.terminal_at ≡ 0
    → expire_lapsed now e ≡ expired_at now e
unfolding expire_lapsed set_state_locked mark_terminal
expire_lapsed-expired_at now e t z =
    let q = expire-live e.state (ground (arith, t)) in rw (t, expire_lapsed, q, z) refl

expire_lapsed-fresh : (now : ℕ) (e : Entry) → is_lapsed now (expire_lapsed now e) ≡ false
unfolding expire_lapsed set_state_locked mark_terminal
expire_lapsed-fresh now e = elim (Bool-cases (is_lapsed now e)) [
  | inr f ↦ rw (f, expire_lapsed) f
  | inl t ↦ let q = expire-live e.state (ground (arith, t)) in rw (t, expire_lapsed, q) refl
]

sweep_grants-kept :
    (now : ℕ) (m : List (Bytes × Entry)) (g : Bytes) (e : Entry)
    → In (g, e) m
    → is_stale now (expire_lapsed now e) ≡ false
    → In (g, expire_lapsed now e) (sweep_grants now m)
unfolding sweep_grants
sweep_grants-kept now [] g e i s = absurd i
sweep_grants-kept now ((h, x) ∷ m) g e (inl own) s =
    let id : g ≡ h = ap (λ (p : Bytes × Entry). p.0) own in
    let it : e ≡ x = ap (λ (p : Bytes × Entry). p.1) own in
    rw (rw it at s, sweep_grants) (inl (rw (id, it) refl))
sweep_grants-kept now ((h, x) ∷ m) g e (inr j) s =
    elim (Bool-cases (is_stale now (expire_lapsed now x))) [
      | inl t ↦ rw (t, sweep_grants) (sweep_grants-kept now m g e j s)
      | inr f ↦ rw (f, sweep_grants) (inr (sweep_grants-kept now m g e j s))
    ]

sweep_grants-fresh :
    (now : ℕ) (m : List (Bytes × Entry)) (g : Bytes) (e : Entry)
    → In (g, e) (sweep_grants now m)
    → IsUnexpired now e × IsRetained now e
unfolding sweep_grants
sweep_grants-fresh now [] g e i = absurd i
sweep_grants-fresh now ((h, x) ∷ m) g e i = elim (Bool-cases (is_stale now (expire_lapsed now x))) [
  | inl t ↦ sweep_grants-fresh now m g e (rw (t, sweep_grants) at i)
  | inr f ↦ elim (rw (f, sweep_grants) at i) [
    | inr j ↦ sweep_grants-fresh now m g e j
    | inl own ↦
        let it : e ≡ expire_lapsed now x = ap (λ (p : Bytes × Entry). p.1) own in
        rw it (
          is_lapsed-IsUnexpired now (expire_lapsed now x) (expire_lapsed-fresh now x),
          ground (arith, f),
        )
  ]
]

-- After a sweep, no grant in memory is active or minted past its expiry, and none has been terminal
-- for more than an hour. Of the grants in memory once the rows of the queue are swept, an active or
-- minted one past its expiry, not terminal yet, is there as expired, terminal from now on and without
-- credentials; one that has not run out and has not been terminal for more than an hour is there
-- unchanged.
pub sweep-fresh :
    (now : ℕ) (b : Broker) (g : Bytes) (e : Entry)
    → (In (g, e) (sweep now b).grants → IsUnexpired now e × IsRetained now e)
      × (In (g, e) (rows_swept now b)
          → IsLive e
          → 0 < e.expires_at
          → e.expires_at < now
          → e.terminal_at ≡ 0
          → In (g, expired_at now e) (sweep now b).grants)
      × (In (g, e) (rows_swept now b)
          → IsUnexpired now e
          → IsRetained now e
          → In (g, e) (sweep now b).grants)
unfolding sweep expire_lapsed
sweep-fresh now b g e = (
  sweep_grants-fresh now (rows_swept now b) g e,
  λ i live p q z.
      let t = IsLive-is_lapsed now e live p q in
      let own = expire_lapsed-expired_at now e t z in
      rw own at (sweep_grants-kept now (rows_swept now b) g e i (rw own (ground arith))),
  λ i u r.
      let own : expire_lapsed now e ≡ e = ground (arith, IsUnexpired-is_lapsed now e u) in
      rw own at (sweep_grants-kept now (rows_swept now b) g e i (rw own (ground (arith, r)))),
)
