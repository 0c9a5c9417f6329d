-- ===== src/Store/Ledger/Creep.antt =====
-- G8's creep check on the durable ledger.
use taskgrant.Prelude.{
  ℕ, ◌<◌, ◌≡◌, refl, ap, sym, subst, Bool, true, ◌||◌, ◌⊎◌, inl, inr, some, List, [], ◌∷◌, ◌++◌,
  map, Bytes, same_refl, is_empty, keep, length, In, In-append_left, In-append_right, add_all-In,
  arith, Bool-cases,
}
use taskgrant.Store.{Reply, done, failed, StoreError}
use taskgrant.Store.Ledger.{
  Use, used, recent, is_recent, is_fresh, distinct_capabilities_24h, record_capability_use,
  record_all, count_with, Durable, state_adapter,
}
use taskgrant.Guardrails.{pass, Input, CapabilityMeta}
use taskgrant.Guardrails.State.{check_creep, creep_verdict}
use taskgrant.Guardrails.Evaluator.{creep_alert_threshold}

In-keep : (p : Use → Bool) (u : Use) (us : List Use) → In u us → p u ≡ true → In u (keep p us)
In-keep p u [] i h = absurd i
In-keep p u (v ∷ us) (inl e) h = let t : p v ≡ true = rw e at h in rw (t, In) (inl e)
In-keep p u (v ∷ us) (inr i) h = elim (Bool-cases (p v)) [
  | inl t ↦ rw (t, In) (inr (In-keep p u us i h))
  | inr f ↦ rw (f, In) (In-keep p u us i h)
]

In-capabilities :
    (u : Use) (us : List Use) → In u us → In u.capability (map (λ (v : Use). v.capability) us)
In-capabilities u [] i = absurd i
In-capabilities u (v ∷ us) (inl e) = inl (ap (λ (x : Use). x.capability) e)
In-capabilities u (v ∷ us) (inr i) = inr (In-capabilities u us i)

Reply-cases : (r : Reply (Unit {0})) → (r ≡ done tt) ⊎ ((e : StoreError) × (r ≡ failed e))
Reply-cases (done tt) = inl refl
Reply-cases (failed e) = inr (e, refl)

module _ (agent : Bytes) (now : ℕ) where
  used-recent :
      (c : Bytes) (uses : List Use) → In (used agent c now) uses → In c (recent agent now uses)
  unfolding recent
  used-recent c uses i =
      add_all-In c [] (map (λ (v : Use). v.capability) (keep (is_recent agent now) uses)) (
        inr (
          In-capabilities (used agent c now) (keep (is_recent agent now) uses) (
            In-keep (is_recent agent now) (used agent c now) uses i
              (ground (arith, same_refl agent)))))

  record-keeps :
      (c d : Bytes) (uses : List Use)
      → In (used agent c now) uses
      → In (used agent c now) (record_capability_use agent d now uses).1
  unfolding record_capability_use
  record-keeps c d uses i = elim (Bool-cases (is_empty agent || is_empty d)) [
    | inl e ↦ rw (e, record_capability_use) i
    | inr n ↦
        rw (n, record_capability_use)
          (In-keep (is_fresh now) (used agent c now) (uses ++ used agent d now ∷ [])
            (In-append_left (used agent c now) uses (used agent d now ∷ []) i) (ground arith))
  ]

  record-adds :
      (d : Bytes) (uses : List Use)
      → (record_capability_use agent d now uses).0 ≡ done tt
      → In (used agent d now) (record_capability_use agent d now uses).1
  unfolding record_capability_use
  record-adds d uses h = elim (Bool-cases (is_empty agent || is_empty d)) [
    | inl e ↦ ground arith
    | inr n ↦
        rw (n, record_capability_use)
          (In-keep (is_fresh now) (used agent d now) (uses ++ used agent d now ∷ [])
            (In-append_right (used agent d now) uses (used agent d now ∷ []) (inl refl))
            (ground arith))
  ]

  record_all-keeps :
      (c : Bytes) (ids : List Bytes) (uses : List Use)
      → In (used agent c now) uses
      → In (used agent c now) (record_all agent ids now uses).1
  unfolding record_all
  record_all-keeps c [] uses i = i
  record_all-keeps c (d ∷ ids) uses i =
      elim (Reply-cases (record_capability_use agent d now uses).0) [
        | inl e ↦
            rw (e, record_all)
              (record_all-keeps c ids (record_capability_use agent d now uses).1
                (record-keeps c d uses i))
        | inr (x, e) ↦ rw (e, record_all) (record-keeps c d uses i)
      ]

  record_all-adds :
      (ids : List Bytes) (uses : List Use)
      → (record_all agent ids now uses).0 ≡ done tt
      → (c : Bytes) → In c ids
      → In (used agent c now) (record_all agent ids now uses).1
  unfolding record_all
  record_all-adds [] uses h c i = absurd i
  record_all-adds (d ∷ ids) uses h c i =
      elim (Reply-cases (record_capability_use agent d now uses).0) [
        | inr (x, e) ↦ ground arith
        | inl e ↦
            let later = (record_capability_use agent d now uses).1 in
            rw (e, record_all)
              (elim i [
                | inl p ↦ rw p (record_all-keeps d ids later (record-adds d uses e))
                | inr j ↦ record_all-adds ids later (rw (e, record_all) at h) c j
              ])
      ]

abbrev ids_of : Input → List Bytes
ids_of i = map (λ (c : CapabilityMeta). c.id) i.capabilities

creep-uses :
    (now : ℕ) (i : Input) (s : Durable)
    → (check_creep (some (state_adapter now)) i s).1.uses
      ≡ (record_all i.agent_id (ids_of i) now s.uses).1
unfolding check_creep count_with
creep-uses now i s = elim (Reply-cases (record_all i.agent_id (ids_of i) now s.uses).0) [
  | inl e ↦ ground arith
  | inr (x, e) ↦ ground arith
]

-- If the creep check passes on the durable ledger, the agent has used fewer than five distinct
-- capabilities in the last day, those of this grant counted in: each of them is recorded.
pub check_creep-counts :
    (now : ℕ) (i : Input) (s : Durable)
    → (check_creep (some (state_adapter now)) i s).0.verdict ≡ pass
    → (length (recent i.agent_id now (check_creep (some (state_adapter now)) i s).1.uses)
        < creep_alert_threshold)
      × ((c : Bytes)
          → In c (map (λ (m : CapabilityMeta). m.id) i.capabilities)
          → In c (recent i.agent_id now (check_creep (some (state_adapter now)) i s).1.uses))
unfolding check_creep creep_verdict count_with distinct_capabilities_24h
check_creep-counts now i s h = elim (Reply-cases (record_all i.agent_id (ids_of i) now s.uses).0) [
  | inr (x, e) ↦ ground arith
  | inl e ↦ (
    ground arith,
    λ c j.
        subst (λ us. In c (recent i.agent_id now us)) (sym (creep-uses now i s))
          (used-recent i.agent_id now c (record_all i.agent_id (ids_of i) now s.uses).1
            (record_all-adds i.agent_id now (ids_of i) s.uses e c j)),
  )
]
