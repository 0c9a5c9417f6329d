-- ===== src/Gate/Proceed.antt =====
-- What it takes for the gate to let a request proceed without a human.
use taskgrant.Prelude.{
  ◌+◌, ◌-◌, ◌*◌, ◌≤◌, ◌≡◌, refl, subst, Bool, true, false, ◌||◌, ◌⊎◌, inl, inr, Option, some, List,
  [], ◌∷◌, ltb, Bytes, is_empty, length, trim_space, In, arith, Bool-cases, Option-cases,
}
use taskgrant.Prelude.Float.{least, sub-le}
use taskgrant.Gate.{
  Gate, Capability, ParamSpec, Candidate, MatchResult, Hint, Selected, proceed, proceed_threshold,
  margin_threshold, max_selected, value_of, is_missing, missing_all, missing_required_params, Merge,
  merged, unknown, merge_selected, gate_chosen, ambiguous_decision, is_close, decide,
  no_match_threshold, overlay, hinted,
}
use taskgrant.Gate.Reasons.{
  sort_missing-nil, missing_of-nil, missing_all-nil, approval_reasons-nil, first_use_reasons-nil,
  gate_first_use-proceed, gate_missing-proceed,
}

-- The exact lead over the next candidate, up to the rounding of the difference.
abbrev pub Leads : Candidate → List Candidate → Type 0
Leads top [] = Unit
Leads top (c ∷ cs) =
    (c.confidence ≤ top.confidence)
    × (2 * least * margin_threshold ≤ (2 * least + 1) * (top.confidence - c.confidence))

is_close-Leads :
    (lookup : Bytes → Option Capability) (top : Candidate) (cs : List Candidate)
    → is_close lookup top cs ≡ false
    → Leads top cs
is_close-Leads lookup top [] h = tt
is_close-Leads lookup top (c ∷ cs) h =
    (ground (arith, h), ground (arith, h, sub-le top.confidence c.confidence))

-- One selected capability that needs no human.
pub record IsCleared (lookup : Bytes → Option Capability) (g : Gate) (agent : Bytes) (s : Selected)
    : Type 0 where
  pub known : (id : Bytes) × (lookup id ≡ some s.capability)
  pub no_approval : s.capability.requires_approval ≡ false
  pub complete :
      (p : ParamSpec)
      → In p s.capability.params
      → p.required ≡ true
      → is_empty (trim_space (value_of p.name s.params)) ≡ false
  pub used_before :
      g.first_use_approval ≡ true
      → (ledger : Bytes → Bytes → Option Bool) × (g.first_use ≡ some ledger)
        × (ledger agent s.capability.id ≡ some false)

Merge-cases :
    (m : Merge) → ((ss : List Selected) × (m ≡ merged ss)) ⊎ ((id : Bytes) × (m ≡ unknown id))
Merge-cases (merged ss) = inl (ss, refl)
Merge-cases (unknown id) = inr (id, refl)

abbrev KnownAll : (Bytes → Option Capability) → List Candidate → List Selected → Type 0
KnownAll lookup cs ss =
    (length ss ≡ length cs)
    × ((s : Selected) → In s ss → (id : Bytes) × (lookup id ≡ some s.capability))

Candidates-cases :
    (cs : List Candidate)
    → (cs ≡ []) ⊎ ((top : Candidate) × (rest : List Candidate) × (cs ≡ top ∷ rest))
Candidates-cases [] = inl refl
Candidates-cases (c ∷ cs) = inr (c, cs, refl)

module _ (lookup : Bytes → Option Capability) where
  merge_selected-known :
      (cs : List Candidate) (hints : List Hint) (ss : List Selected)
      → merge_selected lookup cs hints ≡ merged ss
      → KnownAll lookup cs ss
  unfolding merge_selected
  merge_selected-known [] hints ss h =
      let e : [] ≡ ss = ground arith in subst (KnownAll lookup []) e (refl, λ s i. absurd i)
  merge_selected-known (c ∷ cs) hints ss h = elim (Option-cases (lookup c.capability_id)) [
    | inl n ↦ ground arith
    | inr (cap, n) ↦ elim (Merge-cases (merge_selected lookup cs hints)) [
      | inr (id, e) ↦ ground arith
      | inl (rest, e) ↦
          let (len, known) = merge_selected-known cs hints rest e in
          let sel : Selected = record {
            capability = cap;
            params = overlay c.params (hinted c.capability_id hints []);
          } in
          let out : sel ∷ rest ≡ ss = ground arith in
          subst (KnownAll lookup (c ∷ cs)) out (
            omega (arith, len),
            λ s i. elim i [ inl q ↦ rw q (c.capability_id, n) | inr j ↦ known s j ],
          )
    ]
  ]

  gate_chosen-IsCleared :
      (g : Gate) (agent : Bytes) (hints : List Hint) (cs : List Candidate) {out : List Selected}
      → gate_chosen lookup g agent hints cs ≡ proceed out
      → (length out ≤ max_selected)
        × (length out ≡ length cs)
        × ((s : Selected) → In s out → IsCleared lookup g agent s)
  unfolding gate_chosen missing_required_params is_missing
  gate_chosen-IsCleared g agent hints cs {out} h =
      elim (Bool-cases (ltb max_selected (length cs))) [
        | inl t ↦ ground arith
        | inr f ↦ elim (Merge-cases (merge_selected lookup cs hints)) [
          | inr (id, e) ↦ ground arith
          | inl (ss, e) ↦
              let (len, known) = merge_selected-known cs hints ss e in
              let (none_missing, next) =
                gate_missing-proceed g agent ss (missing_required_params ss)
                  (rw (f, e, gate_chosen) at h) in
              let (own, approvals, used) = gate_first_use-proceed g agent ss next in
              let full = sort_missing-nil (missing_all ss) none_missing in
              subst
                (λ (o : List Selected).
                  (length o ≤ max_selected)
                  × (length o ≡ length cs)
                  × ((s : Selected) → In s o → IsCleared lookup g agent s))
                own
                (
                  ground (arith, len),
                  len,
                  λ s i. record {
                    known = known s i;
                    no_approval = approval_reasons-nil ss s approvals i;
                    complete = λ p j r.
                        let m =
                          missing_of-nil s.capability.id s.params s.capability.params p
                            (missing_all-nil ss s full i) j in
                        ground (arith, m);
                    used_before = λ on.
                        let (ledger, e', clean) = used on in
                        (ledger, e', first_use_reasons-nil (ledger agent) ss s clean i);
                  },
                )
        ]
      ]

  -- If the gate proceeds, it selects three capabilities at most. Each is in the agent's snapshot, asks
  -- for no approval, has a value that is not blank for every required param, and was used before by
  -- the agent as far as first uses need approval. Without a structured hint it selects one, and the
  -- first candidate's confidence is at least 0.80, and exactly computed it leads the next candidate's
  -- by at least 0.20 less one part in 2^53 + 1 (both thresholds the nearest float64).
  pub decide_proceeds :
      (g : Gate) (agent : Bytes) (res : MatchResult) (hints : List Hint) {out : List Selected}
      → decide lookup g agent res hints ≡ proceed out
      → (length out ≤ max_selected)
        × ((s : Selected) → In s out → IsCleared lookup g agent s)
        × (res.structured ≡ false
            → (length out ≡ 1)
              × ((top : Candidate) × (rest : List Candidate) × (res.candidates ≡ top ∷ rest)
                  × (proceed_threshold ≤ top.confidence)
                  × Leads top rest))
  unfolding decide ambiguous_decision
  decide_proceeds g agent res hints {out} h = elim (Candidates-cases res.candidates) [
    | inl e ↦ ground arith
    | inr (top, rest, e) ↦ elim (Bool-cases res.structured) [
      | inl t ↦
          let (le, len, cleared) =
            gate_chosen-IsCleared g agent hints (top ∷ rest) (rw (e, t, decide) at h) in
          (le, cleared, λ f. ground arith)
      | inr t ↦ elim (Bool-cases (ltb top.confidence no_match_threshold)) [
        | inl low ↦ ground arith
        | inr low ↦
            elim (Bool-cases (ltb top.confidence proceed_threshold || is_close lookup top rest)) [
              | inl close ↦ ground arith
              | inr close ↦
                  let (le, len, cleared) =
                    gate_chosen-IsCleared g agent hints (top ∷ [])
                      (rw (e, t, low, close, decide) at h) in
                  (
                    le,
                    cleared,
                    λ f. (
                      len,
                      (top, rest, e, ground arith, is_close-Leads lookup top rest (ground arith)),
                    ),
                  )
            ]
      ]
    ]
  ]
