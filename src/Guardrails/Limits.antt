-- ===== src/Guardrails/Limits.antt =====
-- G6, G7 and the capability count of G8 in internal/guardrails/evaluate.go.
use native.Mathlib.Nat.{le_trans}
use taskgrant.Prelude.{
  ℕ, ◌*◌, ◌≤◌, ◌<◌, ◌≡◌, Bool, true, ◌&&◌, ◌||◌, ◌⊎◌, inl, inr, List, [], ◌∷◌, ◌==◌, ltb, In,
  length, arith, Bool-cases, if◌then◌else◌,
}
use taskgrant.Guardrails.{
  Check, check_of, Input, CapabilityMeta, pass, warn, fail, size_budget, duration_clamp,
  capability_count,
}
use taskgrant.Guardrails.Evaluator.{
  Evaluator, duration_floor_seconds, chained_duration_cap_seconds, max_capabilities_per_grant,
}

unfoldable pub check_size_budget : Evaluator → Input → Check
check_size_budget e i =
    let budget = if i.max_policy_chars == 0 then e.max_policy_chars else i.max_policy_chars in
    let chars = length i.policy_json in
    if ltb budget chars
    then check_of size_budget fail
    else if ltb (budget * 9) (chars * 10)
    then check_of size_budget warn
    else check_of size_budget pass

-- The loop over the capabilities: the least positive cap, 0 if there is none.
unfoldable pub capability_cap : ℕ → List CapabilityMeta → ℕ
capability_cap cap [] = cap
capability_cap cap (c ∷ cs) =
    capability_cap
      (if ltb 0 c.max_duration_seconds && (cap == 0 || ltb c.max_duration_seconds cap)
        then c.max_duration_seconds
        else cap)
      cs

-- `if limit > 0 && limit < effective { effective = limit }`.
abbrev clamp_to : ℕ → ℕ → ℕ
clamp_to limit effective = if ltb 0 limit && ltb limit effective then limit else effective

-- The clamps, from the requested seconds, the capability cap, the profile cap and the global cap on.
unfoldable pub clamp_all : ℕ → ℕ → ℕ → ℕ → Bool → ℕ
clamp_all request cap profile global broker_chained =
    let requested = if request == 0 then duration_floor_seconds else request in
    let by_capability = clamp_to cap requested in
    let by_profile = clamp_to profile by_capability in
    let by_global = if ltb global by_profile then global else by_profile in
    let chained =
      if broker_chained && ltb chained_duration_cap_seconds by_global
      then chained_duration_cap_seconds
      else by_global in
    if ltb chained duration_floor_seconds then duration_floor_seconds else chained

unfoldable pub effective_duration : Evaluator → Input → ℕ
effective_duration e i =
    clamp_all i.requested_duration_seconds (capability_cap 0 i.capabilities)
      i.profile_max_duration_seconds e.global_max_seconds i.broker_chained

unfoldable pub check_duration_clamp : Evaluator → Input → Check × ℕ
check_duration_clamp e i = (check_of duration_clamp pass, effective_duration e i)

unfoldable pub check_capability_count : Input → Check
check_capability_count i =
    if ltb max_capabilities_per_grant (length i.capabilities)
    then check_of capability_count fail
    else check_of capability_count pass

-- A number that a cap keeps down, a cap of 0 being none; the floor wins over every cap.
abbrev pub Capped : ℕ → ℕ → Type 0
Capped limit n = 0 < limit → (n ≤ limit) ⊎ (n ≡ duration_floor_seconds)

capability_cap-le :
    (cap : ℕ) (cs : List CapabilityMeta)
    → 0 < cap
    → (0 < capability_cap cap cs) × (capability_cap cap cs ≤ cap)
unfolding capability_cap
capability_cap-le cap [] h = (h, omega arith)
capability_cap-le cap (c ∷ cs) h =
    elim (Bool-cases (ltb 0 c.max_duration_seconds && ltb c.max_duration_seconds cap)) [
      | inl y ↦
          let (p, q) = capability_cap-le c.max_duration_seconds cs (ground arith) in ground arith
      | inr n ↦ let (p, q) = capability_cap-le cap cs h in ground arith
    ]

abbrev pick : ℕ → CapabilityMeta → ℕ
pick cap c =
    if ltb 0 c.max_duration_seconds && (cap == 0 || ltb c.max_duration_seconds cap)
    then c.max_duration_seconds
    else cap

pick-le :
    (cap : ℕ) (c : CapabilityMeta)
    → 0 < c.max_duration_seconds
    → (0 < pick cap c) × (pick cap c ≤ c.max_duration_seconds)
pick-le cap c h = ground arith

capability_cap-bound :
    (cap : ℕ) (cs : List CapabilityMeta) (c : CapabilityMeta)
    → In c cs
    → 0 < c.max_duration_seconds
    → (0 < capability_cap cap cs) × (capability_cap cap cs ≤ c.max_duration_seconds)
unfolding capability_cap
capability_cap-bound cap [] c h k = absurd h
capability_cap-bound cap (d ∷ cs) c (inl e) k =
    let (p, q) = pick-le cap d (rw e at k) in
    let (p', q') = capability_cap-le (pick cap d) cs p in (p', rw e (le_trans q' q))
capability_cap-bound cap (d ∷ cs) c (inr i) k = capability_cap-bound (pick cap d) cs c i k

module _ (request cap profile global : ℕ) (chained : Bool) where
  abbrev clamped : ℕ
  clamped = clamp_all request cap profile global chained

  clamp_floor : duration_floor_seconds ≤ clamped
  unfolding clamp_all
  clamp_floor = ground arith

  clamp_request : Capped request clamped
  unfolding clamp_all
  clamp_request h = ground arith

  clamp_cap : Capped cap clamped
  unfolding clamp_all
  clamp_cap h = ground arith

  clamp_profile : Capped profile clamped
  unfolding clamp_all
  clamp_profile h = ground arith

  clamp_global : Capped global clamped
  unfolding clamp_all
  clamp_global h = ground arith

  clamp_chained : chained ≡ true → clamped ≤ chained_duration_cap_seconds
  unfolding clamp_all
  clamp_chained h = ground arith

-- The duration of a grant is at least 900 seconds, and unless it is 900 it is at most the request,
-- each capability's cap, the profile's cap and the global cap, where these are set; it is at most
-- 3600 where the broker is chained.
pub effective_duration_bounds :
    (e : Evaluator) (i : Input)
    → (duration_floor_seconds ≤ effective_duration e i)
      × Capped i.requested_duration_seconds (effective_duration e i)
      × ((c : CapabilityMeta)
          → In c i.capabilities
          → Capped c.max_duration_seconds (effective_duration e i))
      × Capped i.profile_max_duration_seconds (effective_duration e i)
      × Capped e.global_max_seconds (effective_duration e i)
      × (i.broker_chained ≡ true → effective_duration e i ≤ chained_duration_cap_seconds)
unfolding effective_duration
effective_duration_bounds e i =
    let request = i.requested_duration_seconds in
    let cap = capability_cap 0 i.capabilities in
    let profile = i.profile_max_duration_seconds in
    let global = e.global_max_seconds in
    (
      clamp_floor request cap profile global i.broker_chained,
      clamp_request request cap profile global i.broker_chained,
      λ c inside set.
          let (p, q) = capability_cap-bound 0 i.capabilities c inside set in
          elim (clamp_cap request cap profile global i.broker_chained p) [
            | inl le ↦ inl (le_trans le q)
            | inr eq ↦ inr eq
          ],
      clamp_profile request cap profile global i.broker_chained,
      clamp_global request cap profile global i.broker_chained,
      clamp_chained request cap profile global i.broker_chained,
    )
