-- ===== src/Guardrails/State.antt =====
-- The durable part of G8 in internal/guardrails/evaluate.go: the rate tokens and the creep count,
-- through the `StateStore` that the broker injects.
use taskgrant.Prelude.{ℕ, Bool, Option, none, some, List, [], ◌∷◌, map, leb, Bytes, if◌then◌else◌}
use taskgrant.Guardrails.{
  Check, check_of, fail_if, Input, CapabilityMeta, pass, warn, fail, needs_approval, rate_limit,
  creep,
}
use taskgrant.Guardrails.Evaluator.{creep_alert_threshold, creep_hard_cap}

-- A reply of the store: `none` is an error.
pub record StateStore (S : Type 0) : Type 0 where
  pub take_token : Bytes → Bytes → S → Option Bool × S
  pub distinct_capability_count : Bytes → List Bytes → S → Option ℕ × S

unfoldable pub rate_verdict : Option (List Bytes) → Check
rate_verdict none = check_of rate_limit fail
rate_verdict (some exhausted) = fail_if rate_limit exhausted

unfoldable pub creep_verdict : Option ℕ → Check
creep_verdict none = check_of creep fail
creep_verdict (some n) =
    if leb creep_hard_cap n
    then check_of creep needs_approval
    else if leb creep_alert_threshold n
    then check_of creep warn
    else check_of creep pass

module _ {S : Type 0} where
  -- What the loop over the capabilities ends with: an error, or the exhausted ids.
  unfoldable pub take_tokens :
      StateStore S → Bytes → List CapabilityMeta → List Bytes → S → Option (List Bytes) × S
  take_tokens st agent [] exhausted s = (some exhausted, s)
  take_tokens st agent (c ∷ cs) exhausted s =
      let (reply, s') = st.take_token agent c.id s in
      elim reply [
        | none ↦ (none, s')
        | some granted ↦
            take_tokens st agent cs (if granted then exhausted else c.id ∷ exhausted) s'
      ]

  unfoldable pub check_rate_limit : Option (StateStore S) → Input → S → Check × S
  unfolding rate_verdict
  check_rate_limit none i s = (check_of rate_limit warn, s)
  check_rate_limit (some st) i s =
      let (out, s') = take_tokens st i.agent_id i.capabilities [] s in (rate_verdict out, s')

  unfoldable pub check_creep : Option (StateStore S) → Input → S → Check × S
  unfolding creep_verdict
  check_creep none i s = (check_of creep warn, s)
  check_creep (some st) i s =
      let ids = map (λ (c : CapabilityMeta). c.id) i.capabilities in
      let (n, s') = st.distinct_capability_count i.agent_id ids s in (creep_verdict n, s')
