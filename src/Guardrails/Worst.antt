-- ===== src/Guardrails/Worst.antt =====
-- The overall verdict of `aggregate`.
use native.Mathlib.Nat.{le_trans}
use taskgrant.Prelude.{
  ◌≤◌, ◌≡◌, refl, ◌⊎◌, inl, inr, List, [], ◌∷◌, ltb, In, arith, Bool-cases, if◌then◌else◌,
}
use taskgrant.Guardrails.{Verdict, pass, fail, rank, Check, aggregate, aggregate_loop}

abbrev step : Verdict → Check → Verdict
step w c = if ltb (rank w) (rank c.verdict) then c.verdict else w

aggregate_loop-ge : (w : Verdict) (cs : List Check) → rank w ≤ rank (aggregate_loop w cs)
unfolding aggregate_loop
aggregate_loop-ge w [] = omega arith
aggregate_loop-ge w (c ∷ cs) =
    le_trans {m = rank (step w c)} (ground arith) (aggregate_loop-ge (step w c) cs)

aggregate_loop-bound :
    (w : Verdict) (cs : List Check) (c : Check)
    → In c cs
    → rank c.verdict ≤ rank (aggregate_loop w cs)
unfolding aggregate_loop
aggregate_loop-bound w [] c h = absurd h
aggregate_loop-bound w (d ∷ cs) c (inl e) =
    rw e (le_trans {m = rank (step w d)} (ground arith) (aggregate_loop-ge (step w d) cs))
aggregate_loop-bound w (d ∷ cs) c (inr h) = aggregate_loop-bound (step w d) cs c h

aggregate_loop-attained :
    (w : Verdict) (cs : List Check)
    → (aggregate_loop w cs ≡ w) ⊎ ((c : Check) × In c cs × (c.verdict ≡ aggregate_loop w cs))
unfolding aggregate_loop
aggregate_loop-attained w [] = inl refl
aggregate_loop-attained w (c ∷ cs) = elim (aggregate_loop-attained (step w c) cs) [
  | inr (d, i, e) ↦ inr (d, inr i, e)
  | inl e ↦ elim (Bool-cases (ltb (rank w) (rank c.verdict))) [
    | inl l ↦ inr (c, inl refl, ground arith)
    | inr g ↦ inl (ground arith)
  ]
]

-- The overall verdict ranks no lower than any check's (pass, warn, needs approval, fail, in this
-- order), and it is pass or the verdict of some check.
pub aggregate_worst :
    (cs : List Check)
    → ((c : Check) → In c cs → rank c.verdict ≤ rank (aggregate cs))
      × ((aggregate cs ≡ pass) ⊎ ((c : Check) × In c cs × (c.verdict ≡ aggregate cs)))
unfolding aggregate
aggregate_worst cs = (aggregate_loop-bound pass cs, aggregate_loop-attained pass cs)

rank_three : (v : Verdict) → 3 ≤ rank v → v ≡ fail
rank_three v h = ground arith

-- One failed check fails the whole.
pub aggregate-fail :
    (cs : List Check) (c : Check) → In c cs → c.verdict ≡ fail → aggregate cs ≡ fail
aggregate-fail cs c i e =
    let bound = (aggregate_worst cs).0 c i in rank_three (aggregate cs) (rw e at bound)
