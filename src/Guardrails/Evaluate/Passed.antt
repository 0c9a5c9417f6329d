-- ===== src/Guardrails/Evaluate/Passed.antt =====
-- What an evaluation that lets a grant proceed says of its single checks.
use taskgrant.Prelude.{
  ◌≡◌, ◌≢◌, refl, Bool, true, false, inl, inr, Option, List, [], ◌∷◌, Bytes, In, In-append_left,
  In-append_right, arith, Bool-cases,
}
use taskgrant.Guardrails.{
  fail, Check, check_of, fail_if, CheckName, Result, is_ok, Input, existence,
}
use taskgrant.Guardrails.Worst.{aggregate-fail}
use taskgrant.Guardrails.Parse.{Json}
use taskgrant.Guardrails.Document.{parse_policy}
use taskgrant.Guardrails.Evaluator.{Evaluator}
use taskgrant.Guardrails.State.{StateStore}
use taskgrant.Guardrails.Checks.{check_structure}
use taskgrant.Guardrails.Evaluate.{evaluate, semantic_checks, limit_checks}

pub not_failed {ℓ} :
    {A : Type ℓ} (n : CheckName) (ps : List A) → (fail_if n ps).verdict ≢ fail → ps ≡ []
not_failed n [] h = refl
not_failed n (p ∷ ps) h = absurd (h refl)

ok-overall : (r : Result) → is_ok r ≡ true → r.overall ≢ fail
unfolding is_ok
ok-overall r h e = ground arith

module _ {S : Type 0} (decode : Bytes → Option (Json × Bool)) (e : Evaluator)
    (st : Option (StateStore S)) (i : Input) (s : S)
    (ok : is_ok (evaluate decode e st i s).0 ≡ true) where
  pub no_failed_check : (c : Check) → In c (evaluate decode e st i s).0.checks → c.verdict ≢ fail
  unfolding evaluate
  no_failed_check c h bad =
      ok-overall (evaluate decode e st i s).0 ok
        (aggregate-fail (evaluate decode e st i s).0.checks c h bad)

  pub semantic_passed :
      (c : Check)
      → In c (semantic_checks e (parse_policy decode i.policy_json) i)
      → c.verdict ≢ fail
  unfolding evaluate
  semantic_passed c h =
      no_failed_check c
        (inr (In-append_left c (semantic_checks e (parse_policy decode i.policy_json) i) _ h))

  pub limits_passed : (c : Check) → In c (limit_checks e i) → c.verdict ≢ fail
  unfolding evaluate
  limits_passed c h = no_failed_check c (
      inr (
        In-append_right c (semantic_checks e (parse_policy decode i.policy_json) i) _
          (In-append_left c (limit_checks e i) _ h)))

  pub structure_passed :
      (check_structure i.policy_json (parse_policy decode i.policy_json)).verdict ≢ fail
  unfolding evaluate
  structure_passed = no_failed_check _ (inl refl)

  pub not_fatal : (parse_policy decode i.policy_json).fatal ≡ false
  unfolding semantic_checks
  not_fatal = elim (Bool-cases (parse_policy decode i.policy_json).fatal) [
    | inr f ↦ f
    | inl t ↦
        absurd
          (semantic_passed (check_of existence fail) (rw (t, semantic_checks, In) (inl refl)) refl)
  ]
