-- ===== src/Guardrails/Evaluate/Conditions.antt =====
-- Which conditions a grant that proceeds carries: G5.
use taskgrant.Prelude.{
  ◌≡◌, ◌≢◌, refl, Bool, true, false, ◌⊎◌, inl, inr, Option, List, [], ◌∷◌, Bytes, In, append-eq-nil,
  has, has→In, is_empty, arith, Bool-cases,
}
use taskgrant.Guardrails.{Input, is_ok, conditions, fail}
use taskgrant.Guardrails.Policy.{ParsedStatement}
use taskgrant.Guardrails.Parse.{Json}
use taskgrant.Guardrails.Document.{parse_policy}
use taskgrant.Guardrails.Conditions.{
  operators, services_of, constraining_condition_values, condition_keys, IsPinned,
  constraining_condition_values-IsPinned,
}
use taskgrant.Guardrails.Evaluator.{Evaluator}
use taskgrant.Guardrails.Pins.{
  allowed_condition_operators, requested_region, resource_account, operator_problems, is_exempt,
  region_problems, require_account, needs_account, account_problems, keys_problems, pin_problems,
  pins_problems, check_conditions,
}
use taskgrant.Guardrails.State.{StateStore}
use taskgrant.Guardrails.Evaluate.{evaluate, semantic_checks, expanded_statements}
use taskgrant.Guardrails.Evaluate.Passed.{not_failed, semantic_passed, not_fatal}

operator_problems-nil :
    (ops : List Bytes) (op : Bytes)
    → operator_problems ops ≡ []
    → In op ops
    → In op allowed_condition_operators
unfolding operator_problems
operator_problems-nil [] op h i = absurd i
operator_problems-nil (x ∷ xs) op h i = elim (Bool-cases (has x allowed_condition_operators)) [
  | inr n ↦ ground arith
  | inl y ↦ elim i [
    | inl p ↦ rw p (has→In x allowed_condition_operators y)
    | inr j ↦ operator_problems-nil xs op (rw (y, operator_problems) at h) j
  ]
]

-- A value among those that constrain a key.
IsPinned-by :
    (st : ParsedStatement) (key : Bytes)
    → is_empty (constraining_condition_values st key) ≡ false
    → (v : Bytes) × IsPinned st key v
IsPinned-by st key h = go (constraining_condition_values st key) refl h
  where
    go :
        (vs : List Bytes)
        → constraining_condition_values st key ≡ vs
        → is_empty vs ≡ false
        → (v : Bytes) × IsPinned st key v
    go [] e k = ground arith
    go (v ∷ vs) e k = (v, constraining_condition_values-IsPinned st key v (rw e (inl refl)))

region_problems-nil :
    (e : Evaluator) (st : ParsedStatement)
    → region_problems e st ≡ []
    → (is_exempt e (services_of st.expanded) ≡ true)
      ⊎ ((v : Bytes) × IsPinned st requested_region v)
unfolding region_problems
region_problems-nil e st h = elim (Bool-cases (is_exempt e (services_of st.expanded))) [
  | inl y ↦ inl y
  | inr n ↦ inr (
      IsPinned-by st requested_region
        (elim (Bool-cases (is_empty (constraining_condition_values st requested_region))) [
          | inl b ↦ ground arith
          | inr g ↦ g
        ]))
]

account_problems-nil :
    (e : Evaluator) (required : Bool) (st : ParsedStatement)
    → account_problems e required st ≡ []
    → needs_account e required st ≡ true
    → (v : Bytes) × IsPinned st resource_account v
unfolding account_problems
account_problems-nil e required st h k =
    IsPinned-by st resource_account
      (elim (Bool-cases (is_empty (constraining_condition_values st resource_account))) [
        | inl b ↦ ground arith
        | inr g ↦ g
      ])

pins_problems-nil :
    (e : Evaluator) (required : Bool) (sts : List ParsedStatement) (st : ParsedStatement)
    → pins_problems e required sts ≡ []
    → In st sts
    → pin_problems e required st ≡ []
unfolding pins_problems
pins_problems-nil e required [] st h i = absurd i
pins_problems-nil e required (t ∷ ts) st h i =
    let (here, later) = append-eq-nil (pin_problems e required t) (pins_problems e required ts) h in
    elim i [ inl p ↦ rw p here | inr j ↦ pins_problems-nil e required ts st later j ]

-- What G5 asks of a statement.
pub record IsConstrained (e : Evaluator) (required : Bool) (st : ParsedStatement) : Type 0 where
  pub operators_allowed : (op : Bytes) → In op (operators st) → In op allowed_condition_operators
  pub region :
      (is_exempt e (services_of st.expanded) ≡ true)
      ⊎ ((v : Bytes) × IsPinned st requested_region v)
  pub account : needs_account e required st ≡ true → (v : Bytes) × IsPinned st resource_account v

pin_problems-nil :
    (e : Evaluator) (required : Bool) (st : ParsedStatement)
    → pin_problems e required st ≡ []
    → IsConstrained e required st
unfolding pin_problems
pin_problems-nil e required st h =
    let keys = keys_problems e.ds st.expanded (condition_keys st) in
    let (ops, more) = append-eq-nil (operator_problems (operators st)) _ h in
    let (region, more') = append-eq-nil (region_problems e st) _ more in
    let (account, rest) = append-eq-nil (account_problems e required st) keys more' in
    record {
      operators_allowed = λ op i. operator_problems-nil (operators st) op ops i;
      region = region_problems-nil e st region;
      account = account_problems-nil e required st account;
    }

module _ {S : Type 0} (decode : Bytes → Option (Json × Bool)) (e : Evaluator)
    (st : Option (StateStore S)) (i : Input) (s : S) where
  -- If the evaluation lets the grant proceed, every statement uses allowed condition operators only;
  -- its region is pinned by an equality operator with a value that is not empty and holds no
  -- wildcard, unless all its services are exempt global ones; and so is its resource account,
  -- wherever G5 asks for it.
  pub evaluate_ok_conditions :
      is_ok (evaluate decode e st i s).0 ≡ true
      → (p : ParsedStatement) → In p (expanded_statements e (parse_policy decode i.policy_json))
      → IsConstrained e (require_account i) p
  unfolding evaluate semantic_checks parse_policy
  evaluate_ok_conditions good p inside =
      let sts = expanded_statements e (parse_policy decode i.policy_json) in
      let f = not_fatal decode e st i s good in
      let g5 : (check_conditions e sts i).verdict ≢ fail =
        semantic_passed decode e st i s good (check_conditions e sts i)
          (rw (f, semantic_checks, In) (inr (inr (inr (inr (inl refl)))))) in
      let clean : pins_problems e (require_account i) sts ≡ [] =
        not_failed conditions (pins_problems e (require_account i) sts)
          (unfold check_conditions in g5) in
      pin_problems-nil e (require_account i) p
        (pins_problems-nil e (require_account i) sts p clean inside)
