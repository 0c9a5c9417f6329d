-- ===== src/Guardrails/Evaluate/Resources.antt =====
-- Which resources a grant that proceeds can name: G4.
use taskgrant.Prelude.{
  ◌≡◌, ◌≢◌, refl, Bool, true, false, ◌⊎◌, inl, inr, Option, List, [], ◌∷◌, Bytes, codes, In,
  append-eq-nil, same, same→eq, is_empty, any, length, arith, Bool-cases,
}
use taskgrant.Glob.Relation.{literal_or_any}
use taskgrant.Glob.Arn.{split_n, FieldsMatch, arn_pattern_match, arn_pattern_match_sound}
use taskgrant.Dataset.{Dataset}
use taskgrant.Guardrails.{Input, is_ok, resource_allowlist, fail}
use taskgrant.Guardrails.Policy.{ParsedStatement}
use taskgrant.Guardrails.Parse.{Json}
use taskgrant.Guardrails.Document.{parse_policy}
use taskgrant.Guardrails.Evaluator.{Evaluator}
use taskgrant.Guardrails.Checks.{
  star_opted, resource_allowed, resource_problems, resources_problems, statements_resources,
  star_problems, unfit_for_star, is_resource_free, check_resource_allowlist,
}
use taskgrant.Guardrails.State.{StateStore}
use taskgrant.Guardrails.Evaluate.{evaluate, semantic_checks, expanded_statements}
use taskgrant.Guardrails.Evaluate.Passed.{not_failed, semantic_passed, not_fatal}

-- Resource "*": opted into, with actions, each known and without resource types.
pub record IsStar (e : Evaluator) (opted : Bool) (st : ParsedStatement) (r : Bytes) : Type 0 where
  pub star : r ≡ codes "*"
  pub opt_in : opted ≡ true
  pub some_action : is_empty st.expanded ≡ false
  pub resource_free : (a : Bytes) → In a st.expanded → is_resource_free e.ds a ≡ true

-- A pattern of the allowlist that the resource matches field by field.
pub record IsAllowlisted (e : Evaluator) (r : Bytes) : Type 0 where
  pub pattern_text : Bytes
  pub listed : In pattern_text e.cfg.resource_allowlist
  pub six : length (split_n 5 pattern_text) ≡ 6
  pub fields : FieldsMatch literal_or_any (split_n 5 pattern_text) (split_n 5 r)

any-In :
    (q : Bytes → Bool) (xs : List Bytes) → any q xs ≡ true → (x : Bytes) × In x xs × (q x ≡ true)
any-In q [] h = ground arith
any-In q (x ∷ xs) h = elim (Bool-cases (q x)) [
  | inl t ↦ (x, inl refl, t)
  | inr f ↦ let (y, i, t) = any-In q xs (ground arith) in (y, inr i, t)
]

allowed-IsAllowlisted :
    (e : Evaluator) (r : Bytes) → resource_allowed e r ≡ true → IsAllowlisted e r
unfolding resource_allowed
allowed-IsAllowlisted e r h =
    let (p, i, t) = any-In (λ p. arn_pattern_match p r) e.cfg.resource_allowlist h in
    let (six, fields) = arn_pattern_match_sound p r t in
    record { pattern_text = p; listed = i; six = six; fields = fields }

unfit_for_star-nil :
    (ds : Dataset) (as' : List Bytes) (a : Bytes)
    → unfit_for_star ds as' ≡ []
    → In a as'
    → is_resource_free ds a ≡ true
unfolding unfit_for_star
unfit_for_star-nil ds [] a h i = absurd i
unfit_for_star-nil ds (b ∷ bs) a h i = elim (Bool-cases (is_resource_free ds b)) [
  | inr n ↦ ground arith
  | inl y ↦ elim i [ inl p ↦ rw p y | inr j ↦ unfit_for_star-nil ds bs a (ground arith) j ]
]

abbrev IsGranted : Evaluator → Bool → ParsedStatement → Bytes → Type 0
IsGranted e opted st r = IsStar e opted st r ⊎ IsAllowlisted e r

resource_problems-nil :
    (e : Evaluator) (opted : Bool) (st : ParsedStatement) (r : Bytes)
    → resource_problems e opted st.expanded r ≡ []
    → IsGranted e opted st r
unfolding resource_problems star_problems
resource_problems-nil e opted st r h = elim (Bool-cases (same r (codes "*"))) [
  | inr n ↦ inr (allowed-IsAllowlisted e r (ground arith))
  | inl y ↦
      let clean : unfit_for_star e.ds st.expanded ≡ [] = ground arith in
      inl (record {
        star = same→eq r (codes "*") y;
        opt_in = ground arith;
        some_action = ground arith;
        resource_free = λ a i. unfit_for_star-nil e.ds st.expanded a clean i;
      })
]

resources_problems-nil :
    (e : Evaluator) (opted : Bool) (st : ParsedStatement) (rs : List Bytes) (r : Bytes)
    → resources_problems e opted st.expanded rs ≡ []
    → In r rs
    → IsGranted e opted st r
unfolding resources_problems
resources_problems-nil e opted st [] r h i = absurd i
resources_problems-nil e opted st (q ∷ qs) r h i =
    let (here, later) =
      append-eq-nil (resource_problems e opted st.expanded q)
        (resources_problems e opted st.expanded qs) h in
    elim i [
      | inl p ↦ resource_problems-nil e opted st r (rw p here)
      | inr j ↦ resources_problems-nil e opted st qs r later j
    ]

statements_resources-nil :
    (e : Evaluator) (opted : Bool) (sts : List ParsedStatement) (st : ParsedStatement)
    → statements_resources e opted sts ≡ []
    → In st sts
    → resources_problems e opted st.expanded st.resources ≡ []
unfolding statements_resources
statements_resources-nil e opted [] st h i = absurd i
statements_resources-nil e opted (t ∷ ts) st h i =
    let (here, later) =
      append-eq-nil (resources_problems e opted t.expanded t.resources)
        (statements_resources e opted ts) h in
    elim i [ inl p ↦ rw p here | inr j ↦ statements_resources-nil e opted ts st later j ]

module _ {S : Type 0} (decode : Bytes → Option (Json × Bool)) (e : Evaluator)
    (st : Option (StateStore S)) (i : Input) (s : S) where
  -- If the evaluation lets the grant proceed, every resource of every statement is "*", opted into by
  -- a capability and standing beside known actions only that take no resource type, or it matches a
  -- pattern of the admin's allowlist in each of its six fields.
  pub evaluate_ok_resources :
      is_ok (evaluate decode e st i s).0 ≡ true
      → (p : ParsedStatement) → In p (expanded_statements e (parse_policy decode i.policy_json))
      → (r : Bytes) → In r p.resources
      → IsStar e (star_opted i) p r ⊎ IsAllowlisted e r
  unfolding evaluate semantic_checks parse_policy
  evaluate_ok_resources good p inside r at =
      let sts = expanded_statements e (parse_policy decode i.policy_json) in
      let f = not_fatal decode e st i s good in
      let g4 : (check_resource_allowlist e sts i).verdict ≢ fail =
        semantic_passed decode e st i s good (check_resource_allowlist e sts i)
          (rw (f, semantic_checks, In) (inr (inr (inr (inl refl))))) in
      let clean : statements_resources e (star_opted i) sts ≡ [] =
        not_failed resource_allowlist (statements_resources e (star_opted i) sts)
          (unfold check_resource_allowlist in g4) in
      resources_problems-nil e (star_opted i) p p.resources r
        (statements_resources-nil e (star_opted i) sts p clean inside) at
