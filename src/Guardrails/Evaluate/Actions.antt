-- ===== src/Guardrails/Evaluate/Actions.antt =====
-- Which actions a grant that proceeds can hold: the access levels of G2 and the denied services of
-- G3.
use taskgrant.Prelude.{
  ◌≡◌, ◌≢◌, refl, ap, subst, Bool, true, false, ◌⊎◌, inl, inr, Option, some, List, [], ◌∷◌, ◌++◌,
  Bytes, In, In-append_left, append-eq-nil, has, has→In, In→has, same, same→eq, same_refl, keep,
  map, arith, Bool-cases, Option-cases,
}
use taskgrant.Dataset.{Dataset, ActionInfo, lookup, access_tagging, access_permissions_management}
use taskgrant.Dataset.Denylist.{is_escalation_action}
use taskgrant.Guardrails.{Config, Input, is_ok, access_levels, service_denylist, fail}
use taskgrant.Guardrails.Parse.{Json}
use taskgrant.Guardrails.Document.{parse_policy}
use taskgrant.Guardrails.Conditions.{services_of}
use taskgrant.Guardrails.Evaluator.{
  Evaluator, new, mandatory_deny_services, Checked, ok, err, NewError, access_level_set,
  configured_levels, evaluator_of, normal,
}
use taskgrant.Guardrails.Checks.{
  action_problems, actions_problems, level_problem, tagging_opted, allowed_levels,
  check_access_levels, check_service_denylist, collect_expanded, raw_services,
}
use taskgrant.Guardrails.State.{StateStore}
use taskgrant.Guardrails.Evaluate.{evaluate, semantic_checks, expanded_statements, expanded_actions}
use taskgrant.Guardrails.Evaluate.Passed.{not_failed, semantic_passed, not_fatal}

-- What G2 asks of one action, `allowed` being the levels in force.
pub record IsGrantable (ds : Dataset) (allowed : List Bytes) (opted : Bool) (a : Bytes)
    : Type 0 where
  pub not_escalation : is_escalation_action a ≡ false
  pub info : ActionInfo
  pub known : lookup ds a ≡ some info
  pub not_permissions : info.access_level ≢ access_permissions_management
  pub in_levels : In info.access_level allowed
  pub tagging : info.access_level ≡ access_tagging → opted ≡ true

level_problem-nil :
    (allowed : List Bytes) (opted : Bool) (a : Bytes) (i : ActionInfo)
    → level_problem allowed opted a i ≡ []
    → (i.access_level ≢ access_permissions_management)
      × In i.access_level allowed
      × (i.access_level ≡ access_tagging → opted ≡ true)
unfolding level_problem
level_problem-nil allowed opted a i h =
    elim (Bool-cases (same i.access_level access_permissions_management)) [
      | inl y ↦ ground arith
      | inr p ↦ elim (Bool-cases (same i.access_level access_tagging)) [
        | inl t ↦
            let level : i.access_level ≡ access_tagging = same→eq i.access_level access_tagging t in
            let listed : has access_tagging allowed ≡ true = ground arith in
            (
              λ q. ground (
                arith,
                ap (λ l. same l access_permissions_management) q,
                same_refl access_permissions_management,
              ),
              rw level (has→In access_tagging allowed listed),
              λ q. ground arith,
            )
        | inr t ↦ (
          λ q. ground (
            arith,
            ap (λ l. same l access_permissions_management) q,
            same_refl access_permissions_management,
          ),
          has→In i.access_level allowed (ground arith),
          λ q. ground (arith, ap (λ l. same l access_tagging) q, same_refl access_tagging),
        )
      ]
    ]

action_problems-nil :
    (ds : Dataset) (allowed : List Bytes) (opted : Bool) (a : Bytes)
    → action_problems ds allowed opted a ≡ []
    → IsGrantable ds allowed opted a
unfolding action_problems
action_problems-nil ds allowed opted a h = elim (Bool-cases (is_escalation_action a)) [
  | inl y ↦ ground arith
  | inr n ↦ elim (Option-cases (lookup ds a)) [
    | inl e ↦ ground arith
    | inr (i, e) ↦
        let clean : level_problem allowed opted a i ≡ [] = ground arith in
        let (p, q, t) = level_problem-nil allowed opted a i clean in
        record {
          not_escalation = n;
          info = i;
          known = e;
          not_permissions = p;
          in_levels = q;
          tagging = t;
        }
  ]
]

actions_problems-nil :
    (ds : Dataset) (allowed : List Bytes) (opted : Bool) (as' : List Bytes) (a : Bytes)
    → actions_problems ds allowed opted as' ≡ []
    → In a as'
    → IsGrantable ds allowed opted a
unfolding actions_problems
actions_problems-nil ds allowed opted [] a h i = absurd i
actions_problems-nil ds allowed opted (b ∷ bs) a h i =
    let (here, later) =
      append-eq-nil (action_problems ds allowed opted b) (actions_problems ds allowed opted bs) h in
    elim i [
      | inl e ↦ action_problems-nil ds allowed opted a (rw e here)
      | inr j ↦ actions_problems-nil ds allowed opted bs a later j
    ]

Checked-cases :
    (r : Checked (List Bytes)) → ((x : NewError) × (r ≡ err x)) ⊎ ((l : List Bytes) × (r ≡ ok l))
Checked-cases (err x) = inl (x, refl)
Checked-cases (ok l) = inr (l, refl)

check_access_levels-passed :
    (e : Evaluator) (as' : List Bytes) (i : Input)
    → (check_access_levels e as' i).verdict ≢ fail
    → (allowed : List Bytes) × (allowed_levels e i ≡ ok allowed)
      × (actions_problems e.ds allowed (tagging_opted i) as' ≡ [])
unfolding check_access_levels
check_access_levels-passed e as' i h = elim (Checked-cases (allowed_levels e i)) [
  | inl (x, q) ↦ absurd (h (rw (q, check_access_levels)))
  | inr (allowed, q) ↦ (
    allowed,
    q,
    not_failed access_levels (actions_problems e.ds allowed (tagging_opted i) as')
        (rw (q, check_access_levels) at h),
  )
]

module _ {S : Type 0} (decode : Bytes → Option (Json × Bool)) (e : Evaluator)
    (st : Option (StateStore S)) (i : Input) (s : S) where
  -- If the evaluation lets the grant proceed, the levels in force are valid, and every action of the
  -- policy's expansion is off the escalation denylist, is known to the dataset, has one of these
  -- levels, which is not "Permissions management", and has the level "Tagging" only where a
  -- capability has opted in.
  pub evaluate_ok_actions :
      is_ok (evaluate decode e st i s).0 ≡ true
      → (allowed : List Bytes) × (allowed_levels e i ≡ ok allowed)
        × ((a : Bytes)
            → In a (evaluate decode e st i s).0.expanded_actions
            → IsGrantable e.ds allowed (tagging_opted i) a)
  unfolding evaluate semantic_checks parse_policy expanded_actions
  evaluate_ok_actions good =
      let doc = parse_policy decode i.policy_json in
      let sts = expanded_statements e doc in
      let f = not_fatal decode e st i s good in
      let g2 : (check_access_levels e (collect_expanded sts) i).verdict ≢ fail =
        semantic_passed decode e st i s good (check_access_levels e (collect_expanded sts) i)
          (rw (f, semantic_checks, In) (inr (inl refl))) in
      let (allowed, q, clean) = check_access_levels-passed e (collect_expanded sts) i g2 in
      (
        allowed,
        q,
        λ a h.
            actions_problems-nil e.ds allowed (tagging_opted i) (collect_expanded sts) a clean
              (rw (f, expanded_actions) at h),
      )

-- A denylist hit in the expansion is a problem of G3.
keep-nil : (q : Bytes → Bool) (xs : List Bytes) (x : Bytes) → keep q xs ≡ [] → In x xs → q x ≡ false
keep-nil q [] x h i = absurd i
keep-nil q (y ∷ ys) x h i = elim (Bool-cases (q y)) [
  | inl t ↦ ground arith
  | inr f ↦ elim i [ inl p ↦ rw p f | inr j ↦ keep-nil q ys x (ground arith) j ]
]

new-deny_services :
    (ds : Dataset) (cfg : Config) (e : Evaluator) (svc : Bytes)
    → new ds cfg ≡ ok e
    → In svc mandatory_deny_services
    → In svc e.deny_services
unfolding new
new-deny_services ds cfg e svc h i =
    elim (Checked-cases (access_level_set (configured_levels cfg))) [
      | inl (x, q) ↦ ground arith
      | inr (set, q) ↦
          let made : evaluator_of ds cfg set ≡ e = ground arith in
          subst (λ (x : Evaluator). In svc x.deny_services) made
            (In-append_left svc mandatory_deny_services (map normal cfg.extra_deny_services) i)
    ]

module _ {S : Type 0} (decode : Bytes → Option (Json × Bool)) (e : Evaluator)
    (st : Option (StateStore S)) (i : Input) (s : S) where
  -- If the evaluation lets the grant proceed, no action of the policy's expansion belongs to one of
  -- the fourteen services of the mandatory denylist, whatever the configuration.
  pub evaluate_ok_services :
      (ds : Dataset) (cfg : Config)
      → new ds cfg ≡ ok e
      → is_ok (evaluate decode e st i s).0 ≡ true
      → (svc : Bytes) → In svc (services_of (evaluate decode e st i s).0.expanded_actions)
      → ¬ In svc mandatory_deny_services
  unfolding evaluate semantic_checks parse_policy expanded_actions services_of
  evaluate_ok_services ds cfg made good svc h bad =
      let doc = parse_policy decode i.policy_json in
      let sts = expanded_statements e doc in
      let f = not_fatal decode e st i s good in
      let hits = keep (λ svc'. has svc' e.deny_services) (services_of (collect_expanded sts)) in
      let g3 : (check_service_denylist e sts (collect_expanded sts)).verdict ≢ fail =
        semantic_passed decode e st i s good (check_service_denylist e sts (collect_expanded sts))
          (rw (f, semantic_checks, In) (inr (inr (inl refl)))) in
      let clean : hits ++ raw_services e sts ≡ [] =
        not_failed service_denylist (hits ++ raw_services e sts)
          (unfold check_service_denylist in g3) in
      let free : has svc e.deny_services ≡ false =
        keep-nil (λ svc'. has svc' e.deny_services) (services_of (collect_expanded sts)) svc
          (append-eq-nil hits (raw_services e sts) clean).0 (rw (f, expanded_actions) at h) in
      ground (arith, free, In→has svc e.deny_services (new-deny_services ds cfg e svc made bad))
