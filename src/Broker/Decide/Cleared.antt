-- ===== src/Broker/Decide/Cleared.antt =====
-- When a request reaches STS without a human.
use taskgrant.Prelude.{
  ℕ, ◌≤◌, ◌≡◌, ◌≢◌, refl, ap, ◌∙◌, ◌⊎◌, inl, inr, true, false, Option, none, some, List, [], ◌∷◌,
  ◌++◌, Bytes, is_empty, length, In, arith, Bool-cases, Option-cases,
}
use taskgrant.Domain.Codes.{DenialCode}
use taskgrant.Domain.State.{State}
use taskgrant.Guardrails.{Result}
use taskgrant.Mint.{AssumeRoleInput}
use taskgrant.Store.{Reply, StoreError, done, failed}
use taskgrant.Store.Ledger.{Durable, state_adapter}
use taskgrant.Approvals.{submit}
use taskgrant.Broker.{SynthResult, ProfileConfig, Snapshot, Deps, Entry, Broker, View}
use taskgrant.Broker.Entries.{set_state_locked, append_record}
use taskgrant.Broker.Rules.{declared_actions, declared_action_set, approval_rule_required}
use taskgrant.Broker.Rules.Covered.{IsDeclared, uncovered_actions-IsDeclared}
use taskgrant.Broker.Minting.{
  GrantMint, GrantMintError, grant_minted, grant_not_minted, mint_grant, is_failed,
}
use taskgrant.Broker.Minting.Verified.{IsVerified, mint_grant-IsVerified}
use taskgrant.Broker.Pipeline.{
  deny_entry, deny_entry_mint, after_mint, pending_row, park_for_approval, record_error,
}
use taskgrant.Broker.Decide.{
  is_pending_verdict, is_needs_approval, approval_check, seam_of, check_of_result, extra_of,
  or_else, required_by, guardrail_input, auto_approve, route, verify_and_decide,
}

pub deny_entry-calls :
    (now : ℕ) (code : DenialCode) (e : Entry) (b : Broker)
    → (deny_entry now code e b).1.calls ≡ b.calls
unfolding deny_entry append_record
deny_entry-calls now code e b = refl

is_empty-nil : {A : Type 0} (xs : List A) → is_empty xs ≡ true → xs ≡ []
is_empty-nil [] h = refl
is_empty-nil (x ∷ xs) h = ground arith

pub Reply-cases :
    {A : Type 0} (r : Reply A) → ((x : StoreError) × (r ≡ failed x)) ⊎ ((a : A) × (r ≡ done a))
Reply-cases (failed x) = inl (x, refl)
Reply-cases (done a) = inr (a, refl)

park_for_approval-calls :
    (now : ℕ) (res : SynthResult) (reason : Bytes) (e : Entry) (b : Broker)
    → (park_for_approval now res reason e b).1.calls ≡ b.calls
unfolding park_for_approval append_record record_error
park_for_approval-calls now res reason e b =
    elim (Reply-cases (submit now (pending_row now res reason e) b.approvals).0) [
      | inl (x, q) ↦ rw (q, park_for_approval) refl
      | inr (row, q) ↦ rw (q, park_for_approval) refl
    ]

GrantMint-cases :
    (m : GrantMint)
    → ((x : GrantMintError) × (m ≡ grant_not_minted x)) ⊎ ((k : _) × (m ≡ grant_minted k))
GrantMint-cases (grant_not_minted x) = inl (x, refl)
GrantMint-cases (grant_minted k) = inr (k, refl)

module _ (deps : Deps) (now : ℕ) where
  -- The entry that is minted.
  abbrev pub approved_entry : Entry → Entry
  approved_entry e = record (set_state_locked State.auto_approved e) { decided_at = now }

  auto_approve-calls :
      (e : Entry) (b : Broker)
      → (auto_approve deps now e b).1.calls ≡ (mint_grant deps (approved_entry e) b).1.1.calls
  unfolding auto_approve deny_entry_mint append_record after_mint
  auto_approve-calls e b = elim (GrantMint-cases (mint_grant deps (approved_entry e) b).0) [
    | inl (x, q) ↦ rw (q, auto_approve) refl
    | inr (m, q) ↦ rw (q, auto_approve) refl
  ]

  or_else-none : (o p : Option Bytes) → or_else o p ≡ none → (o ≡ none) × (p ≡ none)
  or_else-none none p h = (refl, h)
  or_else-none (some r) p h = ground arith

  uncovered-IsDeclared :
      (res : SynthResult) (expanded : List Bytes)
      → is_empty (extra_of (declared_action_set deps.catalog res.capabilities) expanded) ≡ true
      → (snap : Snapshot) → deps.catalog ≡ some snap
      → (a : Bytes) → In a expanded
      → IsDeclared snap res.capabilities a
  unfolding declared_action_set
  uncovered-IsDeclared res expanded h snap q a i =
      uncovered_actions-IsDeclared snap res.capabilities expanded
        (is_empty-nil (extra_of (some (declared_actions snap res.capabilities)) expanded)
          (rw q at h))
        a i

  module _ (res : SynthResult) (trace : Option (List Bytes)) where
    -- What the routing asks of an entry before it mints.
    pub record IsCleared (gres : Result) (e : Entry) : Type 0 where
      pub passed : is_failed gres ≡ false
      pub declared :
          (snap : Snapshot)
          → deps.catalog ≡ some snap
          → (a : Bytes) → In a gres.expanded_actions
          → IsDeclared snap res.capabilities a
      pub not_pending : is_pending_verdict res.verdict ≡ false
      pub no_check : is_needs_approval gres.overall ≡ true → approval_check gres.checks ≡ none
      pub no_rule :
          (i : ℕ)
          → approval_rule_required deps.dataset deps.config.rules e.agent_id e.profile res
            ≢ some (i, true)

    required_by-IsCleared :
        (gres : Result) (e : Entry)
        → required_by deps res trace gres e ≡ none
        → (is_pending_verdict res.verdict ≡ false)
          × (is_needs_approval gres.overall ≡ true → approval_check gres.checks ≡ none)
          × ((i : ℕ)
              → approval_rule_required deps.dataset deps.config.rules e.agent_id e.profile res
                ≢ some (i, true))
    unfolding required_by
    required_by-IsCleared gres e h =
        let (seam, later) = or_else-none (seam_of res trace) _ h in
        let (check, rule) = or_else-none (check_of_result gres) _ later in
        (ground (arith, seam), λ n. ground (arith, n, check), λ i q. ground (arith, rw q at rule))

    route-IsCleared :
        (gres : Result) (e : Entry) (b : Broker)
        → ((route deps now res trace gres e b).1.calls ≡ b.calls)
          ⊎ (IsCleared gres e × ((route deps now res trace gres e b) ≡ auto_approve deps now e b))
    unfolding route
    route-IsCleared gres e b = elim (Bool-cases (is_failed gres)) [
      | inl f ↦ inl (rw (f, route) (deny_entry-calls now _ e b))
      | inr p ↦
          elim (Bool-cases (
            is_empty (
              extra_of (declared_action_set deps.catalog res.capabilities)
                gres.expanded_actions))) [
                  | inr x ↦ inl (rw (p, x, route) (deny_entry-calls now _ e b))
                  | inl x ↦ elim (Option-cases (required_by deps res trace gres e)) [
                    | inr (reason, q) ↦
                        inl (rw (p, x, q, route) (park_for_approval-calls now res reason e b))
                    | inl q ↦
                        let (seam, check, rule) = required_by-IsCleared gres e q in
                        inr (
                          record {
                            passed = p;
                            declared = uncovered-IsDeclared res gres.expanded_actions x;
                            not_pending = seam;
                            no_check = check;
                            no_rule = rule;
                          },
                          rw (p, x, q, route) refl,
                        )
                  ]
                ]
    ]

    module _ (profile : ProfileConfig) (e : Entry) (b : Broker) where
      -- The entry in the guardrails, their result, and the entry and the broker behind them.
      abbrev pub checked_entry : Entry
      checked_entry = set_state_locked State.guardrails e

      abbrev pub checks : Result × Durable
      checks =
          deps.evaluate (some (state_adapter now)) (guardrail_input deps res profile checked_entry)
            b.durable

      abbrev pub routed_entry : Entry
      routed_entry = record checked_entry {
        effective_seconds = checks.0.effective_duration_seconds;
      }

      abbrev pub routed_broker : Broker
      routed_broker = record b { durable = checks.1 }

      -- A request reaches STS without a human only if its policy is not empty, the guardrails did not
      -- fail it, each action that they found in it belongs to a declared capability of the catalog
      -- (where there is one), and neither the synthesizer nor a check nor a rule of the configuration
      -- asked for an approval. It then makes two calls at most, each with the policy of the grant,
      -- or with one that the synthesizer gave back for at most 80 percent of its characters and that the
      -- guardrails did not fail either.
      pub verify_and_decide-IsCleared :
          ((verify_and_decide deps now res trace profile e b).1.calls ≡ b.calls)
          ⊎ ((is_empty res.policy_json ≡ false)
              × IsCleared checks.0 routed_entry
              × ((new : List AssumeRoleInput) × ((verify_and_decide deps now res trace profile e
                      b).1.calls
                    ≡ new ++ b.calls)
                  × (length new ≤ 2)
                  × ((i : AssumeRoleInput)
                      → In i new
                      → IsVerified deps (approved_entry routed_entry) routed_broker i)))
      unfolding verify_and_decide
      verify_and_decide-IsCleared = elim (Bool-cases (is_empty res.policy_json)) [
        | inl z ↦ inl (rw (z, verify_and_decide) (deny_entry-calls now _ checked_entry b))
        | inr p ↦ elim (route-IsCleared checks.0 routed_entry routed_broker) [
          | inl same_calls ↦ inl (rw (p, verify_and_decide) same_calls)
          | inr (cleared, auto) ↦
              let (new, eq, le, ok) =
                mint_grant-IsVerified deps (approved_entry routed_entry) routed_broker in
              inr (
                p,
                cleared,
                (
                  new,
                  rw (p, verify_and_decide)
                      (ap (λ (r : View × Broker). r.1.calls) auto
                        ∙ auto_approve-calls routed_entry routed_broker
                        ∙ eq),
                  le,
                  ok,
                ),
              )
        ]
      ]
