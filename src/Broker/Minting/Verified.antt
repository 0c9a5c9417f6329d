-- ===== src/Broker/Minting/Verified.antt =====
-- What STS is called with for a grant.
use taskgrant.Prelude.{
  ℕ, ◌*◌, ◌≤◌, ◌≡◌, refl, ap, ◌⊎◌, inl, inr, false, Option, none, some, List, [], ◌++◌, Bytes, same,
  is_empty, length, In, arith, Bool-cases, Option-cases,
}
use taskgrant.Prelude.Maps.{get}
use taskgrant.Mint.{AssumeRoleInput, assume_role_input, compacted, tighter, unless_empty}
use taskgrant.Mint.Calls.{mint_with_compact-calls, IsSent}
use taskgrant.Broker.{SynthResult, ProfileConfig, Deps, Entry, Broker}
use taskgrant.Broker.Minting.{
  CompactError, compact, compact_input, is_failed, is_policy, mint_grant, mint_request,
}

module _ (deps : Deps) (e : Entry) (b : Broker) where
  -- A policy that the synthesizer gave back for the result of the entry when it was asked for at most
  -- 80 percent of the characters of its policy, and that the guardrails then did not fail.
  abbrev pub IsReverified : ProfileConfig → Bytes → Type 0
  IsReverified profile policy =
      (res : SynthResult) × (max_chars : ℕ) × (deps.compact e.result max_chars ≡ some res)
      × (100 * max_chars ≤ 80 * length e.result.policy_json)
      × (policy ≡ res.policy_json)
      × (is_failed (deps.evaluate none (compact_input deps profile e res) b.durable).0 ≡ false)

  compact-IsReverified :
      (profile : ProfileConfig) (n : ℕ) (policy : Bytes) (arns : Option (List Bytes))
      → 100 * n ≤ 80 * length e.result.policy_json
      → (compact deps b profile n e).0 ≡ compacted policy arns
      → IsReverified profile policy
  unfolding compact
  compact-IsReverified profile n policy arns le h = elim (Option-cases (deps.compact e.result n)) [
    | inl q ↦ ground arith
    | inr (res, q) ↦ elim (Bool-cases (is_policy res.verdict)) [
      | inr v ↦ ground arith
      | inl v ↦ elim (Bool-cases (is_empty res.policy_json)) [
        | inl z ↦ ground arith
        | inr z ↦
            elim (Bool-cases
              (is_failed (deps.evaluate none (compact_input deps profile e res) b.durable).0)) [
                | inl f ↦ ground arith
                | inr f ↦ (res, n, q, le, ground arith, f)
              ]
      ]
    ]
  ]

  -- A call for the policy of the entry, or for one that was verified again.
  abbrev pub IsVerified : AssumeRoleInput → Type 0
  IsVerified i =
      (profile : ProfileConfig) × (get same e.profile deps.config.profiles ≡ some profile)
      × ((i.policy ≡ unless_empty e.result.policy_json)
          ⊎ ((policy : Bytes) × (i.policy ≡ unless_empty policy) × IsReverified profile policy))

  IsSent-IsVerified :
      (profile : ProfileConfig)
      → get same e.profile deps.config.profiles ≡ some profile
      → (i : AssumeRoleInput)
      → IsSent deps.parse_strict CompactError deps.client
          (mint_request deps profile e)
          (compact deps b profile)
          e
          i
      → IsVerified i
  unfolding mint_request assume_role_input
  IsSent-IsVerified profile q i (inl (ok, own)) =
      (profile, q, inl (ap (λ (j : AssumeRoleInput). j.policy) own))
  IsSent-IsVerified profile q i (inr (policy, arns, c, (ok, own))) = (
    profile,
    q,
    inr (
      policy,
      ap (λ (j : AssumeRoleInput). j.policy) own,
      compact-IsReverified profile (tighter (mint_request deps profile e)) policy arns (omega arith)
          c,
    ),
  )

  -- A mint calls STS twice at most, for a profile of the configuration, and each time with the
  -- policy of the grant, or with one that the synthesizer gave back for at most 80 percent of its
  -- characters and that the guardrails did not fail either.
  pub mint_grant-IsVerified :
      (new : List AssumeRoleInput) × ((mint_grant deps e b).1.1.calls ≡ new ++ b.calls)
      × (length new ≤ 2)
      × ((i : AssumeRoleInput) → In i new → IsVerified i)
  unfolding mint_grant
  mint_grant-IsVerified = elim (Option-cases (get same e.profile deps.config.profiles)) [
    | inl q ↦ ([], rw (q, mint_grant) refl, ground arith, λ i j. absurd j)
    | inr (profile, q) ↦
        let (new, eq, le, ok) =
          mint_with_compact-calls deps.parse_strict CompactError deps.client
            (mint_request deps profile e) (compact deps b profile) e b.calls in
        (new, rw (q, mint_grant) eq, le, λ i j. IsSent-IsVerified profile q i (ok i j))
  ]
