-- ===== src/Mint/Calls.antt =====
-- What the minter sends to STS.
use taskgrant.Prelude.{
  ℕ, ◌≤◌, ◌≡◌, refl, sym, ap, ◌∙◌, Bool, true, ◌⊎◌, inl, inr, Option, List, [], ◌∷◌, ◌++◌, Bytes,
  length, In, In-append, length-append, arith, Option-cases,
}
use mathlib.Core.List.{append_assoc}
use taskgrant.Domain.Names.{validate_agent_id}
use taskgrant.Mint.{
  MintRequest, AssumeRoleInput, Calls, Client, Built, built, rejected, InputError,
  assume_role_input, build_assume_role_input, mint, mint_again, mint_with_compact, Compacted,
  compacted, not_compacted, min_mint_seconds, max_mint_seconds, max_policy_arns, tighter,
  with_policy, is_too_large,
}

module _ (parse_strict : Bytes → Bool) where
  -- A request that STS accepts: a grant id and an agent id that parse, a duration of 900 to 43200
  -- seconds, and ten policy ARNs at most.
  abbrev pub IsAccepted : MintRequest → Type 0
  IsAccepted req =
      (parse_strict req.grant_id ≡ true)
      × (validate_agent_id req.agent_id ≡ true)
      × (min_mint_seconds ≤ req.duration_seconds)
      × (req.duration_seconds ≤ max_mint_seconds)
      × (length req.policy_arns ≤ max_policy_arns)

  abbrev pub IsCall : MintRequest → AssumeRoleInput → Type 0
  IsCall req input = IsAccepted req × (input ≡ assume_role_input req)

  Built-cases :
      (b : Built) → ((e : InputError) × (b ≡ rejected e)) ⊎ ((i : AssumeRoleInput) × (b ≡ built i))
  Built-cases (rejected e) = inl (e, refl)
  Built-cases (built i) = inr (i, refl)

  build_assume_role_input-IsCall :
      (req : MintRequest) (input : AssumeRoleInput)
      → build_assume_role_input parse_strict req ≡ built input
      → IsCall req input
  unfolding build_assume_role_input
  build_assume_role_input-IsCall req input h = ground arith

  pub Compacted-cases :
      {E : Type 0} (c : Compacted E)
      → ((e : E) × (c ≡ not_compacted e))
        ⊎ ((policy : Bytes) × (arns : Option (List Bytes)) × (c ≡ compacted policy arns))
  Compacted-cases (not_compacted e) = inl (e, refl)
  Compacted-cases (compacted policy arns) = inr (policy, arns, refl)

  module _ (E : Type 0) (client : Client) where
    mint-calls :
        (req : MintRequest) (calls : Calls)
        → (new : Calls) × ((mint parse_strict {E = E} client req calls).1 ≡ new ++ calls)
          × (length new ≤ 1)
          × ((i : AssumeRoleInput) → In i new → IsCall req i)
    unfolding mint
    mint-calls req calls = elim (Built-cases (build_assume_role_input parse_strict req)) [
      | inl (e, q) ↦ ([], rw (q, mint) refl, omega arith, λ i j. absurd j)
      | inr (input, q) ↦ (
        input ∷ [],
        rw (q, mint) refl,
        omega arith,
        λ i j. elim j [
          | inl o ↦ rw o (build_assume_role_input-IsCall req input q)
          | inr k ↦ absurd k
        ],
      )
    ]

    mint_again-calls :
        (first : ℕ × ℕ) (req : MintRequest) (calls : Calls)
        → (mint_again parse_strict {E = E} client first req calls).1
          ≡ (mint parse_strict {E = E} client req calls).1
    unfolding mint_again
    mint_again-calls first req calls =
        elim (Option-cases (is_too_large (mint parse_strict {E = E} client req calls).0)) [
          | inl q ↦ rw (q, mint_again) refl
          | inr (n, q) ↦ rw (q, mint_again) refl
        ]

    module _ {S : Type 0} (req : MintRequest) (compact : ℕ → S → Compacted E × S) (s : S) where
      -- A call that the protocol may make: for the request, or for it with a policy that the
      -- compaction gave back for four fifths of the size.
      abbrev pub IsSent : AssumeRoleInput → Type 0
      IsSent input =
          IsCall req input
          ⊎ ((policy : Bytes) × (arns : Option (List Bytes)) × ((compact (tighter req) s).0
                ≡ compacted policy arns)
              × IsCall (with_policy req policy arns) input)

      abbrev after : Calls → Calls
      after calls = (mint_with_compact parse_strict {E = E} client req compact s calls).1.1

      compact_calls :
          (calls : Calls)
          → (after calls ≡ (mint parse_strict {E = E} client req calls).1)
            ⊎ ((policy : Bytes) × (arns : Option (List Bytes)) × ((compact (tighter req) s).0
                  ≡ compacted policy arns)
                × (after calls
                    ≡ (mint parse_strict {E = E} client
                        (with_policy req policy arns)
                        (mint parse_strict {E = E} client req calls).1).1))
      unfolding mint_with_compact
      compact_calls calls =
          elim (Option-cases (is_too_large (mint parse_strict {E = E} client req calls).0)) [
            | inl q ↦ inl (rw (q, mint_with_compact, after) refl)
            | inr (first, q) ↦ elim (Compacted-cases (compact (tighter req) s).0) [
              | inl (e, c) ↦ inl (rw (q, c, mint_with_compact, after) refl)
              | inr (policy, arns, c) ↦ inr (
                policy,
                arns,
                c,
                rw (q, c, mint_with_compact, after)
                    (mint_again-calls first (with_policy req policy arns)
                      (mint parse_strict {E = E} client req calls).1),
              )
            ]
          ]

      -- Whatever STS answers and the compaction gives back, a grant makes two calls at most, each for
      -- the request itself or for it under the compacted policy, with a grant id and an agent id that
      -- parse, a duration of 900 to 43200 seconds and ten policy ARNs at most.
      pub mint_with_compact-calls :
          (calls : Calls)
          → (new : Calls) × ((mint_with_compact parse_strict {E = E} client req compact s calls).1.1
              ≡ new ++ calls)
            × (length new ≤ 2)
            × ((i : AssumeRoleInput) → In i new → IsSent i)
      mint_with_compact-calls calls =
          let (new, e, le, ok) = mint-calls req calls in
          elim (compact_calls calls) [
            | inl q ↦ (new, q ∙ e, omega (arith, le), λ i j. inl (ok i j))
            | inr (policy, arns, c, q) ↦
                let retry = with_policy req policy arns in
                let (more, e', le', ok') =
                  mint-calls retry (mint parse_strict {E = E} client req calls).1 in
                (
                  more ++ new,
                  q ∙ e' ∙ ap (λ cs. more ++ cs) e ∙ sym (append_assoc more new calls),
                  omega (arith, le, le', length-append more new),
                  λ i j. elim (In-append i more new j) [
                    | inl k ↦ inr (policy, arns, c, ok' i k)
                    | inr k ↦ inl (ok i k)
                  ],
                )
          ]
