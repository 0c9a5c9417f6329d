-- ===== src/Broker/Minting/Kept.antt =====
-- What a mint does not touch.
use taskgrant.Prelude.{
  ℕ, ◌≡◌, refl, ◌⊎◌, inl, inr, Bool, none, Bytes, same, is_empty, Bool-cases, Option-cases,
}
use taskgrant.Prelude.Maps.{get}
use taskgrant.Mint.{
  MintRequest, Compacted, Calls, Client, mint, mint_with_compact, is_too_large, tighter,
}
use taskgrant.Mint.Calls.{Compacted-cases}
use taskgrant.Broker.{ProfileConfig, Deps, Entry, Broker}
use taskgrant.Broker.Minting.{
  compact, compact_input, is_failed, is_policy, mint_grant, mint_request,
}

-- The compaction is the only thing that changes what it threads.
mint_with_compact-side :
    (parse_strict : Bytes → Bool) (client : Client) {E S : Type 0} (req : MintRequest)
    (compact : ℕ → S → Compacted E × S) (s : S) (calls : Calls)
    → ((mint_with_compact parse_strict client req compact s calls).1.0 ≡ s)
      ⊎ ((mint_with_compact parse_strict client req compact s calls).1.0
          ≡ (compact (tighter req) s).1)
unfolding mint_with_compact
mint_with_compact-side parse_strict client {E} req compact s calls =
    elim (Option-cases (is_too_large (mint parse_strict {E = E} client req calls).0)) [
      | inl q ↦ inl (rw (q, mint_with_compact) refl)
      | inr (first, q) ↦ elim (Compacted-cases parse_strict (compact (tighter req) s).0) [
        | inl (e, c) ↦ inr (rw (q, c, mint_with_compact) refl)
        | inr (policy, arns, c) ↦ inr (rw (q, c, mint_with_compact) refl)
      ]
    ]

abbrev pub IsKept : Entry → Entry → Type 0
IsKept e e' = (e'.grant_id ≡ e.grant_id) × (e'.agent_id ≡ e.agent_id) × (e'.state ≡ e.state)

compact-IsKept :
    (deps : Deps) (b : Broker) (profile : ProfileConfig) (n : ℕ) (e : Entry)
    → IsKept e (compact deps b profile n e).1
unfolding compact
compact-IsKept deps b profile n e = elim (Option-cases (deps.compact e.result n)) [
  | inl q ↦ rw (q, compact) (refl, refl, refl)
  | inr (res, q) ↦ elim (Bool-cases (is_policy res.verdict)) [
    | inr v ↦ rw (q, v, compact) (refl, refl, refl)
    | inl v ↦ elim (Bool-cases (is_empty res.policy_json)) [
      | inl z ↦ rw (q, v, z, compact) (refl, refl, refl)
      | inr z ↦
          elim (Bool-cases
            (is_failed (deps.evaluate none (compact_input deps profile e res) b.durable).0)) [
              | inl f ↦ rw (q, v, z, f, compact) (refl, refl, refl)
              | inr f ↦ rw (q, v, z, f, compact) (refl, refl, refl)
            ]
    ]
  ]
]

pub mint_grant-IsKept :
    (deps : Deps) (e : Entry) (b : Broker)
    → IsKept e (mint_grant deps e b).1.0
      × ((mint_grant deps e b).1.1.log ≡ b.log)
      × ((mint_grant deps e b).1.1.grants ≡ b.grants)
unfolding mint_grant
mint_grant-IsKept deps e b = elim (Option-cases (get same e.profile deps.config.profiles)) [
  | inl q ↦ rw (q, mint_grant) ((refl, refl, refl), refl, refl)
  | inr (profile, q) ↦ (
    elim (mint_with_compact-side deps.parse_strict deps.client (mint_request deps profile e)
        (compact deps b profile) e b.calls) [
          | inl s ↦ rw (q, mint_grant, s) (refl, refl, refl)
          | inr s ↦
              rw (q, mint_grant, s)
                (compact-IsKept deps b profile (tighter (mint_request deps profile e)) e)
        ],
    rw (q, mint_grant) refl,
    rw (q, mint_grant) refl,
  )
]
