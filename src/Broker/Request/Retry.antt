-- ===== src/Broker/Request/Retry.antt =====
-- What a retry token can do.
use taskgrant.Prelude.{
  ℕ, ◌≡◌, refl, ◌⊎◌, inl, inr, true, false, ◌&&◌, some, ◌==◌, Bytes, same, same→eq, is_empty, arith,
  Bool-cases, Option-cases,
}
use taskgrant.Broker.{GrantRequest, Deps, Broker}
use taskgrant.Broker.Request.{Target, peek_retry_token, retry_target, retry_grant, request_grant}

module _ (deps : Deps) (now : ℕ) (fresh agent : Bytes) (req : GrantRequest) (b : Broker) where
  -- A request with a retry token changes the broker (its grants, queue, ledgers, log and calls of STS)
  -- only if the token names a grant of the same agent that is in an open clarification round, and
  -- this round.
  pub request_grant-retry :
      is_empty req.retry_token ≡ false
      → ((request_grant deps now fresh agent req b).1 ≡ b)
        ⊎ ((g : Bytes) × (round : ℕ) × (peek_retry_token deps.decode_token deps.parse_strict
                req.retry_token
              ≡ some (g, round))
            × ((t : Target) × (retry_target g b ≡ some t)
                × (t.owner ≡ agent)
                × (t.is_open ≡ true)
                × (t.open_round ≡ round)))
  unfolding request_grant retry_grant
  request_grant-retry h =
      elim (Option-cases (peek_retry_token deps.decode_token deps.parse_strict req.retry_token)) [
        | inl q ↦ inl (rw (h, q, request_grant) refl)
        | inr ((g, round), q) ↦ elim (Option-cases (retry_target g b)) [
          | inl t ↦ inl (rw (h, q, t, request_grant, retry_grant) refl)
          | inr (t, eq) ↦ elim (Bool-cases (same t.owner agent)) [
            | inr n ↦ inl (rw (h, q, eq, n, request_grant, retry_grant) refl)
            | inl own ↦ elim (Bool-cases (t.is_open && round == t.open_round)) [
              | inr n ↦ inl (rw (h, q, eq, own, n, request_grant, retry_grant) refl)
              | inl y ↦ inr (
                g,
                round,
                q,
                (t, eq, same→eq t.owner agent own, ground (arith, y), ground (arith, y)),
              )
            ]
          ]
        ]
      ]
