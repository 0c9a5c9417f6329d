-- ===== src/Broker/Minting/Duration.antt =====
-- The duration that a grant gets where no guardrail has clamped it.
use taskgrant.Prelude.{ℕ, ◌≤◌, ◌≡◌, ◌⊎◌, Bool, true, false, arith}
use taskgrant.Guardrails.Evaluator.{duration_floor_seconds, chained_duration_cap_seconds}
use taskgrant.Broker.Minting.{fallback_duration}

-- It is never under the floor of 900 seconds; it keeps the profile's cap where that is set, and the
-- cap of a chained broker, unless the cap lies under the floor; and if the configured default is
-- between the floor and the caps, it is that default.
pub fallback_duration_bounds :
    (default cap : ℕ) (chained : Bool)
    → (duration_floor_seconds ≤ fallback_duration default cap chained)
      × (duration_floor_seconds ≤ cap → fallback_duration default cap chained ≤ cap)
      × (chained ≡ true → fallback_duration default cap chained ≤ chained_duration_cap_seconds)
      × (duration_floor_seconds ≤ default
          → (cap ≡ 0) ⊎ (default ≤ cap)
          → (chained ≡ false) ⊎ (default ≤ chained_duration_cap_seconds)
          → fallback_duration default cap chained ≡ default)
unfolding fallback_duration
fallback_duration_bounds default cap chained = ground arith
