-- ===== src/Store.antt =====
-- The durable security state of internal/store/security.go. A table is the list of its rows, a time
-- its nanoseconds. The driver's own
-- failures, which change nothing, are left out.
pub mod Rates
pub mod FirstUse
pub mod Idempotency
pub mod Pending
pub mod Ledger
use taskgrant.Prelude.{
  ℕ, ◌≡◌, ◌↔◌, refl, ap, Bool, true, false, ◌&&◌, Bytes, same, same→eq, same_refl, arith,
}

pub data StoreError : Type 0 where
  missing_argument bad_rate invalid_status not_terminal bad_ttl not_found already_decided :
      StoreError
  duplicate_grant : StoreError

pub data Reply {ℓ} (A : Type ℓ) : Type ℓ where
  done : A → Reply A
  failed : StoreError → Reply A

-- An agent with a capability or an idempotency key.
abbrev pub Key : Type 0
Key = Bytes × Bytes

abbrev pub same_key : Key → Key → Bool
same_key (a, c) (b, d) = same a b && same c d

pub same_key_iff : (k j : Key) → (same_key k j ≡ true) ↔ (k ≡ j)
same_key_iff (a, c) (b, d) = (
  λ h. cc (same→eq a b (ground arith), same→eq c d (ground arith)),
  λ e. ground (arith, same_refl a, same_refl c, ap (λ x. same_key (a, c) x) e),
)
