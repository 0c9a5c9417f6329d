-- ===== src/Store/Ledger.antt =====
-- The ledger of capability uses in internal/store/security.go, and the state adapter of
-- internal/broker/rules.go that gives the guardrails their durable state.
pub mod Creep
use taskgrant.Prelude.{
  ℕ, ◌+◌, ◌≤◌, ◌≡◌, refl, ap, Bool, true, false, ◌&&◌, ◌||◌, not, ◌⊎◌, inl, inr, Option, none, some,
  List, [], ◌∷◌, ◌++◌, map, ltb, Bytes, same, same_refl, is_empty, keep, length, In,
  In-append_right, add_all, add_all-In, arith, Bool-cases, Option-cases, if◌then◌else◌,
}
use taskgrant.Store.{Reply, done, failed, missing_argument}
use taskgrant.Prelude.Float.{float_of}
use taskgrant.Store.Rates.{Buckets, take_token}
use taskgrant.Guardrails.Evaluator.{rate_tokens_per_hour}
use taskgrant.Guardrails.State.{StateStore}

pub record Use : Type 0 where
  pub agent : Bytes
  pub capability : Bytes
  pub used_at : ℕ

abbrev pub nanos_per_day : ℕ
nanos_per_day = 86400000000000

-- `agent = ? AND used_at > now - 24h`.
abbrev pub is_recent : Bytes → ℕ → Use → Bool
is_recent agent now u = same u.agent agent && ltb now (u.used_at + nanos_per_day)

-- The distinct capabilities that the query counts.
unfoldable pub recent : Bytes → ℕ → List Use → List Bytes
recent agent now uses =
    add_all [] (map (λ (u : Use). u.capability) (keep (is_recent agent now) uses))

unfoldable pub distinct_capabilities_24h : Bytes → ℕ → List Use → ℕ
distinct_capabilities_24h agent now uses = length (recent agent now uses)

-- `DELETE … WHERE used_at < now - 48h` keeps the others.
abbrev pub is_fresh : ℕ → Use → Bool
is_fresh now u = not (ltb (u.used_at + (nanos_per_day + nanos_per_day)) now)

abbrev pub used : Bytes → Bytes → ℕ → Use
used agent capability now = record { agent = agent; capability = capability; used_at = now }

unfoldable pub record_capability_use : Bytes → Bytes → ℕ → List Use → Reply (Unit {0}) × List Use
record_capability_use agent capability now uses =
    if is_empty agent || is_empty capability
    then (failed missing_argument, uses)
    else (done tt, keep (is_fresh now) (uses ++ used agent capability now ∷ []))

pub record Durable : Type 0 where
  pub buckets : Buckets
  pub uses : List Use

abbrev pub value {ℓ} : {A : Type ℓ} → Reply A → Option A
value (done a) = some a
value (failed e) = none

unfoldable pub record_all : Bytes → List Bytes → ℕ → List Use → Reply (Unit {0}) × List Use
record_all agent [] now uses = (done tt, uses)
record_all agent (id ∷ ids) now uses =
    let (reply, uses') = record_capability_use agent id now uses in
    elim reply [ failed e ↦ (failed e, uses') | done u ↦ record_all agent ids now uses' ]

unfoldable pub count_with : Bytes → List Bytes → ℕ → List Use → Option ℕ × List Use
count_with agent ids now uses =
    let (reply, uses') = record_all agent ids now uses in
    elim reply [
      | failed e ↦ (none, uses')
      | done u ↦ (some (distinct_capabilities_24h agent now uses'), uses')
    ]

-- Rate and burst are both `RateTokensPerHour`.
abbrev pub state_adapter : ℕ → StateStore Durable
state_adapter now = record {
  take_token = λ agent capability s.
      let (reply, buckets) =
        take_token agent capability (float_of rate_tokens_per_hour) (float_of rate_tokens_per_hour)
          now s.buckets in
      (value reply, record s { buckets = buckets });
  distinct_capability_count = λ agent ids s.
      let (n, uses) = count_with agent ids now s.uses in (n, record s { uses = uses });
}

keep-keep :
    (p q : Use → Bool) (us : List Use)
    → ((u : Use) → p u ≡ true → q u ≡ true)
    → keep p (keep q us) ≡ keep p us
keep-keep p q [] h = refl
keep-keep p q (u ∷ us) h = ground (arith, keep-keep p q us h, h u)

-- Dropping uses older than two days changes no count: at any later time the distinct capabilities
-- after a recorded use are those of the uses before it with the new one.
pub record_capability_use-recent :
    (agent capability other : Bytes) (now later : ℕ) (uses : List Use)
    → (is_empty agent || is_empty capability) ≡ false
    → now ≤ later
    → recent other later (record_capability_use agent capability now uses).1
      ≡ recent other later (uses ++ used agent capability now ∷ [])
unfolding recent record_capability_use
record_capability_use-recent agent capability other now later uses named le = rw named (
    ap (λ us. add_all [] (map (λ (u : Use). u.capability) us))
      (keep-keep (is_recent other later) (is_fresh now) (uses ++ used agent capability now ∷ [])
        (λ u r. ground arith)))
