-- ===== src/Store/Rates.antt =====
-- `TakeToken` of internal/store/security.go. Tokens, rate and burst are float64, and each
-- operation rounds; a platform that fuses the product and the sum, as Go permits, rounds once less.
pub mod Bound
use taskgrant.Prelude.{
  ℕ, suc, ◌-◌, ◌/◌, ◌%◌, ◌≤◌, Bool, false, ◌&&◌, ◌||◌, Option, none, some, List, [], ◌∷◌, ◌==◌, ltb,
  leb, Bytes, is_empty, if◌then◌else◌,
}
use taskgrant.Prelude.Maps.{get, put}
use taskgrant.Prelude.Float.{Float64, one, float_of, add, sub, mul, div}
use taskgrant.Store.{Reply, done, failed, missing_argument, bad_rate, Key, same_key}

abbrev pub nanos_per_hour : ℕ
nanos_per_hour = 3600000000000

pub record Bucket : Type 0 where
  pub tokens : Float64
  pub updated_at : ℕ

abbrev pub Buckets : Type 0
Buckets = List (Key × Bucket)

-- `Duration.Hours`.
unfoldable pub hours : ℕ → Float64
hours elapsed =
    add (float_of (elapsed / nanos_per_hour))
      (div (float_of (elapsed % nanos_per_hour)) (float_of nanos_per_hour))

abbrev pub cap_at : Float64 → Float64 → Float64
cap_at limit n = if ltb limit n then limit else n

-- The `switch` on the row: the tokens before the test.
unfoldable pub refill : Float64 → Float64 → ℕ → Option Bucket → Float64
refill rate burst now none = burst
refill rate burst now (some b) = cap_at burst (
    if ltb b.updated_at now then add b.tokens (mul (hours (now - b.updated_at)) rate) else b.tokens)

-- From the row on: the answer and the row written.
unfoldable pub spend : ℕ → Float64 → Bool × Bucket
spend now tokens =
    let allowed = leb one tokens in
    (allowed, record { tokens = if allowed then sub tokens one else tokens; updated_at = now })

unfoldable pub take_token : Bytes → Bytes → Float64 → Float64 → ℕ → Buckets → Reply Bool × Buckets
take_token agent capability rate burst now t =
    if is_empty agent || is_empty capability
    then (failed missing_argument, t)
    else if rate == 0 || burst == 0
    then (failed bad_rate, t)
    else let (allowed, row) =
        spend now (refill rate burst now (get same_key (agent, capability) t)) in
      (done allowed, put same_key (agent, capability) row t)

abbrev pub Call : Type 0
Call = Key × ℕ

abbrev pub is_granted : Reply Bool → Bool
is_granted (done b) = b
is_granted (failed e) = false

-- How many of the calls grant a token to one pair.
unfoldable pub granted : ℕ → ℕ → Key → List Call → Buckets → ℕ
granted rate burst k [] t = 0
granted rate burst k (((a, c), now) ∷ calls) t =
    let (reply, t') = take_token a c rate burst now t in
    let n = granted rate burst k calls t' in
    if same_key (a, c) k && is_granted reply then suc n else n

-- The calls come in the order of their times, from one time to another.
abbrev pub Ordered : ℕ → List Call → ℕ → Type 0
Ordered from [] to = from ≤ to
Ordered from ((k, now) ∷ calls) to = (from ≤ now) × Ordered now calls to
