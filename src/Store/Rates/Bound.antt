-- ===== src/Store/Rates/Bound.antt =====
-- How many tokens the bucket of a pair hands out, roundings included.
use native.Mathlib.Nat.{
  le_trans, mul-add, mul-le-mul_left, mul-le-mul_right, le_of_mul-le-mul_left, div-add-mod',
}
use taskgrant.Prelude.{
  ℕ, zero, suc, ◌+◌, ◌-◌, ◌*◌, ◌/◌, ◌%◌, ◌^◌, ◌≤◌, ◌<◌, ◌≡◌, refl, ap, ◌∙◌, Bool, true, false, ◌&&◌,
  ◌||◌, ◌⊎◌, inl, inr, Option, none, some, List, [], ◌∷◌, ◌==◌, ltb, leb, is_empty, arith,
  Bool-cases, if◌then◌else◌, Bytes,
}
use taskgrant.Prelude.Maps.{get, get-put}
use taskgrant.Prelude.Float.{
  Float64, least, one, float_of, add, mul, div, add-le, sub-le, round_ratio-le, round_ratio-normal,
}
use taskgrant.Store.{Reply, Key, same_key, same_key_iff}
use taskgrant.Store.Rates.{
  nanos_per_hour, Bucket, Buckets, hours, cap_at, refill, spend, take_token, Call, is_granted,
  granted, Ordered,
}

-- A factor that both sides of a rounding have.
cancel : (w v h x m o : ℕ) → 0 < o → w * (h * o * x) ≤ v * (m * o) → w * (h * x) ≤ v * m
cancel w v h x m o p le =
    let left : o * (w * (h * x)) ≡ w * (h * o * x) = omega arith in
    let right : o * (v * m) ≡ v * (m * o) = omega arith in
    le_of_mul-le-mul_left {k = o} (omega (arith, left, right, le)) p

-- The fraction of an hour.
fraction-le :
    (n : ℕ)
    → 2 * least * (nanos_per_hour * div (float_of n) (float_of nanos_per_hour))
      ≤ (2 * least + 1) * (n * one)
unfolding div
fraction-le zero = omega arith
fraction-le (suc n) =
    cancel (2 * least) (2 * least + 1) nanos_per_hour
      (div (float_of (suc n)) (float_of nanos_per_hour)) (suc n * one) one (omega arith)
      (round_ratio-normal (suc n * one * one) (nanos_per_hour * one) (omega arith))

hours-le :
    (n : ℕ)
    → 2 * least * (2 * least * (nanos_per_hour * hours n))
      ≤ (2 * least + 1) * ((2 * least + 1) * (n * one))
unfolding hours
hours-le n =
    let h = n / nanos_per_hour in
    let r = n % nanos_per_hour in
    omega (
      arith,
      fraction-le r,
      add-le (float_of h) (div (float_of r) (float_of nanos_per_hour)),
      div-add-mod' n nanos_per_hour,
    )

-- The tokens that flow in.
inflow-le :
    (rate n : ℕ)
    → 2 * least * (2 * least * (2 * least * (nanos_per_hour * mul (hours n) rate)))
      ≤ (2 * least + 1) * ((2 * least + 1) * ((2 * least + 1) * (rate * n)))
        + 2 * least * (2 * least * (nanos_per_hour * least))
unfolding mul
inflow-le rate n =
    let product : nanos_per_hour * hours n * rate ≡ nanos_per_hour * (hours n * rate) =
      omega arith in
    let times = mul-le-mul_right rate (hours-le n) in
    let rounded = round_ratio-le (hours n * rate) one in omega (arith, product, times, rounded)

abbrev level : Float64 → Option Bucket → Float64
level burst none = burst
level burst (some b) = b.tokens

abbrev Since : ℕ → Option Bucket → Type 0
Since u none = Unit
Since u (some b) = b.updated_at ≡ u

Ordered-le : (from : ℕ) (calls : List Call) (to : ℕ) → Ordered from calls to → from ≤ to
Ordered-le from [] to h = h
Ordered-le from ((k, now) ∷ calls) to (p, q) = le_trans p (Ordered-le now calls to q)

Ordered-earlier :
    (from now : ℕ) (calls : List Call) (to : ℕ)
    → from ≤ now
    → Ordered now calls to
    → Ordered from calls to
Ordered-earlier from now [] to p q = le_trans p q
Ordered-earlier from now ((k, n) ∷ calls) to p (q, r) = (le_trans p q, r)

-- A product over two stretches of time.
split_time :
    (rate u now to : ℕ)
    → u ≤ now
    → now ≤ to
    → rate * (to - u) ≡ rate * (now - u) + rate * (to - now)
split_time rate u now to p q =
    let e : to - u ≡ (now - u) + (to - now) = omega arith in
    ap (λ x. rate * x) e ∙ mul-add rate (now - u) (to - now)

refilled-le :
    (rate burst t n : ℕ)
    → one ≤ burst
    → 2 * least * (nanos_per_hour * cap_at burst (add t (mul (hours n) rate)))
      ≤ 2 * least * (nanos_per_hour * t) + (2 * least + 6) * (rate * n) + 2 * nanos_per_hour * burst
refilled-le rate burst t n b =
    let inflow = inflow-le rate n in
    let sum = add-le t (mul (hours n) rate) in ground (arith, inflow, sum)

refill-le :
    (rate burst u now : ℕ) (o : Option Bucket)
    → one ≤ burst
    → Since u o
    → (refill rate burst now o ≤ burst)
      × (2 * least * (nanos_per_hour * refill rate burst now o)
          ≤ 2 * least * (nanos_per_hour * level burst o)
            + (2 * least + 6) * (rate * (now - u))
            + 2 * nanos_per_hour * burst)
unfolding refill
refill-le rate burst u now none b h = (omega arith, omega arith)
refill-le rate burst u now (some r) b h = elim (Bool-cases (ltb r.updated_at now)) [
  | inl t ↦
      let same_time : rate * (now - r.updated_at) ≡ rate * (now - u) =
        ap (λ v. rate * (now - v)) h in
      let le = refilled-le rate burst r.tokens (now - r.updated_at) b in
      rw (t, refill) (ground arith, omega (arith, le, same_time))
  | inr f ↦ rw (f, refill) (ground arith, ground arith)
]

-- Whether a call grants a token to the pair.
abbrev counts : Key → Key → Reply Bool → Bool
counts j k reply = same_key j k && is_granted reply

-- How many of the calls ask for the pair.
abbrev pub asked : Key → List Call → ℕ
asked k [] = 0
asked k ((j, now) ∷ calls) = let n = asked k calls in if same_key j k then suc n else n

module _ (rate burst : Float64) (k : Key) where
  abbrev next_of : Key → ℕ → Buckets → Bool × Bucket
  next_of j now t = spend now (refill rate burst now (get same_key j t))

  abbrev next : ℕ → Buckets → Bool × Bucket
  next now t = next_of k now t

  -- A call leaves the row of the pair as it is, or takes one step on it.
  take_token-row :
      (a c : Bytes) (now : ℕ) (t : Buckets)
      → ((get same_key k (take_token a c rate burst now t).1 ≡ get same_key k t)
          × (counts (a, c) k (take_token a c rate burst now t).0 ≡ false))
        ⊎ ((get same_key k (take_token a c rate burst now t).1 ≡ some (next now t).1)
            × (counts (a, c) k (take_token a c rate burst now t).0 ≡ (next now t).0)
            × (same_key (a, c) k ≡ true))
  unfolding take_token
  take_token-row a c now t = elim (Bool-cases (is_empty a || is_empty c)) [
    | inl e ↦ inl (ground arith)
    | inr e ↦ elim (Bool-cases (rate == 0 || burst == 0)) [
      | inl r ↦ inl (ground arith)
      | inr r ↦ elim (Bool-cases (same_key (a, c) k)) [
        | inr n ↦ inl (
            ground (
              arith,
              get-put same_key same_key_iff (a, c) k
                  (spend now (refill rate burst now (get same_key (a, c) t))).1 t,
            ))
        | inl y ↦
            let own : (a, c) ≡ k = (same_key_iff (a, c) k).0 y in
            let after =
              get-put same_key same_key_iff (a, c) k
                (spend now (refill rate burst now (get same_key (a, c) t))).1 t in
            inr (
              ground (arith, after, ap (λ j. some (next_of j now t).1) own),
              ground (arith, ap (λ j. (next_of j now t).0) own),
              y,
            )
      ]
    ]
  ]

  next-level :
      (u now : ℕ) (t : Buckets)
      → one ≤ burst
      → Since u (get same_key k t)
      → 2
          * least
          * (nanos_per_hour * (one * (if (next now t).0 then 1 else 0) + (next now t).1.tokens))
        ≤ 2 * least * (nanos_per_hour * level burst (get same_key k t))
          + (2 * least + 6) * (rate * (now - u))
          + 3 * nanos_per_hour * burst
  unfolding spend
  next-level u now t b s =
      let (top, le) = refill-le rate burst u now (get same_key k t) b s in
      let x = refill rate burst now (get same_key k t) in
      elim (Bool-cases (leb one x)) [
        | inl g ↦
            let above : one ≤ x = ground (arith, g) in
            rw (g, spend) (omega (arith, top, le, sub-le x one, above))
        | inr g ↦ rw (g, spend) (omega (arith, top, le))
      ]

  granted-le :
      (u to : ℕ) (calls : List Call) (t : Buckets)
      → one ≤ burst
      → Ordered u calls to
      → Since u (get same_key k t)
      → 2 * least * (nanos_per_hour * (one * granted rate burst k calls t))
        ≤ 2 * least * (nanos_per_hour * level burst (get same_key k t))
          + (2 * least + 6) * (rate * (to - u))
          + 3 * nanos_per_hour * (burst * asked k calls)
  unfolding granted spend
  granted-le u to [] t b p s = omega arith
  granted-le u to (((a, c), now) ∷ calls) t b (p, q) s = elim (take_token-row a c now t) [
    | inl (kept, missed) ↦
        let ih =
          granted-le u to calls (take_token a c rate burst now t).1 b
            (Ordered-earlier u now calls to p q) (rw kept s) in
        let more : asked k calls ≤ asked k (((a, c), now) ∷ calls) = ground arith in
        let more_burst = mul-le-mul_left burst more in
        ground (arith, ih, missed, more_burst, ap (level burst) kept)
    | inr (moved, g, mine) ↦
        let ih = granted-le now to calls (take_token a c rate burst now t).1 b q (rw moved refl) in
        let later = split_time rate u now to p (Ordered-le now calls to q) in
        let one_more : asked k (((a, c), now) ∷ calls) ≡ suc (asked k calls) =
          ground (arith, mine) in
        let count : granted rate burst k (((a, c), now) ∷ calls) t
            ≡ (if (next now t).0 then 1 else 0)
              + granted rate burst k calls (take_token a c rate burst now t).1 =
          ground (arith, g) in
        let row : level burst (get same_key k (take_token a c rate burst now t).1)
            ≡ (next now t).1.tokens =
          ap (level burst) moved in
        omega (arith, ih, count, row, next-level u now t b s, later, ap (λ n. burst * n) one_more)
  ]

-- From an empty ledger on, with a burst of one token at least and with calls in the order of their
-- times, whatever other pairs ask for: the tokens that a pair is granted are at most the burst and
-- the rate times the hours between the first time and the last, where float64 rounding adds to the
-- inflow six parts in 2^53 at most, and to the burst three parts in 2^53 for each call of the pair.
pub granted_bound :
    (rate burst : Float64) (k : Key) (from to : ℕ) (calls : List Call)
    → one ≤ burst
    → Ordered from calls to
    → 2 ^ 53 * (nanos_per_hour * (one * granted rate burst k calls []))
      ≤ 2 ^ 53 * (nanos_per_hour * burst)
        + (2 ^ 53 + 6) * (rate * (to - from))
        + 3 * (nanos_per_hour * (burst * asked k calls))
granted_bound rate burst k from to calls b h =
    omega (arith, granted-le rate burst k from to calls [] b h tt)
