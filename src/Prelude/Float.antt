-- ===== src/Prelude/Float.antt =====
-- The float64 of Go, as far as the sources compute with it: finite and not negative. A number is the
-- count of the least subnormal, 2^-1074, that it stands for, and an operation rounds the exact result
-- to the nearest number of 53 bits, a tie to the even one. A result past the largest float64 does
-- not become infinite.
use native.Mathlib.Nat.{div-add-mod', mul-le-mul_right, add-mul, mul_comm, mul_assoc}
use taskgrant.Prelude.{
  ℕ, ◌+◌, ◌-◌, ◌*◌, ◌/◌, ◌%◌, ◌^◌, ◌≤◌, ◌≡◌, refl, ap, ◌∙◌, ◌⊎◌, inl, inr, List, [], ◌∷◌, ◌==◌, ltb,
  leb, arith, Bool-cases, if◌then◌else◌,
}

abbrev pub Float64 : Type 0
Float64 = ℕ

-- The least number of 53 bits, 2^52.
abbrev pub least : ℕ
least = 4503599627370496

-- The step between the numbers of 53 bits around `n / d`, by its factors.
unfoldable pub ulp : List ℕ → ℕ → ℕ → ℕ → ℕ
ulp [] u n d = u
ulp (w ∷ ws) u n d = ulp ws (if leb (least * (u * w * d)) n then u * w else u) n d

abbrev steps : List ℕ
steps =
    2 ^ 1024
    ∷ 2 ^ 512
    ∷ 2 ^ 256
    ∷ 2 ^ 128
    ∷ 2 ^ 64
    ∷ 2 ^ 32
    ∷ 2 ^ 16
    ∷ 2 ^ 8
    ∷ 2 ^ 4
    ∷ 2 ^ 2
    ∷ 2 ^ 1
    ∷ []

-- To the nearest, ties to even, of a quotient with its remainder `r` by `m`.
abbrev nearest : ℕ → ℕ → ℕ → ℕ
nearest q r m = if ltb m (2 * r) then q + 1 else if 2 * r == m then q + q % 2 else q

-- `n / d` rounded to a multiple of `u`.
unfoldable pub round_to : ℕ → ℕ → ℕ → ℕ
round_to u n d = nearest (n / (u * d)) (n % (u * d)) (u * d) * u

unfoldable pub round_ratio : ℕ → ℕ → Float64
unfolding ulp round_to
round_ratio n d = round_to (ulp steps 1 n d) n d

abbrev pub one : Float64
one = 2 ^ 1074

-- A whole number; up to 2^53 it is exact.
abbrev pub float_of : ℕ → Float64
float_of n = n * one

unfoldable pub add : Float64 → Float64 → Float64
unfolding round_ratio
add a b = round_ratio (a + b) 1

-- For `b` not above `a`.
unfoldable pub sub : Float64 → Float64 → Float64
unfolding round_ratio
sub a b = round_ratio (a - b) 1

unfoldable pub mul : Float64 → Float64 → Float64
unfolding round_ratio
mul a b = round_ratio (a * b) one

unfoldable pub div : Float64 → Float64 → Float64
unfolding round_ratio
div a b = round_ratio (a * one) b

-- A step is the least subnormal, or `n / d` has 53 bits at that step.
abbrev IsStep : ℕ → ℕ → ℕ → Type 0
IsStep n d u = (u ≡ 1) ⊎ (least * (u * d) ≤ n)

ulp-IsStep : (ws : List ℕ) (u n d : ℕ) → IsStep n d u → IsStep n d (ulp ws u n d)
unfolding ulp
ulp-IsStep [] u n d h = h
ulp-IsStep (w ∷ ws) u n d h = elim (Bool-cases (leb (least * (u * w * d)) n)) [
  | inl t ↦ rw (t, ulp) (ulp-IsStep ws (u * w) n d (inr (ground (arith, t))))
  | inr f ↦ rw (f, ulp) (ulp-IsStep ws u n d h)
]

nearest-cases : (q r m : ℕ) → (nearest q r m ≡ q) ⊎ ((nearest q r m ≤ q + 1) × (m ≤ 2 * r))
nearest-cases q r m = elim (Bool-cases (ltb m (2 * r))) [
  | inl t ↦ inr (ground (arith, t), ground (arith, t))
  | inr f ↦ elim (Bool-cases (2 * r == m)) [
    | inl t ↦ inr (ground (arith, t, f), ground (arith, t))
    | inr n ↦ inl (ground (arith, n, f))
  ]
]

-- What rounding adds: half a step at most.
round_to-le : (u n d : ℕ) → 2 * (d * round_to u n d) ≤ 2 * n + u * d
unfolding round_to
round_to-le u n d =
    let m = u * d in
    let x = nearest (n / m) (n % m) m in
    let assoc : d * (x * u) ≡ x * m = mul_comm d (x * u) ∙ mul_assoc x u d in
    let split : n / m * m + n % m ≡ n = div-add-mod' n m in
    elim (nearest-cases (n / m) (n % m) m) [
      | inl e ↦
          let same_product : x * m ≡ n / m * m = ap (λ y. y * m) e in
          omega (arith, assoc, split, same_product)
      | inr (le, half) ↦
          let up : x * m ≤ (n / m + 1) * m = mul-le-mul_right m le in
          omega (arith, assoc, split, up, half, add-mul (n / m) 1 m)
    ]

IsStep-le :
    (u n d : ℕ) → IsStep n d u → 2 * least * (d * round_to u n d) ≤ (2 * least + 1) * n + least * d
IsStep-le u n d (inl e) =
    let one_step : u * d ≡ 1 * d = ap (λ v. v * d) e in omega (arith, round_to-le u n d, one_step)
IsStep-le u n d (inr h) = omega (arith, round_to-le u n d, h)

IsStep-normal :
    (u n d : ℕ)
    → IsStep n d u
    → least * d ≤ n
    → 2 * least * (d * round_to u n d) ≤ (2 * least + 1) * n
IsStep-normal u n d (inl e) normal =
    let one_step : u * d ≡ 1 * d = ap (λ v. v * d) e in
    omega (arith, round_to-le u n d, one_step, normal)
IsStep-normal u n d (inr h) normal = omega (arith, round_to-le u n d, h)

-- A rounded quotient is above the quotient by one part in 2^53 of it, and half the least subnormal.
pub round_ratio-le : (n d : ℕ) → 2 * least * (d * round_ratio n d) ≤ (2 * least + 1) * n + least * d
unfolding round_ratio
round_ratio-le n d = IsStep-le (ulp steps 1 n d) n d (ulp-IsStep steps 1 n d (inl refl))

-- The half subnormal is part of that where the quotient is normal.
pub round_ratio-normal :
    (n d : ℕ) → least * d ≤ n → 2 * least * (d * round_ratio n d) ≤ (2 * least + 1) * n
unfolding round_ratio
round_ratio-normal n d normal =
    IsStep-normal (ulp steps 1 n d) n d (ulp-IsStep steps 1 n d (inl refl)) normal

-- Whole units below 2^53 are exact.
round_to-one : (n : ℕ) → round_to 1 n 1 ≡ n
unfolding round_to
round_to-one n = ground arith

IsStep-unit : (u n : ℕ) → IsStep n 1 u → 2 * least * round_to u n 1 ≤ (2 * least + 1) * n
IsStep-unit u n (inl e) =
    let exact : round_to u n 1 ≡ n = ap (λ v. round_to v n 1) e ∙ round_to-one n in
    omega (arith, exact)
IsStep-unit u n (inr h) = omega (arith, round_to-le u n 1, h)

pub round_unit-le : (n : ℕ) → 2 * least * round_ratio n 1 ≤ (2 * least + 1) * n
unfolding round_ratio
round_unit-le n = IsStep-unit (ulp steps 1 n 1) n (ulp-IsStep steps 1 n 1 (inl refl))

-- A rounded difference is above the difference by one part in 2^53 of it at most.
pub sub-le : (a b : Float64) → 2 * least * sub a b ≤ (2 * least + 1) * (a - b)
unfolding sub
sub-le a b = round_unit-le (a - b)

pub add-le : (a b : Float64) → 2 * least * add a b ≤ (2 * least + 1) * (a + b)
unfolding add
add-le a b = round_unit-le (a + b)
