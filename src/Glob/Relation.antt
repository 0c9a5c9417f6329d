-- ===== src/Glob/Relation.antt =====
-- What it means for a text to match a pattern, with no search order in it. `accepts c d` says that
-- a pattern byte that is no star takes the text byte `d`.
use taskgrant.Prelude.{
  ℕ, ◌≡◌, Bool, true, false, ◌||◌, ◌⊎◌, inl, inr, [], ◌∷◌, ◌==◌, Bytes, arith, Bool-cases,
}
use taskgrant.Glob.{is_star, only_stars}

abbrev pub Accepts : Type 0
Accepts = ℕ → ℕ → Bool

-- The catalog's patterns have '*' only, the others '?' too.
abbrev pub literal : Accepts
literal c d = c == d

abbrev pub literal_or_any : Accepts
literal_or_any c d = c == b'?' || c == d

pub data Matches (accepts : Accepts) : Bytes → Bytes → Type 0 where
  done : Matches accepts [] []
  one :
      {c d : ℕ} {p s : Bytes}
      → is_star c ≡ false
      → accepts c d ≡ true
      → Matches accepts p s
      → Matches accepts (c ∷ p) (d ∷ s)
  skip : {c : ℕ} {p s : Bytes} → is_star c ≡ true → Matches accepts p s → Matches accepts (c ∷ p) s
  eat :
      {c d : ℕ} {p s : Bytes}
      → is_star c ≡ true
      → Matches accepts (c ∷ p) s
      → Matches accepts (c ∷ p) (d ∷ s)

module _ {accepts : Accepts} where
  pub one_inv :
      {c d : ℕ} {p s : Bytes}
      → Matches accepts (c ∷ p) (d ∷ s)
      → is_star c ≡ false
      → (accepts c d ≡ true) × Matches accepts p s
  one_inv (one _ a m) h = (a, m)
  one_inv (skip k m) h = ground arith
  one_inv (eat k m) h = ground arith

  pub star_inv :
      {c d : ℕ} {p s : Bytes}
      → Matches accepts (c ∷ p) (d ∷ s)
      → is_star c ≡ true
      → Matches accepts p (d ∷ s) ⊎ Matches accepts (c ∷ p) s
  star_inv (one k a m) h = ground arith
  star_inv (skip _ m) h = inl m
  star_inv (eat _ m) h = inr m

  pub end_inv :
      {c : ℕ} {p : Bytes} → Matches accepts (c ∷ p) [] → (is_star c ≡ true) × Matches accepts p []
  end_inv (skip h m) = (h, m)

  -- A star in front takes what the byte behind it took.
  pub absorb :
      {x c d : ℕ} {p s : Bytes}
      → is_star x ≡ true
      → is_star c ≡ false
      → Matches accepts (x ∷ c ∷ p) (d ∷ s)
      → Matches accepts (x ∷ p) s
  absorb h n (one k a m) = ground arith
  absorb h n (skip _ m) = skip h (one_inv m n).1
  absorb {s = []} h n (eat _ (skip _ m)) = ground (arith, (end_inv m).0)
  absorb {s = d ∷ s} h n (eat _ m) = eat h (absorb h n m)

  pub merge_stars :
      {x c : ℕ} {p s : Bytes}
      → is_star x ≡ true
      → is_star c ≡ true
      → Matches accepts (x ∷ c ∷ p) s
      → Matches accepts (c ∷ p) s
  merge_stars h k (one n a m) = ground arith
  merge_stars h k (skip _ m) = m
  merge_stars h k (eat _ m) = eat k (merge_stars h k m)

  pub only_stars-Matches : (p : Bytes) → only_stars p ≡ true → Matches accepts p []
  unfolding only_stars
  only_stars-Matches [] h = done
  only_stars-Matches (c ∷ p) h = elim (Bool-cases (is_star c)) [
    | inl k ↦ skip k (only_stars-Matches p (ground arith))
    | inr k ↦ ground arith
  ]

  pub Matches-only_stars : {p : Bytes} → Matches accepts p [] → only_stars p ≡ true
  unfolding only_stars
  Matches-only_stars done = ground arith
  Matches-only_stars (skip h m) = ground (arith, Matches-only_stars m)
