-- ===== src/Glob/Cover.antt =====
-- `globCovers` and `collapseStars` of internal/synth/catalog/glob.go. The memo table of
-- `globCovers` only keeps results of a pure function, so the model has the recurrence itself.
use taskgrant.Prelude.{
  ℕ, ◌≡◌, ◌↔◌, refl, Bool, true, false, ◌&&◌, ◌||◌, inl, inr, [], ◌∷◌, ◌==◌, Bytes, arith,
  Bool-cases, if◌then◌else◌,
}
use taskgrant.Glob.{is_star}
use taskgrant.Glob.Relation.{Accepts, literal, Matches, one, skip, eat, merge_stars}

unfoldable pub glob_covers : Bytes → Bytes → Bool
glob_covers [] [] = true
glob_covers [] (d ∷ i) = false
glob_covers (c ∷ o) [] = let rest = glob_covers o [] in if is_star c then rest else false
glob_covers (c ∷ o) (d ∷ i) = elim (is_star c) [
  | true ↦ elim (glob_covers o (d ∷ i)) [ true ↦ true | false ↦ glob_covers (c ∷ o) i ]
  | false ↦ elim (is_star d) [ true ↦ false | false ↦ c == d && glob_covers o i ]
]

unfoldable pub has_double_star : Bytes → Bool
has_double_star (c ∷ d ∷ s) = (is_star c && is_star d) || has_double_star (d ∷ s)
has_double_star _ = false

-- The loop of `collapseStars`, with `prevStar`.
unfoldable pub collapse : Bool → Bytes → Bytes
collapse prev [] = []
collapse prev (c ∷ s) = elim (is_star c) [
  | true ↦ elim prev [ true ↦ collapse true s | false ↦ c ∷ collapse true s ]
  | false ↦ c ∷ collapse false s
]

unfoldable pub collapse_stars : Bytes → Bytes
unfolding has_double_star collapse
collapse_stars s = if has_double_star s then collapse false s else s

module _ {accepts : Accepts} where
  -- A larger rest of the pattern makes a larger pattern.
  rest_mono :
      {c : ℕ} {p q s : Bytes}
      → ((t : Bytes) → Matches accepts p t → Matches accepts q t)
      → Matches accepts (c ∷ p) s
      → Matches accepts (c ∷ q) s
  rest_mono h (one k a m) = one k a (h _ m)
  rest_mono h (skip k m) = skip k (h _ m)
  rest_mono h (eat k m) = eat k (rest_mono h m)

  -- A star in front takes whatever one more pattern byte takes.
  star_over :
      {c d : ℕ} {o i s : Bytes}
      → is_star c ≡ true
      → ((t : Bytes) → Matches accepts i t → Matches accepts (c ∷ o) t)
      → Matches accepts (d ∷ i) s
      → Matches accepts (c ∷ o) s
  star_over k h (one n a m) = eat k (h _ m)
  star_over k h (skip n m) = h _ m
  star_over k h (eat n m) = eat k (star_over k h m)

-- Where `globCovers(outer, inner)` holds, every text that the inner pattern matches is matched by
-- the outer one.
pub glob_covers_sound :
    (o i : Bytes) → glob_covers o i ≡ true → (s : Bytes) → Matches literal i s → Matches literal o s
unfolding glob_covers
glob_covers_sound [] [] h s m = m
glob_covers_sound [] (d ∷ i) h s m = ground arith
glob_covers_sound (c ∷ o) [] h s m = elim (Bool-cases (is_star c)) [
  | inl k ↦ skip k (glob_covers_sound o [] (ground arith) s m)
  | inr k ↦ ground arith
]
glob_covers_sound (c ∷ o) (d ∷ i) h s m = elim (Bool-cases (is_star c)) [
  | inl k ↦ elim (Bool-cases (glob_covers o (d ∷ i))) [
    | inl e ↦ skip k (glob_covers_sound o (d ∷ i) e s m)
    | inr e ↦ star_over k (glob_covers_sound (c ∷ o) i (ground arith)) m
  ]
  | inr k ↦
      let e : c ≡ d = ground arith in
      let n : is_star d ≡ false = ground arith in
      rw e (rest_mono (glob_covers_sound o i (ground arith)) m)
]

module _ {accepts : Accepts} where
  doubled :
      {c : ℕ} {p s : Bytes}
      → is_star c ≡ true
      → Matches accepts (b'*' ∷ c ∷ p) s ↔ Matches accepts (b'*' ∷ p) s
  doubled {c} {p} {s} k =
      let e : c ≡ b'*' = ground arith in
      (
        λ m. rw e at (merge_stars {accepts = accepts} refl k m),
        λ m. rest_mono {c = b'*'} (λ t h. skip k h) m,
      )

  collapse_iff :
      (s t : Bytes)
      → (Matches accepts (collapse false s) t ↔ Matches accepts s t)
        × (Matches accepts (b'*' ∷ collapse true s) t ↔ Matches accepts (b'*' ∷ s) t)
  unfolding collapse
  collapse_iff [] t = ((λ m. m, λ m. m), (λ m. m, λ m. m))
  collapse_iff (c ∷ s) t = elim (Bool-cases (is_star c)) [
    | inl k ↦
        let e : c ≡ b'*' = ground arith in
        rw (k, collapse)
          (
            rw e ((collapse_iff s t).1.0, (collapse_iff s t).1.1),
            (
              λ m. (doubled k).1 ((collapse_iff s t).1.0 m),
              λ m. (collapse_iff s t).1.1 ((doubled k).0 m),
            ),
          )
    | inr k ↦
        rw (k, collapse)
          (
            (
              λ m. rest_mono (λ u. (collapse_iff s u).0.0) m,
              λ m. rest_mono (λ u. (collapse_iff s u).0.1) m,
            ),
            (
              λ m. rest_mono (λ v. rest_mono (λ u. (collapse_iff s u).0.0)) m,
              λ m. rest_mono (λ v. rest_mono (λ u. (collapse_iff s u).0.1)) m,
            ),
          )
  ]

-- `collapseStars` keeps what a pattern matches, and no more.
pub collapse_stars-Matches :
    (p s : Bytes) → Matches literal (collapse_stars p) s ↔ Matches literal p s
unfolding collapse_stars
collapse_stars-Matches p s = elim (Bool-cases (has_double_star p)) [
  | inl e ↦ rw e (collapse_iff p s).0
  | inr e ↦ rw e (λ m. m, λ m. m)
]
