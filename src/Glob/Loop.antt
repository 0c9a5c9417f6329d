-- ===== src/Glob/Loop.antt =====
-- The invariants of the `globMatch` loop: what its answers say of `Matches`, and the rounds it takes.
use taskgrant.Prelude.{
  ℕ, zero, suc, ◌+◌, ◌*◌, ◌≤◌, ◌<◌, ◌≡◌, ◌≢◌, refl, Bool, true, false, ◌⊎◌, inl, inr, none, some,
  [], ◌∷◌, Bytes, length, arith,
}
use taskgrant.Glob.{Action, byte, star, fail, is_star, Back, Round, retry, only_stars, loop}
use taskgrant.Glob.Relation.{
  Accepts, Matches, one, skip, eat, one_inv, star_inv, end_inv, absorb, merge_stars,
  only_stars-Matches, Matches-only_stars,
}

Action-cases : (a : Action) → (a ≡ byte) ⊎ (a ≡ star) ⊎ (a ≡ fail)
Action-cases byte = inl refl
Action-cases star = inr (inl refl)
Action-cases fail = inr (inr refl)

restar : (c : ℕ) → is_star c ≡ true → c ≡ b'*'
restar c h = ground arith

module _ (accepts : Accepts) (act : ℕ → ℕ → Action) where
  abbrev pub Starred : Bytes → Bytes → Type 0
  Starred p s = Matches accepts (b'*' ∷ p) s

  -- What is left to try at the mark.
  abbrev pub Behind : Back → Type 0
  Behind none = ⊥
  Behind (some (bp, [])) = ⊥
  Behind (some (bp, m ∷ ms)) = Starred bp ms

  Behind-Starred : (bp s : Bytes) → Behind (some (bp, s)) → Starred bp s
  Behind-Starred bp [] h = absurd h
  Behind-Starred bp (d ∷ s) h = eat refl h

  Starred-split : (bp s : Bytes) → Starred bp s → Matches accepts bp s ⊎ Behind (some (bp, s))
  Starred-split bp [] h = inl (end_inv h).1
  Starred-split bp (d ∷ s) h = star_inv h refl

  abbrev pub IsSound : Type 0
  IsSound =
      (c d : ℕ)
      → (act c d ≡ star → is_star c ≡ true)
        × (act c d ≡ byte
            → (is_star c ≡ true × (c ≡ d)) ⊎ ((is_star c ≡ false) × (accepts c d ≡ true)))

  byte_sound :
      (c d : ℕ) {p s : Bytes}
      → ((is_star c ≡ true) × (c ≡ d)) ⊎ ((is_star c ≡ false) × (accepts c d ≡ true))
      → Matches accepts p s
      → Matches accepts (c ∷ p) (d ∷ s)
  byte_sound c d (inl (h, e)) m = eat h (skip h m)
  byte_sound c d (inr (h, a)) m = one h a m

  retry_sound :
      (back : Back) (next : Round)
      → ((p s : Bytes) (b : Back) → next p s b ≡ some true → Matches accepts p s ⊎ Behind b)
      → retry back next ≡ some true
      → Behind back
  unfolding retry
  retry_sound none next ih h = ground arith
  retry_sound (some (bp, [])) next ih h = ground arith
  retry_sound (some (bp, m ∷ ms)) next ih h = elim (ih bp ms (some (bp, ms)) h) [
    | inl now ↦ skip refl now
    | inr later ↦ Behind-Starred bp ms later
  ]

  pub loop_sound :
      IsSound
      → (f : ℕ) (p s : Bytes) (back : Back) → loop act f p s back ≡ some true
      → Matches accepts p s ⊎ Behind back
  unfolding loop
  loop_sound ok zero p s back h = ground arith
  loop_sound ok (suc f) p [] back h = inl (only_stars-Matches p (ground arith))
  loop_sound ok (suc f) [] (d ∷ s) back h = inr (retry_sound back (loop act f) (loop_sound ok f) h)
  loop_sound ok (suc f) (c ∷ p) (d ∷ s) back h = elim (Action-cases (act c d)) [
    | inl e ↦ elim (loop_sound ok f p s back (rw (e, loop) at h)) [
      | inl m ↦ inl (byte_sound c d ((ok c d).1 e) m)
      | inr b ↦ inr b
    ]
    | inr (inl e) ↦ elim (loop_sound ok f p (d ∷ s) (some (p, d ∷ s)) (rw (e, loop) at h)) [
      | inl m ↦ inl (skip ((ok c d).0 e) m)
      | inr b ↦ inl (rw (restar c ((ok c d).0 e)) (eat refl b))
    ]
    | inr (inr e) ↦ inr (retry_sound back (loop act f) (loop_sound ok f) (rw (e, loop) at h))
  ]

-- `Plain d` holds of the text bytes that the `switch` reads rightly.
module _ (accepts : Accepts) (act : ℕ → ℕ → Action) (Plain : ℕ → Type 0) where
  abbrev pub IsExact : Type 0
  IsExact =
      (c d : ℕ)
      → Plain d
      → (act c d ≡ byte → (is_star c ≡ false) × (accepts c d ≡ true))
        × (act c d ≡ star → is_star c ≡ true)
        × (act c d ≡ fail → (is_star c ≡ false) × (accepts c d ≡ false))

  abbrev pub AllPlain : Bytes → Type 0
  AllPlain [] = Unit
  AllPlain (d ∷ s) = Plain d × AllPlain s

  abbrev pub BackPlain : Back → Type 0
  BackPlain none = Unit
  BackPlain (some (bp, bs)) = AllPlain bs

  abbrev pub Left : Back → Type 0
  Left = Behind accepts act

  abbrev pub Stars : Bytes → Bytes → Type 0
  Stars = Starred accepts act

  -- From a round on: an answer is true if the pattern matches now or later.
  abbrev pub Completes : Round → Type 0
  Completes next =
      (p s : Bytes) (back : Back) (b : Bool)
      → AllPlain s
      → BackPlain back
      → (Left back → Stars p s)
      → Matches accepts p s ⊎ Left back
      → next p s back ≡ some b
      → b ≡ true

  retry_complete :
      (back : Back) (next : Round) (b : Bool)
      → Completes next
      → BackPlain back
      → Left back
      → retry back next ≡ some b
      → b ≡ true
  unfolding retry
  retry_complete none next b ih plain left h = absurd left
  retry_complete (some (bp, [])) next b ih plain left h = absurd left
  retry_complete (some (bp, m ∷ ms)) next b ih plain left h =
      ih bp ms (some (bp, ms)) b plain.1 plain.1 (Behind-Starred accepts act bp ms)
        (Starred-split accepts act bp ms left) h

  at_end :
      (p : Bytes) (back : Back)
      → (Left back → Stars p [])
      → Matches accepts p [] ⊎ Left back
      → only_stars p ≡ true
  at_end p back link (inl m) = Matches-only_stars m
  at_end p back link (inr l) = Matches-only_stars (end_inv (link l)).1

  at_star :
      (c d : ℕ) (p s : Bytes) (back : Back)
      → is_star c ≡ true
      → (Left back → Stars (c ∷ p) (d ∷ s))
      → Matches accepts (c ∷ p) (d ∷ s) ⊎ Left back
      → Matches accepts p (d ∷ s) ⊎ Left (some (p, d ∷ s))
  at_star c d p s back k link (inl m) = elim (star_inv m k) [
    | inl now ↦ inl now
    | inr later ↦ inr (rw (restar c k) at later)
  ]
  at_star c d p s back k link (inr l) = elim (star_inv (merge_stars refl k (link l)) k) [
    | inl now ↦ inl now
    | inr later ↦ inr (rw (restar c k) at later)
  ]

  pub loop_complete : IsExact → (f : ℕ) → Completes (loop act f)
  unfolding loop
  loop_complete ok zero p s back b ps pb link m h = ground arith
  loop_complete ok (suc f) p [] back b ps pb link m h = ground (arith, at_end p back link m)
  loop_complete ok (suc f) [] (d ∷ s) back b ps pb link (inl m) h = elim m [ ]
  loop_complete ok (suc f) [] (d ∷ s) back b ps pb link (inr l) h =
      retry_complete back (loop act f) b (loop_complete ok f) pb l h
  loop_complete ok (suc f) (c ∷ p) (d ∷ s) back b ps pb link m h =
      let (on_byte, on_star, on_fail) = ok c d ps.0 in
      elim (Action-cases (act c d)) [
        | inl e ↦
            let (n, a) = on_byte e in
            loop_complete ok f p s back b ps.1 pb (λ l. absorb refl n (link l))
              (elim m [ inl now ↦ inl (one_inv now n).1 | inr l ↦ inr l ]) (rw (e, loop) at h)
        | inr (inl e) ↦
            loop_complete ok f p (d ∷ s) (some (p, d ∷ s)) b ps ps (λ l. eat refl l)
              (at_star c d p s back (on_star e) link m) (rw (e, loop) at h)
        | inr (inr e) ↦
            let (n, a) = on_fail e in
            retry_complete back (loop act f) b (loop_complete ok f) pb
              (elim m [ inl now ↦ absurd (ground (arith, (one_inv now n).0)) | inr l ↦ l ])
              (rw (e, loop) at h)
      ]

-- The rounds suffice: `m` bounds the text that is left to retry, `k` the patterns.
module _ (act : ℕ → ℕ → Action) (k : ℕ) where
  abbrev pub Room : ℕ → ℕ → Back → Type 0
  Room m n none = Unit
  Room m n (some (bp, bs)) = (n ≤ length bs) × (length bs ≤ m) × (length bp < k)

  abbrev pub Ends : Round → ℕ → Type 0
  Ends next f =
      (m : ℕ) (p s : Bytes) (back : Back)
      → length s ≤ m
      → length p < k
      → Room m (length s) back
      → m * k + length p < f
      → next p s back ≢ none

  retry-Ends :
      (f m : ℕ) (d : ℕ) (s : Bytes) (back : Back) (next : Round)
      → Ends next f
      → Room m (length (d ∷ s)) back
      → m * k < suc f
      → retry back next ≢ none
  unfolding retry
  retry-Ends f m d s none next ih room h = cc
  retry-Ends f m d s (some (bp, [])) next ih room h = absurd (omega arith)
  retry-Ends f zero d s (some (bp, x ∷ bs)) next ih room h = absurd (omega arith)
  retry-Ends f (suc m) d s (some (bp, x ∷ bs)) next ih room h =
      ih m bp bs (some (bp, bs)) (omega arith) (omega arith) (omega arith, omega arith, room.2)
        (omega arith)

  Room-mono : (m n n' : ℕ) (back : Back) → n' ≤ n → Room m n back → Room m n' back
  Room-mono m n n' none h room = tt
  Room-mono m n n' (some (bp, bs)) h room = omega arith

  pub loop-Ends : (f : ℕ) → Ends (loop act f) f
  unfolding loop
  loop-Ends zero m p s back hs hp room h = absurd (omega arith)
  loop-Ends (suc f) m p [] back hs hp room h = cc
  loop-Ends (suc f) m [] (d ∷ s) back hs hp room h =
      retry-Ends f m d s back (loop act f) (loop-Ends f) room (omega arith)
  loop-Ends (suc f) m (c ∷ p) (d ∷ s) back hs hp room h = elim (Action-cases (act c d)) [
    | inl e ↦
        rw (e, loop)
          (loop-Ends f m p s back (omega arith) (omega arith)
            (Room-mono m (length (d ∷ s)) (length s) back (omega arith) room) (omega arith))
    | inr (inl e) ↦
        rw (e, loop)
          (loop-Ends f m p (d ∷ s) (some (p, d ∷ s)) hs (omega arith) (omega arith, hs, omega arith)
            (omega arith))
    | inr (inr e) ↦
        rw (e, loop) (retry-Ends f m d s back (loop act f) (loop-Ends f) room (omega arith))
  ]
