-- ===== src/Audit/Binding.antt =====
-- What the head hash says of the records.
use taskgrant.Prelude.{
  ◌≡◌, refl, sym, ap, ◌∙◌, ◌⊎◌, inl, inr, false, Option, List, [], ◌∷◌, ◌++◌, map, length, Bytes,
  same, same→eq, arith, Bool-cases,
}
use taskgrant.Audit.{AuditRecord, chain_hash, genesis_hash}
use taskgrant.Audit.Walk.{IsRecord, IsChained, end_hash}

append-split : (h k a b : Bytes) → length h ≡ length k → h ++ a ≡ k ++ b → (h ≡ k) × (a ≡ b)
append-split [] [] a b l e = (refl, e)
append-split [] (y ∷ k) a b l e = ground arith
append-split (x ∷ h) [] a b l e = ground arith
append-split (x ∷ h) (y ∷ k) a b l e = ground (arith, append-split h k a b)

module _ (hash : Bytes → Bytes) (canonicalize : Bytes → Option Bytes) where
  -- Two different inputs of the hash function with the same hash.
  abbrev pub Collision : Type 0
  Collision = (x : Bytes) × (y : Bytes) × (same x y ≡ false) × (hash x ≡ hash y)

  abbrev pub bodies : List AuditRecord → List Bytes
  bodies rs = map (λ (r : AuditRecord). r.body) rs

  hash-binding :
      (h k a b : Bytes)
      → length h ≡ length k
      → chain_hash hash h a ≡ chain_hash hash k b
      → Collision ⊎ ((h ≡ k) × (a ≡ b))
  unfolding chain_hash
  hash-binding h k a b l e = elim (Bool-cases (same (h ++ a) (k ++ b))) [
    | inl y ↦ inr (append-split h k a b l (same→eq (h ++ a) (k ++ b) y))
    | inr n ↦ inl (h ++ a, k ++ b, n, e)
  ]

  module _ (width : (x y : Bytes) → length (hash x) ≡ length (hash y)) where
    IsRecord-width :
        (x y : AuditRecord)
        → IsRecord hash canonicalize x
        → IsRecord hash canonicalize y
        → length x.hash ≡ length y.hash
    unfolding chain_hash
    IsRecord-width x y (cx, hx) (cy, hy) =
        ap length (sym hx) ∙ width (x.prev_hash ++ x.body) (y.prev_hash ++ y.body) ∙ ap length hy

    chain_binding :
        (xs ys : List AuditRecord) (h k : Bytes)
        → length h ≡ length k
        → length xs ≡ length ys
        → IsChained hash canonicalize h xs
        → IsChained hash canonicalize k ys
        → end_hash hash canonicalize h xs ≡ end_hash hash canonicalize k ys
        → Collision ⊎ ((h ≡ k) × (bodies xs ≡ bodies ys))
    chain_binding [] [] h k l n c d e = inr (e, refl)
    chain_binding [] (y ∷ ys) h k l n c d e = ground arith
    chain_binding (x ∷ xs) [] h k l n c d e = ground arith
    chain_binding (x ∷ xs) (y ∷ ys) h k l n (lx, ix, c) (ly, iy, d) e =
        elim (chain_binding xs ys x.hash y.hash (IsRecord-width x y ix iy) (omega (arith, n)) c d
          e) [
            | inl collision ↦ inl collision
            | inr (same_hash, same_rest) ↦
                let linked : chain_hash hash h x.body ≡ chain_hash hash k y.body =
                  ap (λ p. chain_hash hash p x.body) (sym lx)
                  ∙ ix.1
                  ∙ same_hash
                  ∙ sym (iy.1)
                  ∙ ap (λ p. chain_hash hash p y.body) ly in
                elim (hash-binding h k x.body y.body l linked) [
                  | inl collision ↦ inl collision
                  | inr (same_prev, same_body) ↦ inr (same_prev, cc)
                ]
          ]

    -- Two unpruned logs of the same length with the same last hash, each accepted by the walk from the
    -- genesis hash, have the same bodies in the same order, or exhibit a collision of the hash
    -- function, where its hashes all have the same length.
    pub genesis_binding :
        (xs ys : List AuditRecord)
        → length xs ≡ length ys
        → IsChained hash canonicalize genesis_hash xs
        → IsChained hash canonicalize genesis_hash ys
        → end_hash hash canonicalize genesis_hash xs ≡ end_hash hash canonicalize genesis_hash ys
        → Collision ⊎ (bodies xs ≡ bodies ys)
    genesis_binding xs ys n c d e =
        elim (chain_binding xs ys genesis_hash genesis_hash refl n c d e) [
          | inl collision ↦ inl collision
          | inr (same_start, same_bodies) ↦ inr same_bodies
        ]
