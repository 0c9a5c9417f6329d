-- ===== src/Audit/Walk.antt =====
-- The chain that the walk of `Verify` accepts, and what keeps it.
use taskgrant.Prelude.{
  ◌≡◌, refl, sym, ap, ◌∙◌, ◌↔◌, inl, inr, true, Option, none, some, List, [], ◌∷◌, ◌++◌, Bytes,
  same, same→eq, same_refl, arith, Bool-cases, Option-cases,
}
use taskgrant.Audit.{
  AuditRecord, Chain, has_record, VerifyResult, intact, verified_with, chain_hash, append_locked,
  check_record, verify_loop, verify,
}

module _ (hash : Bytes → Bytes) (canonicalize : Bytes → Option Bytes) where
  -- A body in canonical form, under the hash of it behind the previous hash.
  abbrev pub IsRecord : AuditRecord → Type 0
  IsRecord r = (canonicalize r.body ≡ some r.body) × (chain_hash hash r.prev_hash r.body ≡ r.hash)

  -- Each record names the hash of the one before it, the first one `h`.
  abbrev pub IsChained : Bytes → List AuditRecord → Type 0
  IsChained h [] = Unit {0}
  IsChained h (r ∷ rs) = (r.prev_hash ≡ h) × IsRecord r × IsChained r.hash rs

  -- The same, with any anchor.
  abbrev pub IsChain : List AuditRecord → Type 0
  IsChain [] = Unit {0}
  IsChain (r ∷ rs) = IsRecord r × IsChained r.hash rs

  check_record-IsRecord :
      (r : AuditRecord) (v : Option VerifyResult)
      → check_record hash canonicalize r v ≡ none
      → IsRecord r
  unfolding check_record
  check_record-IsRecord r v h = elim (Option-cases (canonicalize r.body)) [
    | inl n ↦ ground arith
    | inr (canonical, q) ↦
        ground
          (arith, same→eq canonical r.body, same→eq (chain_hash hash r.prev_hash canonical) r.hash)
  ]

  check_record-linked :
      (r : AuditRecord) (v : VerifyResult)
      → check_record hash canonicalize r (some v) ≡ none
      → r.prev_hash ≡ v.head_hash
  unfolding check_record
  check_record-linked r v h = elim (Bool-cases (same r.prev_hash v.head_hash)) [
    | inl y ↦ same→eq r.prev_hash v.head_hash y
    | inr n ↦ ground arith
  ]

  check_record-first : (r : AuditRecord) → IsRecord r → check_record hash canonicalize r none ≡ none
  unfolding check_record
  check_record-first r (c, e) = rw (check_record, c, same_refl r.body, e, same_refl r.hash) refl

  check_record-next :
      (r : AuditRecord) (v : VerifyResult)
      → r.prev_hash ≡ v.head_hash
      → IsRecord r
      → check_record hash canonicalize r (some v) ≡ none
  unfolding check_record
  check_record-next r v l (c, e) =
      let y : same r.prev_hash v.head_hash ≡ true =
        ap (λ p. same p v.head_hash) l ∙ same_refl v.head_hash in
      rw (check_record, y, c, same_refl r.body, e, same_refl r.hash) refl

  verify_loop-next :
      (rs : List AuditRecord) (v w : VerifyResult)
      → verify_loop hash canonicalize (some v) rs ≡ intact w
      → IsChained v.head_hash rs
  unfolding verify_loop
  verify_loop-next [] v w h = tt
  verify_loop-next (r ∷ rs) v w h =
      elim (Option-cases (check_record hash canonicalize r (some v))) [
        | inl q ↦ (
          check_record-linked r v q,
          check_record-IsRecord r (some v) q,
          verify_loop-next rs (verified_with r (some v)) w (rw (q, verify_loop) at h),
        )
        | inr (x, q) ↦ ground arith
      ]

  next-verify_loop :
      (rs : List AuditRecord) (v : VerifyResult)
      → IsChained v.head_hash rs
      → (w : VerifyResult) × (verify_loop hash canonicalize (some v) rs ≡ intact w)
  unfolding verify_loop
  next-verify_loop [] v c = (v, refl)
  next-verify_loop (r ∷ rs) v (l, i, c) =
      let (w, e) = next-verify_loop rs (verified_with r (some v)) c in
      (w, rw (check_record-next r v l i, verify_loop) e)

  verify_loop-first :
      (rs : List AuditRecord) (w : VerifyResult)
      → verify_loop hash canonicalize none rs ≡ intact w
      → IsChain rs
  unfolding verify_loop
  verify_loop-first [] w h = tt
  verify_loop-first (r ∷ rs) w h = elim (Option-cases (check_record hash canonicalize r none)) [
    | inl q ↦ (
      check_record-IsRecord r none q,
      verify_loop-next rs (verified_with r none) w (rw (q, verify_loop) at h),
    )
    | inr (x, q) ↦ ground arith
  ]

  first-verify_loop :
      (rs : List AuditRecord)
      → IsChain rs
      → (w : VerifyResult) × (verify_loop hash canonicalize none rs ≡ intact w)
  unfolding verify_loop
  first-verify_loop [] c = (_, refl)
  first-verify_loop (r ∷ rs) (i, c) =
      let (w, e) = next-verify_loop rs (verified_with r none) c in
      (w, rw (check_record-first r i, verify_loop) e)

  -- `Verify` succeeds exactly on the chains: each body is canonical and stands under the hash of itself
  -- behind the previous hash, and each record but the first names the hash of the one before it.
  pub verify_iff :
      (c : Chain)
      → ((w : VerifyResult) × (verify hash canonicalize c ≡ intact w)) ↔ IsChain c.records
  unfolding verify
  verify_iff c = (λ p. verify_loop-first c.records p.0 p.1, λ h. first-verify_loop c.records h)

  -- The hash that the next record has to name.
  abbrev pub end_hash : Bytes → List AuditRecord → Bytes
  end_hash h [] = h
  end_hash h (r ∷ rs) = end_hash r.hash rs

  IsChained-append :
      (h : Bytes) (rs : List AuditRecord) (r : AuditRecord)
      → IsChained h rs
      → r.prev_hash ≡ end_hash h rs
      → IsRecord r
      → IsChained h (rs ++ r ∷ [])
  IsChained-append h [] r c l i = (l, i, tt)
  IsChained-append h (x ∷ rs) r (lx, ix, c) l i = (lx, ix, IsChained-append x.hash rs r c l i)

  IsChain-append :
      (h : Bytes) (rs : List AuditRecord) (r : AuditRecord)
      → IsChain rs
      → r.prev_hash ≡ end_hash h rs
      → IsRecord r
      → IsChain (rs ++ r ∷ [])
  IsChain-append h [] r c l i = (i, tt)
  IsChain-append h (x ∷ rs) r (ix, c) l i = (ix, IsChained-append x.hash rs r c l i)

  end_hash-append :
      (h : Bytes) (rs : List AuditRecord) (r : AuditRecord) → end_hash h (rs ++ r ∷ []) ≡ r.hash
  end_hash-append h [] r = refl
  end_hash-append h (x ∷ rs) r = end_hash-append x.hash rs r

  -- The rows verify, and the head that the store caches is that of the last one.
  abbrev pub IsIntact : Chain → Type 0
  IsIntact c = IsChain c.records × (end_hash c.head_hash c.records ≡ c.head_hash)

  -- A row that stands behind the head.
  abbrev pub IsNext : AuditRecord → Chain → Type 0
  IsNext r c = IsRecord r × (r.prev_hash ≡ c.head_hash)

  pub append_locked-IsIntact :
      (r : AuditRecord) (c : Chain) → IsNext r c → IsIntact c → IsIntact (append_locked hash r c).1
  unfolding append_locked
  append_locked-IsIntact r c (i, l) (chain, head) =
      elim (Bool-cases (has_record r.record_id c.records)) [
        | inl y ↦ rw (y, append_locked) (chain, head)
        | inr n ↦
            rw (n, append_locked)
              (
                IsChain-append c.head_hash c.records r chain (l ∙ sym head) i,
                end_hash-append r.hash c.records r,
              )
      ]
