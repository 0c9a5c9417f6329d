-- ===== src/Audit/Kept.antt =====
-- Appending and pruning keep the chain intact.
use taskgrant.Prelude.{
  ℕ, ◌≡◌, refl, sym, subst, ap, ◌∙◌, ◌⊎◌, inl, inr, Bool, false, not, ◌&&◌, Option, some, List, [],
  ◌∷◌, ◌++◌, ltb, Bytes, same, is_empty, Bool-cases, Option-cases,
}
use taskgrant.Domain.Codes.{record_kind_valid, prune_kind}
use taskgrant.Audit.{
  AuditRecord, Chain, Entry, Appended, appended, not_appended, AppendError, row_of, append_locked,
  append, VerifyResult, intact, verify, empty_chain,
}
use taskgrant.Audit.Prune.{
  split_at_cutoff, PruneBody, prune_body, prune_entry, prune_rows, prune, AuditOp, append_op,
  prune_op, run,
}
use taskgrant.Guardrails.Parse.{Json}
use taskgrant.Audit.Canonical.{write_canonical, canonicalize_json}
use taskgrant.Audit.Canonical.Reread.{Alike, canonicalize_json-twice}
use taskgrant.Audit.Walk.{
  IsChained, IsChain, IsIntact, end_hash, IsNext, append_locked-IsIntact, verify_iff,
}

module _ (hash : Bytes → Bytes) (canonicalize : Bytes → Option Bytes)
    (fixed : (x y : Bytes) → canonicalize x ≡ some y → canonicalize y ≡ some y) where
  List-cases :
      (xs : List AuditRecord)
      → (xs ≡ []) ⊎ ((x : AuditRecord) × (rest : List AuditRecord) × (xs ≡ x ∷ rest))
  List-cases [] = inl refl
  List-cases (x ∷ xs) = inr (x, xs, refl)

  row_of-IsNext :
      (fresh : Bytes) (now : ℕ) (e : Entry) (canonical : Bytes) (c : Chain)
      → canonicalize canonical ≡ some canonical
      → IsNext hash canonicalize (row_of hash fresh now e canonical c) c
  row_of-IsNext fresh now e canonical c h = ((h, refl), refl)

  append-IsIntact :
      (fresh : Bytes) (now : ℕ) (e : Entry) (c : Chain)
      → IsIntact hash canonicalize c
      → IsIntact hash canonicalize (append hash canonicalize fresh now e c).1
  unfolding append
  append-IsIntact fresh now e c i = elim (Bool-cases (not (record_kind_valid e.kind))) [
    | inl k ↦ rw (k, append) i
    | inr k ↦ elim (Bool-cases (is_empty e.grant_id && not (same e.kind prune_kind))) [
      | inl g ↦ rw (k, g, append) i
      | inr g ↦ elim (Bool-cases (is_empty e.body)) [
        | inl b ↦ rw (k, g, b, append) i
        | inr b ↦ elim (Option-cases (canonicalize e.body)) [
          | inl q ↦ rw (k, g, b, q, append) i
          | inr (canonical, q) ↦
              let r = row_of hash fresh now e canonical c in
              rw (k, g, b, q, append)
                (append_locked-IsIntact hash canonicalize r c
                  (row_of-IsNext fresh now e canonical c (fixed e.body canonical q)) i)
        ]
      ]
    ]
  ]

  split_at_cutoff-append :
      (cutoff : ℕ) (rs : List AuditRecord)
      → rs ≡ (split_at_cutoff cutoff rs).0 ++ (split_at_cutoff cutoff rs).1
  unfolding split_at_cutoff
  split_at_cutoff-append cutoff [] = refl
  split_at_cutoff-append cutoff (r ∷ rs) = elim (Bool-cases (ltb r.ts cutoff)) [
    | inl y ↦ rw (y, split_at_cutoff) (ap (λ xs. r ∷ xs) (split_at_cutoff-append cutoff rs))
    | inr n ↦ rw (n, split_at_cutoff) refl
  ]

  IsChained-IsChain :
      (h : Bytes) (rs : List AuditRecord)
      → IsChained hash canonicalize h rs
      → IsChain hash canonicalize rs
  IsChained-IsChain h [] c = tt
  IsChained-IsChain h (r ∷ rs) (l, i, c) = (i, c)

  IsChain-suffix :
      (xs ys : List AuditRecord)
      → IsChain hash canonicalize (xs ++ ys)
      → IsChain hash canonicalize ys
  IsChain-suffix [] ys c = c
  IsChain-suffix (x ∷ xs) ys (i, c) = IsChain-suffix xs ys (IsChained-IsChain x.hash (xs ++ ys) c)

  end_hash-suffix :
      (h : Bytes) (xs : List AuditRecord) (y : AuditRecord) (ys : List AuditRecord)
      → end_hash hash canonicalize h (xs ++ y ∷ ys) ≡ end_hash hash canonicalize y.hash ys
  end_hash-suffix h [] y ys = refl
  end_hash-suffix h (x ∷ xs) y ys = end_hash-suffix x.hash xs y ys

  suffix-IsIntact :
      (xs ys : List AuditRecord) (c : Chain)
      → c.records ≡ xs ++ ys
      → IsIntact hash canonicalize c
      → IsIntact hash canonicalize (record c { records = ys })
  suffix-IsIntact xs [] c e i = (tt, refl)
  suffix-IsIntact xs (y ∷ ys) c e (chain, head) = (
    IsChain-suffix xs (y ∷ ys) (subst (IsChain hash canonicalize) e chain),
    sym (end_hash-suffix c.head_hash xs y ys)
        ∙ ap (end_hash hash canonicalize c.head_hash) (sym e)
        ∙ head,
  )

  Appended-cases :
      (a : Appended)
      → ((x : AppendError) × (a ≡ not_appended x)) ⊎ ((r : AuditRecord) × (a ≡ appended r))
  Appended-cases (not_appended x) = inl (x, refl)
  Appended-cases (appended r) = inr (r, refl)

  module _ (marshal : PruneBody → Bytes) where
    prune_rows-IsIntact :
        (fresh : Bytes) (now cutoff : ℕ) (first : AuditRecord) (more rest : List AuditRecord)
        (c : Chain)
        → c.records ≡ first ∷ more ++ rest
        → IsIntact hash canonicalize c
        → IsIntact hash canonicalize
            (prune_rows hash canonicalize marshal fresh now cutoff first more rest c).1
    unfolding prune_rows
    prune_rows-IsIntact fresh now cutoff first more rest c e i =
        elim (Option-cases (canonicalize (marshal (prune_body cutoff first more)))) [
          | inl q ↦ rw (q, prune_rows) i
          | inr (body, q) ↦
              let c1 = record c { records = rest } in
              let r = row_of hash fresh now (prune_entry hash canonicalize marshal body) body c in
              let i1 = suffix-IsIntact (first ∷ more) rest c e i in
              let next : IsNext hash canonicalize r c1 =
                row_of-IsNext fresh now (prune_entry hash canonicalize marshal body) body c
                  (fixed (marshal (prune_body cutoff first more)) body q) in
              elim (Appended-cases (append_locked hash r c1).0) [
                | inl (x, a) ↦ rw (q, a, prune_rows) i
                | inr (x, a) ↦
                    rw (q, a, prune_rows) (append_locked-IsIntact hash canonicalize r c1 next i1)
              ]
        ]

    prune-IsIntact :
        (fresh : Bytes) (now cutoff : ℕ) (has_export : Bool) (c : Chain)
        → IsIntact hash canonicalize c
        → IsIntact hash canonicalize
            (prune hash canonicalize marshal fresh now cutoff has_export c).1
    unfolding prune
    prune-IsIntact fresh now cutoff has_export c i =
        elim (List-cases (split_at_cutoff cutoff c.records).0) [
          | inl q ↦ rw (q, prune) i
          | inr (first, more, q) ↦ elim (Bool-cases has_export) [
            | inr n ↦ rw (q, n, prune) i
            | inl y ↦
                let rest = (split_at_cutoff cutoff c.records).1 in
                let parts : c.records ≡ first ∷ more ++ rest =
                  split_at_cutoff-append cutoff c.records ∙ ap (λ xs. xs ++ rest) q in
                rw (q, y, prune) (prune_rows-IsIntact fresh now cutoff first more rest c parts i)
          ]
        ]

    run-IsIntact :
        (ops : List AuditOp) (c : Chain)
        → IsIntact hash canonicalize c
        → IsIntact hash canonicalize (run hash canonicalize marshal ops c)
    unfolding run
    run-IsIntact [] c i = i
    run-IsIntact (append_op fresh now e ∷ ops) c i =
        run-IsIntact ops (append hash canonicalize fresh now e c).1
          (append-IsIntact fresh now e c i)
    run-IsIntact (prune_op fresh now cutoff has_export ∷ ops) c i =
        run-IsIntact ops (prune hash canonicalize marshal fresh now cutoff has_export c).1
          (prune-IsIntact fresh now cutoff has_export c i)

-- After any appends and prunes, each with any id and time, failed or not, on an empty store,
-- `Verify` succeeds: with the program's own canonical form, whatever the hash, the string encoder and
-- the marshaller of a prune record are, and for each decoder of JSON that reads the canonical text of
-- a value it decoded as that value, up to the order of the members of its objects.
pub run_verifies :
    (hash quote : Bytes → Bytes) (decode : Bytes → Option (Json × Bool))
    (marshal : PruneBody → Bytes)
    → ((raw : Bytes) (v : Json)
        → decode raw ≡ some (v, false)
        → (w : Json) × (decode (write_canonical quote v) ≡ some (w, false)) × Alike v w)
    → (ops : List AuditOp)
    → (w : VerifyResult) × (verify hash
          (canonicalize_json quote decode)
          (run hash (canonicalize_json quote decode) marshal ops empty_chain)
        ≡ intact w)
run_verifies hash quote decode marshal reads_back ops =
    let canonicalize = canonicalize_json quote decode in
    (verify_iff hash canonicalize (run hash canonicalize marshal ops empty_chain)).1 (
      (run-IsIntact hash canonicalize (canonicalize_json-twice quote decode reads_back) marshal ops
        empty_chain (tt, refl)).0)
