-- ===== src/Dataset/Expand.antt =====
-- What `Expand` of internal/dataset/dataset.go returns.
use taskgrant.Prelude.{
  ◌≡◌, ◌↔◌, sym, subst, Bool, true, false, inl, inr, List, [], ◌∷◌, Bytes, same, In, keep,
  has_wildcard, lower, trim_space, arith, Bool-cases, Option-cases,
}
use taskgrant.Prelude.Maps.{get}
use taskgrant.Glob.{dataset_match}
use taskgrant.Glob.Relation.{Matches, literal_or_any}
use taskgrant.Glob.Decide.{StarFree, dataset_match_iff}
use taskgrant.Dataset.{
  Dataset, names_of, lookup, expand, expand_literal, expand_wildcard, wildcard_matches,
}
use taskgrant.Dataset.Load.{IsTable}

In-keep :
    (q : Bytes → Bool) (x : Bytes) (xs : List Bytes) → In x (keep q xs) → In x xs × (q x ≡ true)
In-keep q x [] h = absurd h
In-keep q x (y ∷ ys) h = elim (Bool-cases (q y)) [
  | inl e ↦ elim (rw (e, In) at h) [
    | inl p ↦ (inl p, rw p e)
    | inr r ↦ let (a, b) = In-keep q x ys r in (inr a, b)
  ]
  | inr e ↦ let (a, b) = In-keep q x ys (rw (e, In) at h) in (inr a, b)
]

keep-In : (q : Bytes → Bool) (x : Bytes) (xs : List Bytes) → In x xs → q x ≡ true → In x (keep q xs)
keep-In q x [] h k = absurd h
keep-In q x (y ∷ ys) h k = elim (Bool-cases (q y)) [
  | inl e ↦ rw (e, In) (elim h [ inl p ↦ inl p | inr r ↦ inr (keep-In q x ys r k) ])
  | inr e ↦ rw (e, In) (elim h [ inl p ↦ ground arith | inr r ↦ keep-In q x ys r k ])
]

names_of-eq : (xs ys : List Bytes) → names_of xs ≡ names_of ys → xs ≡ ys
names_of-eq xs ys h = cc

-- A pattern with a wildcard that expands gives exactly the listed names whose lowercase form it
-- matches, '*' for any bytes and '?' for one; names that hold a '*' themselves are left aside.
pub expand_wildcard_iff :
    (d : Dataset) (s : Bytes) {as' : List Bytes}
    → has_wildcard (trim_space s) ≡ true
    → expand d s ≡ names_of as'
    → (name : Bytes) → StarFree (lower name)
    → In name as' ↔ (In name d.names × Matches literal_or_any (lower (trim_space s)) (lower name))
unfolding expand expand_wildcard wildcard_matches
expand_wildcard_iff d s {as'} w h name plain =
    let out : wildcard_matches d (trim_space s) ≡ as' = ground arith in
    let test = λ (n : Bytes). dataset_match (lower (trim_space s)) (lower n) in
    let (there, back) = dataset_match_iff (lower (trim_space s)) (lower name) plain in
    (
      λ m. let (a, b) = In-keep test name d.names (subst (In name) (sym out) m) in (a, there b),
      λ m. subst (In name) out (keep-In test name d.names m.0 (back m.1)),
    )

-- A pattern without a wildcard that expands gives one action, whose name is the pattern up to case
-- and surrounding spaces.
pub expand_literal_one :
    (d : Dataset) (s : Bytes) {as' : List Bytes}
    → IsTable d.actions d.names
    → has_wildcard (trim_space s) ≡ false
    → expand d s ≡ names_of as'
    → (name : Bytes) × (as' ≡ name ∷ [])
      × In name d.names
      × (lower name ≡ lower (trim_space (trim_space s)))
unfolding expand expand_literal lookup
expand_literal_one d s {as'} t w h =
    elim (Option-cases (get same (lower (trim_space (trim_space s))) d.actions)) [
      | inl e ↦ ground arith
      | inr (i, e) ↦
          let (k, v, n) = t.keyed (lower (trim_space (trim_space s))) i e in
          (i.action, ground arith, n, sym k)
    ]
