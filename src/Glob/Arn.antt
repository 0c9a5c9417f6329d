-- ===== src/Glob/Arn.antt =====
-- ARN patterns of internal/synth/catalog/glob.go and internal/guardrails/policy.go: six fields
-- split at colons, each matched or covered on its own.
use taskgrant.Prelude.{
  ℕ, zero, suc, ◌≡◌, refl, Bool, true, false, ◌&&◌, ◌||◌, inl, inr, Option, none, some, List, [],
  ◌∷◌, ◌==◌, Bytes, codes, same, length, has_wildcard, arith, Bool-cases, Option-cases,
  if◌then◌else◌,
}
use taskgrant.Glob.{catalog_match, guardrails_match}
use taskgrant.Glob.Relation.{Accepts, literal_or_any, Matches}
use taskgrant.Glob.Decide.{catalog_match_iff, guardrails_match_sound}
use taskgrant.Glob.Cover.{glob_covers, glob_covers_sound}

-- `strings.Cut` at a byte.
unfoldable pub cut : ℕ → Bytes → Option (Bytes × Bytes)
cut x [] = none
cut x (c ∷ s) =
    if c == x then some ([], s) else elim (cut x s) [ none ↦ none | some (a, b) ↦ some (c ∷ a, b) ]

-- `strings.SplitN(s, ":", n + 1)`.
unfoldable pub split_n : ℕ → Bytes → List Bytes
unfolding cut
split_n zero s = s ∷ []
split_n (suc n) s = elim (cut b':' s) [ none ↦ s ∷ [] | some (a, b) ↦ a ∷ split_n n b ]

abbrev pub arn_field_count : ℕ
arn_field_count = 6

abbrev starts_arn : List Bytes → Bool
starts_arn [] = false
starts_arn (f ∷ fs) = same f (codes "arn")

-- catalog: six fields, the first of them "arn".
unfoldable pub split_arn_pattern : Bytes → Option (List Bytes)
unfolding split_n
split_arn_pattern s =
    let parts = split_n 5 s in
    if length parts == arn_field_count && starts_arn parts then some parts else none

-- The `for` loop over the fields, which returns false at the first field that fails.
abbrev pub fieldwise : (Bytes → Bytes → Bool) → List Bytes → List Bytes → Bool
fieldwise t (p ∷ ps) (v ∷ vs) = t p v && fieldwise t ps vs
fieldwise t _ _ = true

-- Two splits and their early returns, then the loop.
abbrev pub both_split : (Bytes → Bytes → Bool) → Option (List Bytes) → Option (List Bytes) → Bool
both_split t none vs = false
both_split t (some ps) none = false
both_split t (some ps) (some vs) = fieldwise t ps vs

unfoldable pub arn_covers : Bytes → Bytes → Bool
arn_covers outer inner = both_split glob_covers (split_arn_pattern outer) (split_arn_pattern inner)

unfoldable pub arn_matches : Bytes → Bytes → Bool
arn_matches pattern_text value =
    both_split catalog_match (split_arn_pattern pattern_text) (split_arn_pattern value)

-- guardrails: six fields on each side, whatever the first one is.
unfoldable pub arn_pattern_match : Bytes → Bytes → Bool
unfolding split_n
arn_pattern_match pattern_text resource =
    let pf = split_n 5 pattern_text in
    let rf = split_n 5 resource in
    if not_six pf || not_six rf then false else fieldwise guardrails_match pf rf
  where
    not_six : List Bytes → Bool
    not_six fs = if length fs == 6 then false else true

-- `parts[i]` of a split text.
abbrev pub field : ℕ → List Bytes → Bytes
field i [] = []
field zero (f ∷ fs) = f
field (suc i) (f ∷ fs) = field i fs

unfoldable pub account_field_wildcard : Bytes → Bool
unfolding split_n
account_field_wildcard resource =
    let parts = split_n 5 resource in
    if length parts == 6 then has_wildcard (field 4 parts) else false

-- Two texts whose fields match one by one, in the same number.
abbrev pub FieldsMatch : Accepts → List Bytes → List Bytes → Type 0
FieldsMatch accepts [] [] = Unit
FieldsMatch accepts (p ∷ ps) (v ∷ vs) = Matches accepts p v × FieldsMatch accepts ps vs
FieldsMatch accepts _ _ = ⊥

fieldwise-Matches :
    (ps vs : List Bytes)
    → length ps ≡ length vs
    → fieldwise guardrails_match ps vs ≡ true
    → FieldsMatch literal_or_any ps vs
fieldwise-Matches [] [] e h = tt
fieldwise-Matches [] (v ∷ vs) e h = absurd (omega arith)
fieldwise-Matches (p ∷ ps) [] e h = absurd (omega arith)
fieldwise-Matches (p ∷ ps) (v ∷ vs) e h = (
  guardrails_match_sound p v (ground arith),
  fieldwise-Matches ps vs (omega arith) (ground arith),
)

-- A resource that the guardrails' `arnPatternMatch` accepts has six fields, as the pattern has, and
-- each of them matches the pattern's field: no glob crosses a colon before the sixth field.
pub arn_pattern_match_sound :
    (p r : Bytes)
    → arn_pattern_match p r ≡ true
    → (length (split_n 5 p) ≡ 6) × FieldsMatch literal_or_any (split_n 5 p) (split_n 5 r)
unfolding arn_pattern_match
arn_pattern_match_sound p r h = elim (Bool-cases (length (split_n 5 p) == 6)) [
  | inr a ↦ ground arith
  | inl a ↦ elim (Bool-cases (length (split_n 5 r) == 6)) [
    | inr b ↦ ground arith
    | inl b ↦
        (ground arith, fieldwise-Matches (split_n 5 p) (split_n 5 r) (ground arith) (ground arith))
  ]
]

split_arn_pattern_six :
    (s : Bytes) (ps : List Bytes) → split_arn_pattern s ≡ some ps → length ps ≡ 6
unfolding split_arn_pattern
split_arn_pattern_six s ps h = elim (Bool-cases (length (split_n 5 s) == 6)) [
  | inl e ↦ ground arith
  | inr e ↦ ground arith
]

fieldwise-covers :
    (os is vs : List Bytes)
    → length os ≡ length is
    → length is ≡ length vs
    → fieldwise glob_covers os is ≡ true
    → fieldwise catalog_match is vs ≡ true
    → fieldwise catalog_match os vs ≡ true
fieldwise-covers [] is vs e f h k = refl
fieldwise-covers (o ∷ os) [] vs e f h k = absurd (omega arith)
fieldwise-covers (o ∷ os) (i ∷ is) [] e f h k = absurd (omega arith)
fieldwise-covers (o ∷ os) (i ∷ is) (v ∷ vs) e f h k =
    let here : catalog_match i v ≡ true = ground arith in
    let cov : glob_covers o i ≡ true = ground arith in
    let outer : catalog_match o v ≡ true =
      (catalog_match_iff o v).1 (glob_covers_sound o i cov v ((catalog_match_iff i v).0 here)) in
    let rest : fieldwise catalog_match os vs ≡ true =
      fieldwise-covers os is vs (omega arith) (omega arith) (ground arith) (ground arith) in
    ground arith

abbrev IsSix : Option (List Bytes) → Type 0
IsSix none = Unit
IsSix (some ps) = length ps ≡ 6

split_arn_pattern-IsSix : (s : Bytes) → IsSix (split_arn_pattern s)
split_arn_pattern-IsSix s = elim (Option-cases (split_arn_pattern s)) [
  | inl e ↦ rw e tt
  | inr (ps, e) ↦ rw e (split_arn_pattern_six s ps e)
]

both_split-covers :
    (os is vs : Option (List Bytes))
    → IsSix os
    → IsSix is
    → IsSix vs
    → both_split glob_covers os is ≡ true
    → both_split catalog_match is vs ≡ true
    → both_split catalog_match os vs ≡ true
both_split-covers none is vs a b c h k = ground arith
both_split-covers (some os) none vs a b c h k = ground arith
both_split-covers (some os) (some is) none a b c h k = ground arith
both_split-covers (some os) (some is) (some vs) a b c h k =
    fieldwise-covers os is vs (omega arith) (omega arith) h k

-- Where `arnCovers(outer, inner)` holds, every ARN that the inner pattern matches is matched by the
-- outer one.
pub arn_covers_sound :
    (o i v : Bytes) → arn_covers o i ≡ true → arn_matches i v ≡ true → arn_matches o v ≡ true
unfolding arn_covers arn_matches
arn_covers_sound o i v h k =
    both_split-covers (split_arn_pattern o) (split_arn_pattern i) (split_arn_pattern v)
      (split_arn_pattern-IsSix o) (split_arn_pattern-IsSix i) (split_arn_pattern-IsSix v) h k
