-- ===== src/Dataset/Keys.antt =====
-- `SupportsConditionKey` of internal/dataset/dataset.go.
use taskgrant.Prelude.{
  Bool, true, false, ◌&&◌, ◌||◌, Option, none, some, List, [], ◌∷◌, ◌==◌, ltb, Bytes, codes, same,
  has, lower, any, length, if◌then◌else◌,
}
use taskgrant.Dataset.{Dataset, lookup}

-- `strings.HasPrefix(s, p)`.
unfoldable pub has_prefix : Bytes → Bytes → Bool
has_prefix [] s = true
has_prefix (c ∷ p) [] = false
has_prefix (c ∷ p) (d ∷ s) = c == d && has_prefix p s

-- What stands before the first occurrence of the marker, `s[:strings.Index(s, marker)]`.
unfoldable pub before : Bytes → Bytes → Option Bytes
unfolding has_prefix
before marker [] = if has_prefix marker [] then some [] else none
before marker (c ∷ s) =
    let rest = before marker s in
    if has_prefix marker (c ∷ s) then some [] else elim rest [ none ↦ none | some p ↦ some (c ∷ p) ]

abbrev pub global_condition_keys : List Bytes
global_condition_keys =
    codes "aws:requestedregion"
    ∷ codes "aws:resourceaccount"
    ∷ codes "aws:sourceidentity"
    ∷ codes "aws:tokenissuetime"
    ∷ codes "aws:principalarn"
    ∷ codes "aws:principalaccount"
    ∷ codes "aws:securetransport"
    ∷ []

-- The body of the loop over the two markers: `idx > 0`, and a longer key with that prefix.
unfoldable pub templated : Bytes → Bytes → Bytes → Bool
unfolding has_prefix before
templated lk lck marker = elim (before marker lck) [
  | none ↦ false
  | some p ↦ ltb 0 (length p) && (has_prefix p lk && ltb (length p) (length lk))
]

unfoldable pub key_supported : Bytes → Bytes → Bool
unfolding templated
key_supported lk ck =
    let lck = lower ck in same lck lk || any (templated lk lck) (codes "${" ∷ codes "<" ∷ [])

unfoldable pub supports_condition_key : Dataset → Bytes → Bytes → Bool
unfolding has_prefix key_supported
supports_condition_key d action key = elim (lookup d action) [
  | none ↦ false
  | some info ↦
      let lk = lower key in
      if has lk global_condition_keys
      then true
      else if same lk (codes "aws:principaltag") || has_prefix (codes "aws:principaltag/") lk
      then true
      else any (key_supported lk) info.condition_keys
]
