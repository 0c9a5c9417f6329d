-- ===== src/Glob.antt =====
-- The `globMatch` loops of internal/synth/catalog/glob.go, internal/guardrails/policy.go and
-- internal/dataset/dataset.go. `pattern[pi:]` and `s[si:]` are lists; `star` and `mark` are
-- `back`, the pattern behind the last star and the text from the mark on. The rounds are fuel, and
-- `none` says that they ran out.
pub mod Relation
pub mod Loop
pub mod Decide
pub mod Cover
pub mod Arn
use taskgrant.Prelude.{
  ℕ, zero, suc, ◌+◌, ◌*◌, Bool, true, false, ◌||◌, Option, none, some, List, [], ◌∷◌, ◌==◌, Bytes,
  length, if◌then◌else◌,
}

-- What the `switch` does with a pattern byte and a text byte: the byte is taken, a star is
-- entered, or no case but the retry is left.
pub data Action : Type 0 where
  byte star fail : Action

abbrev pub is_star : ℕ → Bool
is_star c = c == b'*'

-- catalog: the star comes first, and there is no '?'.
unfoldable pub catalog_action : ℕ → ℕ → Action
catalog_action c d = if is_star c then star else if c == d then byte else fail

-- guardrails and dataset: a '?' and an equal byte come before the star.
unfoldable pub guardrails_action : ℕ → ℕ → Action
guardrails_action c d = if c == b'?' || c == d then byte else if is_star c then star else fail

abbrev pub Back : Type 0
Back = Option (Bytes × Bytes)

abbrev pub Round : Type 0
Round = Bytes → Bytes → Back → Option Bool

-- The last two cases: `pi = star + 1; mark++; si = mark`, or `return false`.
pub retry : Back → Round → Option Bool
retry none next = some false
retry (some (bp, [])) next = none
retry (some (bp, m ∷ ms)) next = next bp ms (some (bp, ms))

-- The loop behind the main one, and the final comparison.
unfoldable pub only_stars : Bytes → Bool
only_stars [] = true
only_stars (c ∷ p) = let rest = only_stars p in if is_star c then rest else false

module _ (act : ℕ → ℕ → Action) where
  pub loop : ℕ → Round
  loop zero p s back = none
  loop (suc f) p [] back = some (only_stars p)
  loop (suc f) [] (d ∷ s) back = retry back (loop f)
  loop (suc f) (c ∷ p) (d ∷ s) back = elim (act c d) [
    | byte ↦ loop f p s back
    | star ↦ loop f p (d ∷ s) (some (p, d ∷ s))
    | fail ↦ retry back (loop f)
  ]

  -- The rounds that suffice: each retry lowers the text behind the mark.
  pub run : Bytes → Bytes → Option Bool
  run p s = loop (suc ((length s + 1) * (length p + 1))) p s none

abbrev answer : Option Bool → Bool
answer none = false
answer (some b) = b

unfoldable pub catalog_match : Bytes → Bytes → Bool
unfolding run loop retry only_stars catalog_action
catalog_match p s = answer (run catalog_action p s)

unfoldable pub guardrails_match : Bytes → Bytes → Bool
unfolding run loop retry only_stars guardrails_action
guardrails_match p s = answer (run guardrails_action p s)

unfoldable pub dataset_match : Bytes → Bytes → Bool
unfolding run loop retry only_stars guardrails_action
dataset_match p s = answer (run guardrails_action p s)
