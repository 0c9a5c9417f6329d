-- ===== src/Glob/Decide.antt =====
-- The three `globMatch` functions against the relation `Matches`.
use taskgrant.Prelude.{
  ℕ, any, zero, suc, ◌+◌, ◌*◌, ◌<◌, ◌≡◌, ◌↔◌, refl, Bool, true, false, inl, inr, Option, none, some,
  [], ◌∷◌, Bytes, length, arith, Option-cases,
}
use taskgrant.Glob.{
  Action, is_star, loop, run, retry, answer, catalog_action, guardrails_action, catalog_match,
  guardrails_match, dataset_match,
}
use taskgrant.Glob.Relation.{Accepts, literal, literal_or_any, Matches, done, skip, eat}
use taskgrant.Glob.Loop.{IsSound, IsExact, AllPlain, loop_sound, loop_complete, loop-Ends}

-- `run` never lacks rounds.
pub run_total : (act : ℕ → ℕ → Action) (p s : Bytes) → (b : Bool) × (run act p s ≡ some b)
unfolding run
run_total act p s = elim (Option-cases (run act p s)) [
  | inl e ↦ absurd (
      loop-Ends act (length p + 1) (suc ((length s + 1) * (length p + 1))) (length s) p s none
        (omega arith) (omega arith) tt (grind arith) e)
  | inr found ↦ found
]

run-answer : (o : Option Bool) → answer o ≡ true → o ≡ some true
run-answer o h = ground arith

module _ (accepts : Accepts) (act : ℕ → ℕ → Action) where
  pub run_sound :
      IsSound accepts act → (p s : Bytes) → answer (run act p s) ≡ true → Matches accepts p s
  unfolding run
  run_sound ok p s h =
      elim (loop_sound accepts act ok (suc ((length s + 1) * (length p + 1))) p s none
        (run-answer (run act p s) h)) [ inl m ↦ m | inr b ↦ absurd b ]

  pub run_complete :
      (Plain : ℕ → Type 0)
      → IsExact accepts act Plain
      → (p s : Bytes) → AllPlain accepts act Plain s
      → Matches accepts p s
      → answer (run act p s) ≡ true
  unfolding run
  run_complete Plain ok p s plain m =
      let (b, e) = run_total act p s in
      ground (
        arith,
        e,
        loop_complete accepts act Plain ok (suc ((length s + 1) * (length p + 1))) p s none b plain
            tt (λ l. absurd l) (inl m) e,
      )

catalog_sound : IsSound literal catalog_action
unfolding catalog_action
catalog_sound c d = ground arith

catalog_exact : IsExact literal catalog_action (λ d. Unit {0})
unfolding catalog_action
catalog_exact c d h = ground arith

catalog_plain : (s : Bytes) → AllPlain literal catalog_action (λ d. Unit {0}) s
catalog_plain [] = tt
catalog_plain (d ∷ s) = (tt, catalog_plain s)

-- The catalog's `globMatch` returns true exactly when the text matches the pattern, for every
-- pattern and every text.
pub catalog_match_iff : (p s : Bytes) → (catalog_match p s ≡ true) ↔ Matches literal p s
unfolding catalog_match
catalog_match_iff p s = (
  run_sound literal catalog_action catalog_sound p s,
  run_complete literal catalog_action (λ d. Unit) catalog_exact p s (catalog_plain s),
)

guardrails_sound : IsSound literal_or_any guardrails_action
unfolding guardrails_action
guardrails_sound c d = ground arith

-- A text byte that is no '*' itself.
abbrev pub IsPlain : ℕ → Type 0
IsPlain d = is_star d ≡ false

guardrails_exact : IsExact literal_or_any guardrails_action IsPlain
unfolding guardrails_action
guardrails_exact c d h = ground arith

abbrev pub StarFree : Bytes → Type 0
StarFree s = any is_star s ≡ false

StarFree-AllPlain : (s : Bytes) → StarFree s → AllPlain literal_or_any guardrails_action IsPlain s
StarFree-AllPlain [] h = tt
StarFree-AllPlain (d ∷ s) h = (ground arith, StarFree-AllPlain s (ground arith))

-- Whatever the guardrails' `globMatch` accepts does match the pattern.
pub guardrails_match_sound :
    (p s : Bytes) → guardrails_match p s ≡ true → Matches literal_or_any p s
unfolding guardrails_match
guardrails_match_sound p s = run_sound literal_or_any guardrails_action guardrails_sound p s

-- On a text without '*' the guardrails' `globMatch` accepts every match too.
pub guardrails_match_complete :
    (p s : Bytes) → StarFree s → Matches literal_or_any p s → guardrails_match p s ≡ true
unfolding guardrails_match
guardrails_match_complete p s plain m =
    run_complete literal_or_any guardrails_action IsPlain guardrails_exact p s
      (StarFree-AllPlain s plain) m

-- The dataset's `globMatch` returns true exactly on the matches, for a text that holds no '*', as
-- an action name does.
pub dataset_match_iff :
    (p s : Bytes) → StarFree s → (dataset_match p s ≡ true) ↔ Matches literal_or_any p s
unfolding dataset_match
dataset_match_iff p s plain = (
  run_sound literal_or_any guardrails_action guardrails_sound p s,
  run_complete literal_or_any guardrails_action IsPlain guardrails_exact p s
      (StarFree-AllPlain s plain),
)

everything : (s : Bytes) → Matches literal_or_any (b'*' ∷ []) s
everything [] = skip refl done
everything (d ∷ s) = eat refl (everything s)

no_second_try :
    (f d : ℕ) (s : Bytes)
    → 0 < f
    → loop guardrails_action (suc f) (b'*' ∷ []) (b'*' ∷ d ∷ s) none ≡ some false
unfolding loop retry guardrails_action
no_second_try zero d s h = elim h [ ]
no_second_try (suc f) d s h = refl

-- The pattern "*" matches every text, yet the guardrails' `globMatch` rejects each text of two
-- bytes or more that begins with a '*': the equal bytes are taken before the star is seen.
pub guardrails_match_leading_star :
    (d : ℕ) (s : Bytes)
    → (guardrails_match (b'*' ∷ []) (b'*' ∷ d ∷ s) ≡ false)
      × Matches literal_or_any (b'*' ∷ []) (b'*' ∷ d ∷ s)
unfolding guardrails_match
guardrails_match_leading_star d s = (
  rw (no_second_try ((length (b'*' ∷ d ∷ s) + 1) * (1 + 1)) d s (omega arith)),
  everything (b'*' ∷ d ∷ s),
)
