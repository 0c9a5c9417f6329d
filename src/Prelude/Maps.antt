-- ===== src/Prelude/Maps.antt =====
-- Go maps and keyed tables as association lists. A law of `get` holds for any test of keys that
-- decides equality.
use mathlib.Core.Path.{◌≡◌, refl}
use mathlib.Core.Logic.{◌↔◌}
use mathlib.Core.Bool.{Bool, true}
use mathlib.Core.Option.{Option, none, some}
use mathlib.Core.List.{List, [], ◌∷◌}
use native.Mathlib.Omega.{arith}
use taskgrant.Prelude.Tests.{if◌then◌else◌}

module _ {K V : Type 0} (eq : K → K → Bool) where
  abbrev pub get : K → List (K × V) → Option V
  get k [] = none
  get k ((j, v) ∷ m) = if eq j k then some v else get k m

  -- An assignment, or an insert with `ON CONFLICT DO UPDATE`.
  abbrev pub put : K → V → List (K × V) → List (K × V)
  put k v [] = (k, v) ∷ []
  put k v ((j, w) ∷ m) = if eq j k then (j, v) ∷ m else (j, w) ∷ put k v m

  pub get-put :
      ((a b : K) → (eq a b ≡ true) ↔ (a ≡ b))
      → (k j : K) (v : V) (m : List (K × V))
      → get j (put k v m) ≡ (if eq k j then some v else get j m)
  get-put iff k j v [] = refl
  get-put iff k j v ((i, w) ∷ m) = ground (arith, iff k j, iff i k, iff i j, get-put iff k j v m)
