-- ===== src/Broker/Rules/Covered.antt =====
-- What the cross-check of the actions says.
use taskgrant.Prelude.{
  ◌≡◌, refl, subst, inl, inr, true, some, List, [], ◌∷◌, map, Bytes, has, has→In, In, In-append,
  lower, sort, sort-In, arith, Bool-cases, Option-cases,
}
use taskgrant.Broker.{CapabilityRef, CatalogCapability, Snapshot}
use taskgrant.Broker.Rules.{actions_of, declared_actions, uncovered, uncovered_actions}

-- An action, up to its case, is one of a declared capability that the catalog has.
abbrev pub IsDeclared : Snapshot → List CapabilityRef → Bytes → Type 0
IsDeclared snap refs a =
    (ref : CapabilityRef) × In ref refs
    × ((c : CatalogCapability) × (snap.capability ref.id ≡ some c)
        × ((b : Bytes) × In b c.actions × (lower a ≡ lower b)))

In-map :
    {A B : Type 0} (f : A → B) (y : B) (xs : List A)
    → In y (map f xs)
    → (x : A) × In x xs × (y ≡ f x)
In-map f y [] i = absurd i
In-map f y (x ∷ xs) (inl e) = (x, inl refl, e)
In-map f y (x ∷ xs) (inr i) = let (x', j, e) = In-map f y xs i in (x', inr j, e)

declared_actions-IsDeclared :
    (snap : Snapshot) (refs : List CapabilityRef) (a : Bytes)
    → In (lower a) (declared_actions snap refs)
    → IsDeclared snap refs a
unfolding declared_actions
declared_actions-IsDeclared snap [] a i = absurd i
declared_actions-IsDeclared snap (ref ∷ refs) a i =
    elim (In-append (lower a) (actions_of (snap.capability ref.id)) (declared_actions snap refs)
      i) [
        | inl j ↦ elim (Option-cases (snap.capability ref.id)) [
          | inl e ↦ absurd (rw e at j)
          | inr (c, e) ↦ (ref, inl refl, (c, e, In-map lower (lower a) c.actions (rw e at j)))
        ]
        | inr j ↦ let (r, k, found) = declared_actions-IsDeclared snap refs a j in (r, inr k, found)
      ]

uncovered-nil :
    (declared expanded : List Bytes) (a : Bytes)
    → uncovered declared expanded ≡ []
    → In a expanded
    → has (lower a) declared ≡ true
unfolding uncovered
uncovered-nil declared [] a h i = absurd i
uncovered-nil declared (b ∷ expanded) a h i = elim (Bool-cases (has (lower b) declared)) [
  | inl y ↦ elim i [ inl e ↦ rw e y | inr j ↦ uncovered-nil declared expanded a (ground arith) j ]
  | inr n ↦ ground arith
]

sort-nil : (xs : List Bytes) → sort xs ≡ [] → xs ≡ []
sort-nil [] h = refl
sort-nil (x ∷ xs) h = let i : In x [] = subst (In x) h (sort-In x (x ∷ xs) (inl refl)) in absurd i

-- If no action is uncovered, each action of the policy belongs to a declared capability of the
-- catalog.
pub uncovered_actions-IsDeclared :
    (snap : Snapshot) (refs : List CapabilityRef) (expanded : List Bytes)
    → uncovered_actions (declared_actions snap refs) expanded ≡ []
    → (a : Bytes) → In a expanded
    → IsDeclared snap refs a
unfolding uncovered_actions
uncovered_actions-IsDeclared snap refs expanded h a i =
    let none_left = sort-nil (uncovered (declared_actions snap refs) expanded) h in
    let covered = uncovered-nil (declared_actions snap refs) expanded a none_left i in
    declared_actions-IsDeclared snap refs a (has→In (lower a) (declared_actions snap refs) covered)
