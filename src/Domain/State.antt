-- ===== src/Domain/State.antt =====
-- internal/domain/state.go, and `SetState` of internal/domain/grant.go. `State` is a string there:
-- the twelve constants are constructors, and `other` is any string that is none of them.
use taskgrant.Prelude.{
  ℕ, ◌≡◌, ◌≢◌, refl, Bool, true, false, ◌⊎◌, inl, inr, Option, none, some, Option-cases, sym, List,
  [], ◌∷◌, ◌==◌, Bytes, In, any, is_empty, arith, if◌then◌else◌,
}

pub data State : Type 0 where
  received synthesized guardrails auto_approved pending_approval approved : State
  needs_clarification denied minted active expired expired_pending : State
  other : Bytes → State

-- A number for each constant.
abbrev pub index : State → ℕ
index received = 0
index synthesized = 1
index guardrails = 2
index auto_approved = 3
index pending_approval = 4
index approved = 5
index needs_clarification = 6
index denied = 7
index minted = 8
index active = 9
index expired = 10
index expired_pending = 11
index (other s) = 12

-- `==` of the Go strings, asked for a known state `t` only.
abbrev pub is_state : State → State → Bool
is_state t s = index t == index s

-- The entry of the map `legalTransitions`, `none` where there is none.
unfoldable pub legal_transitions : State → Option (List State)
legal_transitions received = some (synthesized ∷ denied ∷ [])
legal_transitions synthesized = some (guardrails ∷ needs_clarification ∷ denied ∷ [])
legal_transitions guardrails = some (auto_approved ∷ pending_approval ∷ denied ∷ [])
legal_transitions auto_approved = some (minted ∷ denied ∷ [])
legal_transitions pending_approval = some (approved ∷ denied ∷ expired_pending ∷ [])
legal_transitions approved = some (minted ∷ denied ∷ [])
legal_transitions needs_clarification = some (synthesized ∷ denied ∷ [])
legal_transitions minted = some (active ∷ expired ∷ [])
legal_transitions active = some (expired ∷ [])
legal_transitions denied = some []
legal_transitions expired = some []
legal_transitions expired_pending = some []
legal_transitions (other s) = none

unfoldable pub valid : State → Bool
unfolding legal_transitions
valid s = elim (legal_transitions s) [ none ↦ false | some next ↦ true ]

unfoldable pub terminal : State → Bool
unfolding legal_transitions
terminal s = elim (legal_transitions s) [ none ↦ false | some next ↦ is_empty next ]

-- A missing entry reads as the nil slice.
unfoldable pub can_transition_to : State → State → Bool
unfolding legal_transitions
can_transition_to s next = elim (legal_transitions s) [
  | none ↦ false
  | some ts ↦ any (λ t. is_state t next) ts
]

-- `States()`.
abbrev pub states : List State
states =
    received ∷ synthesized ∷ guardrails ∷ auto_approved ∷ pending_approval ∷ approved
    ∷ needs_clarification ∷ denied ∷ minted ∷ active ∷ expired ∷ expired_pending ∷ []

pub data TransitionError : Type 0 where
  unknown_state : State → TransitionError
  illegal : State → State → TransitionError

unfoldable pub validate_transition : State → State → Option TransitionError
unfolding valid can_transition_to
validate_transition from to =
    if valid from
    then if valid to
      then if can_transition_to from to then none else some (illegal from to)
      else some (unknown_state to)
    else some (unknown_state from)

-- `SetState`: the state of the grant afterwards, with the error.
unfoldable pub set_state : State → State → State × Option TransitionError
set_state s next = elim (validate_transition s next) [ none ↦ (next, none) | some e ↦ (s, some e) ]

-- A run of `SetState` calls, their errors ignored.
unfoldable pub set_states : State → List State → State
set_states s [] = s
set_states s (t ∷ ts) = set_states (set_state s t).0 ts

-- The steps of a grant, with a name for each.
pub data Edge : State → State → Type 0 where
  synthesize : Edge received synthesized
  reject : Edge received denied
  check : Edge synthesized guardrails
  clarify : Edge synthesized needs_clarification
  no_match : Edge synthesized denied
  auto_approve : Edge guardrails auto_approved
  park : Edge guardrails pending_approval
  violate : Edge guardrails denied
  mint_auto : Edge auto_approved minted
  sts_auto : Edge auto_approved denied
  approve : Edge pending_approval approved
  deny : Edge pending_approval denied
  time_out : Edge pending_approval expired_pending
  mint_approved : Edge approved minted
  sts_approved : Edge approved denied
  retry : Edge needs_clarification synthesized
  exhaust : Edge needs_clarification denied
  deliver : Edge minted active
  lapse : Edge minted expired
  expire : Edge active expired

ruleset edges = (
  synthesize, reject, check, clarify, no_match, auto_approve, park, violate, mint_auto, sts_auto,
  approve, deny, time_out, mint_approved, sts_approved, retry, exhaust, deliver, lapse, expire,
)

index_injective : (s t : State) → valid t ≡ true → index s ≡ index t → s ≡ t
unfolding valid
index_injective s t v h = ground arith

Edge-valid : {s t : State} → Edge s t → validate_transition s t ≡ none
unfolding validate_transition
Edge-valid synthesize = refl
Edge-valid _ = refl

valid-Edge : (s t : State) → validate_transition s t ≡ none → Edge s t
unfolding validate_transition
valid-Edge received received h = grind (arith, edges)
valid-Edge _ _ h = grind (arith, edges)

terminal_rejects : (s t : State) → terminal s ≡ true → (set_state s t).0 ≡ s
unfolding terminal set_state validate_transition
terminal_rejects received t h = ground arith
terminal_rejects _ t h = ground arith

-- No sequence of `SetState` calls moves a grant out of a terminal state.
pub set_states-terminal : (s : State) (ts : List State) → terminal s ≡ true → set_states s ts ≡ s
unfolding set_states
set_states-terminal s [] h = refl
set_states-terminal s (t ∷ ts) h = rw (terminal_rejects s t h) (set_states-terminal s ts h)

-- The states that a grant can be in before the guardrails have run.
abbrev pub IsEarly : State → Type 0
IsEarly s = (s ≡ received) ⊎ (s ≡ synthesized) ⊎ (s ≡ needs_clarification) ⊎ (s ≡ denied)

IsEarly-edge : {s t : State} → Edge s t → IsEarly s → t ≢ guardrails → IsEarly t
IsEarly-edge synthesize h n = ground arith
IsEarly-edge _ h n = ground arith

IsEarly-step : (s t : State) → IsEarly s → t ≢ guardrails → IsEarly (set_state s t).0
unfolding set_state
IsEarly-step s t h n = elim (Option-cases (validate_transition s t)) [
  | inl e ↦ rw (e, set_state) (IsEarly-edge (valid-Edge s t e) h n)
  | inr (x, e) ↦ rw (e, set_state) h
]

IsEarly-run :
    (s : State) (ts : List State) → IsEarly s → ¬ In guardrails ts → IsEarly (set_states s ts)
unfolding set_states
IsEarly-run s [] h n = h
IsEarly-run s (t ∷ ts) h n =
    IsEarly-run (set_state s t).0 ts (IsEarly-step s t h (λ e. n (inl (sym e)))) (λ i. n (inr i))

-- A new grant that is never moved to the guardrails stays received, synthesized, waiting for a
-- clarification or denied: it is never approved, minted, active or expired.
pub guardrails_before_credentials :
    (ts : List State) → ¬ In guardrails ts → IsEarly (set_states received ts)
guardrails_before_credentials ts n = IsEarly-run received ts (inl refl) n

-- The states from which credentials exist.
abbrev pub HasCredentials : State → Type 0
HasCredentials s = (s ≡ minted) ⊎ (s ≡ active) ⊎ (s ≡ expired)

mint_edge :
    {s t : State}
    → Edge s t
    → ¬ HasCredentials s
    → HasCredentials t
    → (t ≡ minted) × ((s ≡ auto_approved) ⊎ (s ≡ approved))
mint_edge synthesize n h = ground arith
mint_edge _ n h = ground arith

-- Credentials come into being in one step from an approval, automatic or human.
pub credentials_after_approval :
    (s t : State)
    → ¬ HasCredentials s
    → HasCredentials (set_state s t).0
    → (t ≡ minted) × ((s ≡ auto_approved) ⊎ (s ≡ approved))
unfolding set_state
credentials_after_approval s t n h = elim (Option-cases (validate_transition s t)) [
  | inl e ↦ mint_edge (valid-Edge s t e) n (rw (e, set_state) at h)
  | inr (x, e) ↦ absurd (n (rw (e, set_state) at h))
]
