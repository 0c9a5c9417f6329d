-- ===== src/Gate/Reasons.antt =====
-- What it means that the gate finds no missing param and no reason for a human.
use taskgrant.Prelude.{
  ◌≡◌, ◌≢◌, refl, Bool, true, false, inl, inr, Option, none, some, List, [], ◌∷◌, ◌++◌, Bytes, In,
  append-eq-nil, arith, Bool-cases, Option-cases,
}
use taskgrant.Gate.{
  Gate, ParamSpec, Params, Selected, MissingParam, Reason, proceed, is_missing, missing_of,
  missing_all, insert_missing, sort_missing, missing_le, approval_reasons, first_use_reason,
  first_use_reasons, first_uses_of, settle, gate_first_use, gate_missing,
}

insert_missing-cons : (m : MissingParam) (ns : List MissingParam) → insert_missing m ns ≢ []
unfolding insert_missing
insert_missing-cons m [] h = cc
insert_missing-cons m (n ∷ ns) h = elim (Bool-cases (missing_le m n)) [
  | inl t ↦ ground arith
  | inr f ↦ ground arith
]

pub sort_missing-nil : (ms : List MissingParam) → sort_missing ms ≡ [] → ms ≡ []
unfolding sort_missing
sort_missing-nil [] h = refl
sort_missing-nil (m ∷ ms) h = absurd (insert_missing-cons m (sort_missing ms) h)

pub missing_of-nil :
    (id : Bytes) (params : Params) (specs : List ParamSpec) (p : ParamSpec)
    → missing_of id params specs ≡ []
    → In p specs
    → is_missing params p ≡ false
unfolding missing_of
missing_of-nil id params [] p h i = absurd i
missing_of-nil id params (q ∷ qs) p h i = elim (Bool-cases (is_missing params q)) [
  | inl t ↦ ground arith
  | inr f ↦ elim i [ inl e ↦ rw e f | inr j ↦ missing_of-nil id params qs p (ground arith) j ]
]

pub missing_all-nil :
    (ss : List Selected) (s : Selected)
    → missing_all ss ≡ []
    → In s ss
    → missing_of s.capability.id s.params s.capability.params ≡ []
unfolding missing_all
missing_all-nil [] s h i = absurd i
missing_all-nil (x ∷ ss) s h i =
    let (here, later) =
      append-eq-nil (missing_of x.capability.id x.params x.capability.params) (missing_all ss) h in
    elim i [ inl e ↦ rw e here | inr j ↦ missing_all-nil ss s later j ]

pub approval_reasons-nil :
    (ss : List Selected) (s : Selected)
    → approval_reasons ss ≡ []
    → In s ss
    → s.capability.requires_approval ≡ false
unfolding approval_reasons
approval_reasons-nil [] s h i = absurd i
approval_reasons-nil (x ∷ ss) s h i = elim (Bool-cases x.capability.requires_approval) [
  | inl t ↦ ground arith
  | inr f ↦ elim i [ inl e ↦ rw e f | inr j ↦ approval_reasons-nil ss s (ground arith) j ]
]

first_use_reason-nil : (id : Bytes) (o : Option Bool) → first_use_reason id o ≡ [] → o ≡ some false
first_use_reason-nil id none h = cc
first_use_reason-nil id (some true) h = cc
first_use_reason-nil id (some false) h = refl

pub first_use_reasons-nil :
    (ledger : Bytes → Option Bool) (ss : List Selected) (s : Selected)
    → first_use_reasons ledger ss ≡ []
    → In s ss
    → ledger s.capability.id ≡ some false
unfolding first_use_reasons
first_use_reasons-nil ledger [] s h i = absurd i
first_use_reasons-nil ledger (x ∷ ss) s h i =
    let (here, later) =
      append-eq-nil (first_use_reason x.capability.id (ledger x.capability.id))
        (first_use_reasons ledger ss) h in
    elim i [
      | inl e ↦ rw e (first_use_reason-nil x.capability.id (ledger x.capability.id) here)
      | inr j ↦ first_use_reasons-nil ledger ss s later j
    ]

settle-proceed :
    (ss : List Selected) (firsts : List Bytes) (rs : List Reason) {out : List Selected}
    → settle ss firsts rs ≡ proceed out
    → (rs ≡ []) × (ss ≡ out)
settle-proceed ss firsts [] h = (refl, ground arith)
settle-proceed ss firsts (r ∷ rs) h = ground arith

-- The ledger has seen each of the capabilities.
abbrev pub UsedBefore : Gate → Bytes → List Selected → Type 0
UsedBefore g agent ss =
    g.first_use_approval ≡ true
    → (ledger : Bytes → Bytes → Option Bool) × (g.first_use ≡ some ledger)
      × (first_use_reasons (ledger agent) ss ≡ [])

pub gate_first_use-proceed :
    (g : Gate) (agent : Bytes) (ss : List Selected) {out : List Selected}
    → gate_first_use g agent ss ≡ proceed out
    → (ss ≡ out) × (approval_reasons ss ≡ []) × UsedBefore g agent ss
unfolding gate_first_use
gate_first_use-proceed g agent ss h = elim (Bool-cases g.first_use_approval) [
  | inr f ↦
      let (clean, e) = settle-proceed ss [] (approval_reasons ss) (rw (f, gate_first_use) at h) in
      (e, clean, λ t. ground arith)
  | inl t ↦ elim (Option-cases g.first_use) [
    | inl n ↦ ground arith
    | inr (ledger, n) ↦
        let (clean, e) =
          settle-proceed ss (first_uses_of (ledger agent) ss)
            (approval_reasons ss ++ first_use_reasons (ledger agent) ss)
            (rw (t, n, gate_first_use) at h) in
        let (a, b) =
          append-eq-nil (approval_reasons ss) (first_use_reasons (ledger agent) ss) clean in
        (e, a, λ u. (ledger, n, b))
  ]
]

pub gate_missing-proceed :
    (g : Gate) (agent : Bytes) (ss : List Selected) (ms : List MissingParam) {out : List Selected}
    → gate_missing g agent ss ms ≡ proceed out
    → (ms ≡ []) × (gate_first_use g agent ss ≡ proceed out)
gate_missing-proceed g agent ss [] h = (refl, h)
gate_missing-proceed g agent ss (m ∷ ms) h = ground arith
