-- ===== src/Gate.antt =====
-- The confidence gate of internal/synth/match/gate.go. Confidences are float64 in [0, 1], a snapshot
-- is its `Lookup`, and the first-use ledger answers `none` where it fails.
pub mod Reasons
pub mod Proceed
use taskgrant.Prelude.{
  ℕ, ◌*◌, ◌^◌, Bool, true, false, ◌&&◌, ◌||◌, Option, none, some, List, [], ◌∷◌, ◌++◌, map, ltb,
  Bytes, same, is_empty, length, trim_space, text_le, if◌then◌else◌,
}
use taskgrant.Prelude.Maps.{get, put}
use taskgrant.Prelude.Float.{Float64, sub}
use taskgrant.Domain.Codes.{DenialCode, no_match, guardrail_violation}

-- The float64 nearest to 0.80.
abbrev pub proceed_threshold : Float64
proceed_threshold = 0x1999999999999A * 2 ^ 1021

-- The float64 nearest to 0.20.
abbrev pub margin_threshold : Float64
margin_threshold = 0x1999999999999A * 2 ^ 1019

-- 0.50.
abbrev pub no_match_threshold : Float64
no_match_threshold = 2 ^ 1073

abbrev pub max_selected : ℕ
max_selected = 3

pub record ParamSpec : Type 0 where
  pub name : Bytes
  pub required : Bool
  pub expected_shape : Bytes
  pub examples : List Bytes

-- The fields that the gate reads.
pub record Capability : Type 0 where
  pub id : Bytes
  pub summary : Bytes
  pub params : List ParamSpec
  pub requires_approval : Bool

abbrev pub Params : Type 0
Params = List (Bytes × Bytes)

pub record Candidate : Type 0 where
  pub capability_id : Bytes
  pub params : Params
  pub confidence : Float64

pub record MatchResult : Type 0 where
  pub structured : Bool
  pub candidates : List Candidate

pub record Hint : Type 0 where
  pub id : Bytes
  pub params : Params

pub record Selected : Type 0 where
  pub capability : Capability
  pub params : Params

pub record MissingParam : Type 0 where
  pub capability : Bytes
  pub name : Bytes
  pub expected_shape : Bytes
  pub examples : List Bytes

pub data Reason : Type 0 where
  needs_human first_use_failed is_first_use : Bytes → Reason

-- A candidate with its summary, empty where the snapshot does not hold it.
abbrev pub Summary : Type 0
Summary = Bytes × Bytes

pub data GateDecision : Type 0 where
  deny : DenialCode → GateDecision
  ambiguous : List Summary → GateDecision
  missing_params : List MissingParam → List Summary → GateDecision
  pending_approval : List Selected → List Bytes → List Reason → GateDecision
  proceed : List Selected → GateDecision
  no_first_use_dependency : GateDecision
  not_in_snapshot : Bytes → GateDecision

pub record Gate : Type 0 where
  pub first_use : Option (Bytes → Bytes → Option Bool)
  pub first_use_approval : Bool

-- The first value of a key wins among the hints.
unfoldable pub add_params : Params → Params → Params
add_params acc [] = acc
add_params acc ((k, v) ∷ ps) = elim (get same k acc) [
  | none ↦ add_params (put same k v acc) ps
  | some old ↦ add_params acc ps
]

-- `hinted[id]`.
unfoldable pub hinted : Bytes → List Hint → Params → Params
hinted id [] acc = acc
hinted id (h ∷ hs) acc = hinted id hs (if same h.id id then add_params acc h.params else acc)

-- The hinted value wins over the extracted one.
unfoldable pub overlay : Params → Params → Params
overlay merged [] = merged
overlay merged ((k, v) ∷ ps) = overlay (put same k v merged) ps

-- One param of one capability.
abbrev pub value_of : Bytes → Params → Bytes
value_of name params = elim (get same name params) [ none ↦ [] | some v ↦ v ]

unfoldable pub is_missing : Params → ParamSpec → Bool
is_missing params spec = spec.required && is_empty (trim_space (value_of spec.name params))

unfoldable pub missing_of : Bytes → Params → List ParamSpec → List MissingParam
missing_of id params [] = []
missing_of id params (p ∷ ps) =
    let rest = missing_of id params ps in
    if is_missing params p
    then record {
      capability = id;
      name = p.name;
      expected_shape = p.expected_shape;
      examples = p.examples;
    }
      ∷ rest
    else rest

unfoldable pub missing_all : List Selected → List MissingParam
missing_all [] = []
missing_all (s ∷ ss) = missing_of s.capability.id s.params s.capability.params ++ missing_all ss

abbrev pub missing_le : MissingParam → MissingParam → Bool
missing_le a b =
    if same a.capability b.capability
    then text_le a.name b.name
    else text_le a.capability b.capability

unfoldable pub insert_missing : MissingParam → List MissingParam → List MissingParam
insert_missing m [] = m ∷ []
insert_missing m (n ∷ ns) =
    let rest = insert_missing m ns in if missing_le m n then m ∷ n ∷ ns else n ∷ rest

unfoldable pub sort_missing : List MissingParam → List MissingParam
sort_missing [] = []
sort_missing (m ∷ ms) = insert_missing m (sort_missing ms)

unfoldable pub missing_required_params : List Selected → List MissingParam
missing_required_params selected = sort_missing (missing_all selected)

-- The two loops that gather reasons.
unfoldable pub approval_reasons : List Selected → List Reason
approval_reasons [] = []
approval_reasons (s ∷ ss) =
    let rest = approval_reasons ss in
    if s.capability.requires_approval then needs_human s.capability.id ∷ rest else rest

abbrev pub first_use_reason : Bytes → Option Bool → List Reason
first_use_reason id none = first_use_failed id ∷ is_first_use id ∷ []
first_use_reason id (some true) = is_first_use id ∷ []
first_use_reason id (some false) = []

unfoldable pub first_use_reasons : (Bytes → Option Bool) → List Selected → List Reason
first_use_reasons ledger [] = []
first_use_reasons ledger (s ∷ ss) =
    first_use_reason s.capability.id (ledger s.capability.id) ++ first_use_reasons ledger ss

abbrev pub counts_as_first : Option Bool → Bool
counts_as_first none = true
counts_as_first (some b) = b

unfoldable pub first_uses_of : (Bytes → Option Bool) → List Selected → List Bytes
first_uses_of ledger [] = []
first_uses_of ledger (s ∷ ss) =
    let rest = first_uses_of ledger ss in
    if counts_as_first (ledger s.capability.id) then s.capability.id ∷ rest else rest

abbrev pub settle : List Selected → List Bytes → List Reason → GateDecision
settle selected firsts [] = proceed selected
settle selected firsts (r ∷ rs) = pending_approval selected firsts (r ∷ rs)

unfoldable pub gate_first_use : Gate → Bytes → List Selected → GateDecision
gate_first_use g agent selected =
    if g.first_use_approval
    then elim g.first_use [
      | none ↦ no_first_use_dependency
      | some ledger ↦
          settle selected (first_uses_of (ledger agent) selected)
            (approval_reasons selected ++ first_use_reasons (ledger agent) selected)
    ]
    else settle selected [] (approval_reasons selected)

-- From the test of the missing params on.
abbrev pub gate_missing : Gate → Bytes → List Selected → List MissingParam → GateDecision
gate_missing g agent selected [] = gate_first_use g agent selected
gate_missing g agent selected (m ∷ ms) =
    missing_params (m ∷ ms)
      (map (λ (s : Selected). (s.capability.id, s.capability.summary)) selected)

-- A merge: the selection, or the id that is not in the snapshot.
pub data Merge : Type 0 where
  merged : List Selected → Merge
  unknown : Bytes → Merge

module _ (lookup : Bytes → Option Capability) where
  abbrev pub summary_of : Bytes → Bytes
  summary_of id = elim (lookup id) [ none ↦ [] | some c ↦ c.summary ]

  unfoldable pub ambiguous_decision : List Candidate → GateDecision
  ambiguous_decision cands =
      ambiguous (map (λ (c : Candidate). (c.capability_id, summary_of c.capability_id)) cands)

  unfoldable pub merge_selected : List Candidate → List Hint → Merge
  merge_selected [] hints = merged []
  merge_selected (c ∷ cs) hints =
      let rest = merge_selected cs hints in
      elim (lookup c.capability_id) [
        | none ↦ unknown c.capability_id
        | some cap ↦ elim rest [
          | unknown id ↦ unknown id
          | merged ss ↦ merged (
              record {
                capability = cap;
                params = overlay c.params (hinted c.capability_id hints []);
              }
              ∷ ss)
        ]
      ]

  unfoldable pub gate_chosen : Gate → Bytes → List Hint → List Candidate → GateDecision
  gate_chosen g agent hints chosen =
      if ltb max_selected (length chosen)
      then deny guardrail_violation
      else elim (merge_selected chosen hints) [
        | unknown id ↦ not_in_snapshot id
        | merged selected ↦ gate_missing g agent selected (missing_required_params selected)
      ]

  -- `margin < MarginThreshold`; with one candidate the margin is 1, and a negative one is below.
  abbrev pub is_close : Candidate → List Candidate → Bool
  is_close top [] = false
  is_close top (c ∷ cs) =
      ltb top.confidence c.confidence || ltb (sub top.confidence c.confidence) margin_threshold

  unfoldable pub decide : Gate → Bytes → MatchResult → List Hint → GateDecision
  decide g agent res hints = elim res.candidates [
    | [] ↦ deny no_match
    | top ∷ rest ↦
        if res.structured
        then gate_chosen g agent hints (top ∷ rest)
        else if ltb top.confidence no_match_threshold
        then deny no_match
        else if ltb top.confidence proceed_threshold || is_close top rest
        then ambiguous_decision (top ∷ rest)
        else gate_chosen g agent hints (top ∷ [])
  ]
