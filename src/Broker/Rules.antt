-- ===== src/Broker/Rules.antt =====
-- internal/broker/rules.go: the metadata of the guardrails, the cross-check of the actions, and the
-- approval rules.
pub mod Covered
use taskgrant.Prelude.{
  ℕ, suc, Bool, true, false, not, ◌||◌, ◌&&◌, Option, none, some, List, [], ◌∷◌, ◌++◌, map, Bytes,
  same, is_empty, has, any, lower, sort, if◌then◌else◌,
}
use taskgrant.Prelude.Maps.{put}
use taskgrant.Dataset.{Dataset, lookup}
use taskgrant.Gate.{Params}
use taskgrant.Guardrails.{CapabilityMeta}
use taskgrant.Broker.{
  CapabilityRef, SynthResult, CatalogCapability, Snapshot, ApprovalMatch, ApprovalRule,
}

-- The params of one statement, key by key over those before it.
abbrev pub put_params : Params → Params → Params
put_params out [] = out
put_params out ((k, v) ∷ ps) = put_params (put same k v out) ps

-- `capabilityParams` of records.go.
unfoldable pub capability_params : List (Bytes × Params) → Bytes → Params → Params
capability_params [] id out = out
capability_params ((c, ps) ∷ sts) id out =
    capability_params sts id (if same c id then put_params out ps else out)

-- Whether a parameter of the capability came from a wildcard entry.
unfoldable pub from_wildcard : Snapshot → SynthResult → Bytes → Bool
from_wildcard snap res id =
    let params = capability_params res.explanation id [] in
    if is_empty params then false else elim (snap.validate_params id params) [
      | none ↦ false
      | some wildcards ↦ any (λ w. w) wildcards
    ]

abbrev pub bare_meta : Bytes → CapabilityMeta
bare_meta id = record {
  id = id;
  max_duration_seconds = 0;
  tagging_opt_in = false;
  resource_star_opt_in = false;
  wildcard_allowlist_resource = false;
}

unfoldable pub meta_of : Option Snapshot → SynthResult → CapabilityRef → CapabilityMeta
meta_of none res ref = bare_meta ref.id
meta_of (some snap) res ref = elim (snap.capability ref.id) [
  | none ↦ bare_meta ref.id
  | some c ↦ record {
    id = ref.id;
    max_duration_seconds = c.max_duration_seconds;
    tagging_opt_in = c.is_tagging;
    resource_star_opt_in = false;
    wildcard_allowlist_resource = from_wildcard snap res ref.id;
  }
]

unfoldable pub capability_meta : Option Snapshot → SynthResult → List CapabilityMeta × Bool
capability_meta snap res =
    let metas = map (meta_of snap res) res.capabilities in
    (metas, any (λ (m : CapabilityMeta). m.wildcard_allowlist_resource) metas)

abbrev pub actions_of : Option CatalogCapability → List Bytes
actions_of none = []
actions_of (some c) = map lower c.actions

-- The keys of the set `declared`.
unfoldable pub declared_actions : Snapshot → List CapabilityRef → List Bytes
declared_actions snap [] = []
declared_actions snap (ref ∷ refs) =
    actions_of (snap.capability ref.id) ++ declared_actions snap refs

unfoldable pub declared_action_set : Option Snapshot → List CapabilityRef → Option (List Bytes)
declared_action_set none refs = none
declared_action_set (some snap) refs = some (declared_actions snap refs)

unfoldable pub uncovered : List Bytes → List Bytes → List Bytes
uncovered declared [] = []
uncovered declared (a ∷ expanded) =
    let rest = uncovered declared expanded in if has (lower a) declared then rest else a ∷ rest

unfoldable pub uncovered_actions : List Bytes → List Bytes → List Bytes
uncovered_actions declared expanded = sort (uncovered declared expanded)

unfoldable pub access_levels : Dataset → List Bytes → List Bytes
access_levels ds [] = []
access_levels ds (a ∷ actions) =
    let rest = access_levels ds actions in
    elim (lookup ds a) [ none ↦ rest | some info ↦ info.access_level ∷ rest ]

unfoldable pub rule_matches : ApprovalMatch → Bytes → Bytes → List Bytes → List Bytes → Bool
rule_matches m agent profile cap_ids levels =
    if not (is_empty m.agent) && not (same m.agent agent)
    then false
    else if not (is_empty m.profile) && not (same m.profile profile)
    then false
    else if not (is_empty m.capability) && not (has m.capability cap_ids)
    then false
    else if not (is_empty m.access_level) && not (has m.access_level levels)
    then false
    else true

-- The loop: the first rule that matches, with its index and its action.
unfoldable pub first_match : (ApprovalRule → Bool) → ℕ → List ApprovalRule → Option (ℕ × Bool)
first_match matches i [] = none
first_match matches i (r ∷ rules) =
    let rest = first_match matches (suc i) rules in
    if matches r then some (i, r.requires_approval) else rest

-- `none` is the answer `-1, false`.
unfoldable pub approval_rule_required :
    Dataset → List ApprovalRule → Bytes → Bytes → SynthResult → Option (ℕ × Bool)
approval_rule_required ds rules agent profile res =
    first_match
      (λ (r : ApprovalRule).
        rule_matches r.rule_match agent profile (map (λ (c : CapabilityRef). c.id) res.capabilities)
          (access_levels ds res.expanded_actions))
      0 rules
