-- ===== src/Tests/Gated.antt =====
-- A request that the gate lets proceed.
use taskgrant.Prelude.{
  ◌*◌, ◌^◌, ◌≤◌, ◌≡◌, refl, true, false, Option, none, some, List, [], ◌∷◌, Bytes, codes, same,
  length, In, if◌then◌else◌,
}
use taskgrant.Gate.{
  Gate, Capability, Candidate, MatchResult, Selected, decide, proceed, is_close, max_selected,
  proceed_threshold,
}
use taskgrant.Gate.Proceed.{IsCleared, Leads, decide_proceeds}

abbrev bucket_read : Capability
bucket_read = record {
  id = codes "s3-read";
  summary = [];
  params = record { name = codes "b"; required = true; expected_shape = []; examples = [] } ∷ [];
  requires_approval = false;
}

abbrev snapshot : Bytes → Option Capability
snapshot id = if same id (codes "s3-read") then some bucket_read else none

abbrev seen_all : Gate
seen_all = record { first_use = some (λ agent id. some false); first_use_approval = true }

abbrev candidate : Candidate
candidate = record {
  capability_id = codes "s3-read";
  params = (codes "b", codes "x") ∷ [];
  confidence = 0x1B333333333333 * 2 ^ 1021;
}

abbrev runner_up : Candidate
runner_up = record candidate { confidence = 2 ^ 1073 }

abbrev matches : MatchResult
matches = record { structured = false; candidates = candidate ∷ runner_up ∷ [] }

abbrev selection : List Selected
selection = record { capability = bucket_read; params = (codes "b", codes "x") ∷ [] } ∷ []

-- 0.85 - 0.65 is below 0.20 in float64.
close :
    is_close snapshot candidate (record candidate { confidence = 0x14CCCCCCCCCCCD * 2 ^ 1021 } ∷ [])
    ≡ true
unfolding taskgrant.Prelude.Float.sub
close = refl

proceeds : decide snapshot seen_all (codes "bot") matches [] ≡ proceed selection
unfolding decide taskgrant.Prelude.Float.sub taskgrant.Gate.gate_chosen
    taskgrant.Gate.merge_selected taskgrant.Gate.missing_required_params taskgrant.Gate.sort_missing
    taskgrant.Gate.missing_all taskgrant.Gate.missing_of taskgrant.Gate.is_missing
    taskgrant.Gate.overlay taskgrant.Gate.hinted taskgrant.Gate.gate_first_use
    taskgrant.Gate.approval_reasons taskgrant.Gate.first_use_reasons taskgrant.Prelude.trim_space
proceeds = refl

decide_proceeds_example :
    (length selection ≤ max_selected)
    × ((s : Selected) → In s selection → IsCleared snapshot seen_all (codes "bot") s)
    × (false ≡ false
        → (length selection ≡ 1)
          × ((top : Candidate) × (rest : List Candidate) × (candidate ∷ runner_up ∷ [] ≡ top ∷ rest)
              × (proceed_threshold ≤ top.confidence)
              × Leads top rest))
decide_proceeds_example = decide_proceeds snapshot seen_all (codes "bot") matches [] proceeds
