-- ===== src/Tests/Rules.antt =====
-- Runs of the state machine, and the dataset of the fixture.
use taskgrant.Prelude.{
  ℕ, ◌≡◌, ◌↔◌, refl, ◌⊎◌, inl, inr, Bool, true, false, Option, none, some, List, [], ◌∷◌, Bytes,
  codes, In, lower, trim_space, has_wildcard, arith,
}
use taskgrant.Glob.Relation.{Matches, literal_or_any}
use taskgrant.Glob.Decide.{StarFree}
use taskgrant.Domain.State.{
  received, synthesized, denied, auto_approved, approved, minted, terminal, validate_transition,
  set_state, set_states, set_states-terminal, IsEarly, guardrails_before_credentials,
  credentials_after_approval,
}
use taskgrant.Dataset.{expand, names_of}
use taskgrant.Dataset.Load.{FileAction, FileModel, Loaded, load_model, IsTable, load_model-IsTable}
use taskgrant.Dataset.Expand.{expand_wildcard_iff}
use taskgrant.Tests.Fixture.{dataset}

final : terminal denied ≡ true
unfolding terminal
final = refl

set_states-terminal_example : set_states denied (synthesized ∷ minted ∷ []) ≡ denied
set_states-terminal_example = set_states-terminal denied (synthesized ∷ minted ∷ []) final

guardrails_before_credentials_example : IsEarly (set_states received (synthesized ∷ minted ∷ []))
guardrails_before_credentials_example =
    guardrails_before_credentials (synthesized ∷ minted ∷ []) (λ i. ground arith)

mints : (set_state approved minted).0 ≡ minted
unfolding set_state validate_transition
mints = refl

credentials_after_approval_example :
    (minted ≡ minted) × ((approved ≡ auto_approved) ⊎ (approved ≡ approved))
credentials_after_approval_example =
    credentials_after_approval approved minted (λ h. ground arith) (inl mints)

abbrev model : FileModel
model = record {
  schema_version = 1;
  source_commit = codes "c0ffee";
  actions =
      (
        codes "s3:GetObject",
        record {
          access_level = codes "Read";
          resource_types = codes "object" ∷ [];
          condition_keys = [];
        },
      )
      ∷ [];
}

loads : load_model (codes "00") model ≡ Loaded.ok dataset
unfolding load_model taskgrant.Dataset.Load.load_loop taskgrant.Dataset.Load.has_name_form
    taskgrant.Dataset.access_level_valid lower taskgrant.Prelude.sort
loads = refl

load_model-IsTable_example : IsTable dataset.actions dataset.names
load_model-IsTable_example = load_model-IsTable (codes "00") model loads

wild : has_wildcard (trim_space (codes "s3:Get*")) ≡ true
unfolding trim_space
wild = refl

expands : expand dataset (codes "s3:Get*") ≡ names_of (codes "s3:GetObject" ∷ [])
unfolding expand trim_space taskgrant.Dataset.valid_pattern taskgrant.Dataset.is_pattern_byte
    taskgrant.Dataset.expand_wildcard taskgrant.Dataset.wildcard_matches
    taskgrant.Glob.dataset_match lower
expands = refl

star_free : StarFree (lower (codes "s3:GetObject"))
unfolding lower
star_free = refl

expand_wildcard_iff_example : In (codes "s3:GetObject") (codes "s3:GetObject" ∷ []) ↔ (
    In (codes "s3:GetObject") dataset.names
    × Matches literal_or_any (lower (trim_space (codes "s3:Get*"))) (lower (codes "s3:GetObject")))
expand_wildcard_iff_example =
    expand_wildcard_iff dataset (codes "s3:Get*") wild expands (codes "s3:GetObject") star_free

plain : has_wildcard (trim_space (codes "S3:getobject")) ≡ false
unfolding trim_space
plain = refl

expands_one : expand dataset (codes "S3:getobject") ≡ names_of (codes "s3:GetObject" ∷ [])
unfolding expand trim_space taskgrant.Dataset.valid_pattern taskgrant.Dataset.is_pattern_byte
    taskgrant.Dataset.expand_literal taskgrant.Dataset.lookup lower
expands_one = refl
