-- ===== src/Broker/Minting.antt =====
-- internal/broker/mint.go: the mint of a grant with one compact retry. The texts of the errors and
-- of the recorded attempts are not modelled.
pub mod Duration
pub mod Verified
pub mod Kept
use taskgrant.Prelude.{
  ℕ, Bool, true, false, ◌&&◌, Option, none, some, List, [], ◌∷◌, ◌==◌, ltb, Bytes, codes, same,
  is_empty, map, if◌then◌else◌,
}
use taskgrant.Prelude.Maps.{get}
use taskgrant.Domain.Codes.{DenialCode}
use taskgrant.Guardrails.{Result, Input, CapabilityMeta, rank}
use taskgrant.Guardrails.Evaluator.{duration_floor_seconds, chained_duration_cap_seconds}
use taskgrant.Mint.{
  MintRequest, Minted, MintError, MintReply, minted, mint_failed, still_too_large, compact_failed,
  Compacted, compacted, not_compacted, Calls, mint_with_compact,
}
use taskgrant.Broker.{
  CapabilityRef, SynthVerdict, SynthResult, Snapshot, ProfileConfig, Config, Deps, Entry, Broker,
}
use taskgrant.Broker.Entries.{combined_policy_arns}
use taskgrant.Broker.Rules.{capability_meta, bare_meta}

pub data CompactError : Type 0 where
  compact_rejected synthesizer_failed : CompactError

pub data GrantMintError : Type 0 where
  profile_vanished : GrantMintError
  mint_error : MintError CompactError → GrantMintError

pub data GrantMint : Type 0 where
  grant_minted : Minted → GrantMint
  grant_not_minted : GrantMintError → GrantMint

-- `Config.ProfileRegion`.
unfoldable pub profile_region : Config → Bytes → Bytes
profile_region c profile = elim (get same profile c.profiles) [
  | none ↦ c.sts_region
  | some p ↦ if is_empty p.region then c.sts_region else p.region
]

-- `Config.EffectiveMaxDurationSeconds`.
unfoldable pub effective_max_duration_seconds : Config → Bytes → ℕ
effective_max_duration_seconds c profile = elim (get same profile c.profiles) [
  | none ↦ c.max_duration_seconds
  | some p ↦
      if ltb 0 p.max_duration_seconds && ltb p.max_duration_seconds c.max_duration_seconds
      then p.max_duration_seconds
      else c.max_duration_seconds
]

abbrev pub at_most : Bool → ℕ → ℕ → ℕ
at_most limited cap seconds = if limited && ltb cap seconds then cap else seconds

unfoldable pub fallback_duration : ℕ → ℕ → Bool → ℕ
fallback_duration default cap chained =
    let seconds = if default == 0 then duration_floor_seconds else default in
    let capped = at_most (ltb 0 cap) cap seconds in
    let by_chain = at_most chained chained_duration_cap_seconds capped in
    if ltb by_chain duration_floor_seconds then duration_floor_seconds else by_chain

unfoldable pub meta_only : Option Snapshot → SynthResult → List CapabilityMeta
meta_only snap res =
    let metas = (capability_meta snap res).0 in
    if is_empty metas then map (λ (r : CapabilityRef). bare_meta r.id) res.capabilities else metas

abbrev pub is_policy : SynthVerdict → Bool
is_policy SynthVerdict.policy = true
is_policy _ = false

abbrev pub is_failed : Result → Bool
is_failed r = rank r.overall == 3

module _ (deps : Deps) where
  abbrev pub seconds_of : ProfileConfig → Entry → ℕ
  seconds_of profile e =
      if e.effective_seconds == 0
      then fallback_duration deps.config.default_duration_seconds profile.max_duration_seconds
          deps.chained
      else e.effective_seconds

  -- The input of the second verification.
  abbrev pub compact_input : ProfileConfig → Entry → SynthResult → Input
  compact_input profile e res = record {
    policy_json = res.policy_json;
    agent_id = e.agent_id;
    allowed_access_levels = none;
    requested_duration_seconds = seconds_of profile e;
    profile_max_duration_seconds = profile.max_duration_seconds;
    capabilities = meta_only deps.catalog res;
    require_resource_account = false;
    broker_chained = deps.chained;
    max_policy_chars = 0;
  }

  -- The function `compact` that the minter calls back: it changes the entry where it succeeds.
  unfoldable pub compact : Broker → ProfileConfig → ℕ → Entry → Compacted CompactError × Entry
  compact b profile max_chars e = elim (deps.compact e.result max_chars) [
    | none ↦ (not_compacted synthesizer_failed, e)
    | some res ↦
        if is_policy res.verdict
        then if is_empty res.policy_json
          then (not_compacted compact_rejected, e)
          else if is_failed (deps.evaluate none (compact_input profile e res) b.durable).0
          then (not_compacted compact_rejected, e)
          else (
            compacted res.policy_json
                (some (combined_policy_arns profile.policy_arns res.policy_arns)),
            record e { result = res; budget_chars = max_chars },
          )
        else (not_compacted compact_rejected, e)
  ]

  unfoldable pub mint_request : ProfileConfig → Entry → MintRequest
  mint_request profile e = record {
    grant_id = e.grant_id;
    agent_id = e.agent_id;
    profile = e.profile;
    role_arn = profile.role_arn;
    region = profile_region deps.config e.profile;
    policy_json = e.result.policy_json;
    policy_arns = combined_policy_arns profile.policy_arns e.result.policy_arns;
    duration_seconds = seconds_of profile e;
    caller_ref = e.request.caller_ref;
    external_id = profile.external_id;
  }

  abbrev pub grant_mint : MintReply CompactError → GrantMint
  grant_mint (minted m) = grant_minted m
  grant_mint (mint_failed e) = grant_not_minted (mint_error e)

  unfoldable pub mint_grant : Entry → Broker → GrantMint × (Entry × Broker)
  mint_grant e b = elim (get same e.profile deps.config.profiles) [
    | none ↦ (grant_not_minted profile_vanished, (e, b))
    | some profile ↦
        let (reply, (e', calls)) =
          mint_with_compact deps.parse_strict deps.client (mint_request profile e)
            (compact b profile) e b.calls in
        (grant_mint reply, (e', record b { calls = calls }))
  ]

abbrev pub policy_too_large : DenialCode
policy_too_large = codes "POLICY_TOO_LARGE"

abbrev pub sts_error : DenialCode
sts_error = codes "STS_ERROR"

unfoldable pub classify_mint_error : GrantMintError → DenialCode
classify_mint_error (mint_error (still_too_large first second)) = policy_too_large
classify_mint_error (mint_error (compact_failed compact_rejected)) = policy_too_large
classify_mint_error _ = sts_error
