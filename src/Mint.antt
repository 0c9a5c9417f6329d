-- ===== src/Mint.antt =====
-- The minter of internal/stsmint/stsmint.go, with the session tags of internal/domain/domain.go. STS
-- is a client that answers a call by the calls before it, newest first; `parse_strict` stands for
-- `ulid.ParseStrict`. The session's packed size and the request id only go into the record.
pub mod Calls
use taskgrant.Prelude.{
  ℕ, ◌+◌, ◌*◌, ◌/◌, Bool, true, false, ◌||◌, not, Option, none, some, List, [], ◌∷◌, ◌++◌, Bytes,
  codes, ltb, is_empty, length, if◌then◌else◌,
}
use taskgrant.Domain.Names.{validate_agent_id, role_session_name, source_identity}
use taskgrant.Domain.Sanitize.{sanitize_caller_ref}

abbrev pub min_mint_seconds : ℕ
min_mint_seconds = 900

abbrev pub max_mint_seconds : ℕ
max_mint_seconds = 43200

abbrev pub max_policy_arns : ℕ
max_policy_arns = 10

pub record MintRequest : Type 0 where
  pub grant_id : Bytes
  pub agent_id : Bytes
  pub profile : Bytes
  pub role_arn : Bytes
  pub region : Bytes
  pub policy_json : Bytes
  pub policy_arns : List Bytes
  pub duration_seconds : ℕ
  pub caller_ref : Bytes
  pub external_id : Bytes

-- The fields that are set; a pointer that stays nil is `none`. `region` is the option of the call.
pub record AssumeRoleInput : Type 0 where
  pub role_arn : Bytes
  pub role_session_name : Bytes
  pub duration_seconds : ℕ
  pub tags : List (Bytes × Bytes)
  pub transitive_tag_keys : List Bytes
  pub source_identity : Bytes
  pub policy : Option Bytes
  pub policy_arns : List Bytes
  pub external_id : Option Bytes
  pub region : Option Bytes

pub record Credentials : Type 0 where
  pub access_key_id : Bytes
  pub secret_access_key : Bytes
  pub session_token : Bytes
  pub expiration : ℕ

-- What `AssumeRole` answers: credentials, a response without them, or an error of the service.
pub data StsReply : Type 0 where
  assumed : Credentials → StsReply
  without_credentials packed_policy_too_large refused : StsReply

abbrev pub Calls : Type 0
Calls = List AssumeRoleInput

abbrev pub Client : Type 0
Client = Calls → AssumeRoleInput → StsReply

pub data InputError : Type 0 where
  bad_grant_id bad_agent_id no_role no_profile bad_duration too_many_arns : InputError

pub data MintError {ℓ} (E : Type ℓ) : Type ℓ where
  bad_request : InputError → MintError E
  -- Characters and ARNs of the rejected policy.
  too_large : ℕ → ℕ → MintError E
  no_credentials sts_failed : MintError E
  -- Both attempts of the compact protocol.
  still_too_large : ℕ × ℕ → ℕ × ℕ → MintError E
  compact_failed : E → MintError E

pub record Minted : Type 0 where
  pub credentials : Credentials
  pub role_session_name : Bytes
  pub source_identity : Bytes
  pub session_tags : List (Bytes × Bytes)

pub data MintReply {ℓ} (E : Type ℓ) : Type ℓ where
  minted : Minted → MintReply E
  mint_failed : MintError E → MintReply E

pub data Built : Type 0 where
  built : AssumeRoleInput → Built
  rejected : InputError → Built

abbrev pub unless_empty : Bytes → Option Bytes
unless_empty s = if is_empty s then none else some s

abbrev pub tag_key_agent : Bytes
tag_key_agent = codes "taskgrant:agent"

abbrev pub tag_key_grant : Bytes
tag_key_grant = codes "taskgrant:grant"

abbrev pub tag_key_profile : Bytes
tag_key_profile = codes "taskgrant:profile"

abbrev pub tag_key_caller_ref : Bytes
tag_key_caller_ref = codes "taskgrant:caller_ref"

abbrev pub caller_ref_tag : Bytes → List (Bytes × Bytes)
caller_ref_tag r = if is_empty r then [] else (tag_key_caller_ref, r) ∷ []

unfoldable pub session_tags : MintRequest → List (Bytes × Bytes)
session_tags req =
    (tag_key_agent, req.agent_id)
    ∷ (tag_key_grant, req.grant_id)
    ∷ (tag_key_profile, req.profile)
    ∷ caller_ref_tag (sanitize_caller_ref req.caller_ref)

unfoldable pub assume_role_input : MintRequest → AssumeRoleInput
assume_role_input req = record {
  role_arn = req.role_arn;
  role_session_name = role_session_name req.agent_id req.grant_id;
  duration_seconds = req.duration_seconds;
  tags = session_tags req;
  transitive_tag_keys = tag_key_agent ∷ tag_key_grant ∷ [];
  source_identity = source_identity req.grant_id;
  policy = unless_empty req.policy_json;
  policy_arns = req.policy_arns;
  external_id = unless_empty req.external_id;
  region = unless_empty req.region;
}

abbrev pub is_too_large {ℓ} : {E : Type ℓ} → MintReply E → Option (ℕ × ℕ)
is_too_large (mint_failed (too_large chars arns)) = some (chars, arns)
is_too_large _ = none

-- What a compaction gives back: the policy, and the policy ARNs unless they are nil.
pub data Compacted {ℓ} (E : Type ℓ) : Type ℓ where
  compacted : Bytes → Option (List Bytes) → Compacted E
  not_compacted : E → Compacted E

abbrev pub or_arns : List Bytes → Option (List Bytes) → List Bytes
or_arns arns none = arns
or_arns arns (some more) = more

abbrev pub tighter : MintRequest → ℕ
tighter req = length req.policy_json * 80 / 100

abbrev pub with_policy : MintRequest → Bytes → Option (List Bytes) → MintRequest
with_policy req policy arns = record req {
  policy_json = policy;
  policy_arns = or_arns req.policy_arns arns;
}

module _ (parse_strict : Bytes → Bool) where
  unfoldable pub build_assume_role_input : MintRequest → Built
  build_assume_role_input req =
      if not (parse_strict req.grant_id)
      then rejected bad_grant_id
      else if not (validate_agent_id req.agent_id)
      then rejected bad_agent_id
      else if is_empty req.role_arn
      then rejected no_role
      else if is_empty req.profile
      then rejected no_profile
      else if ltb req.duration_seconds min_mint_seconds || ltb max_mint_seconds req.duration_seconds
      then rejected bad_duration
      else if ltb max_policy_arns (length req.policy_arns)
      then rejected too_many_arns
      else built (assume_role_input req)

  module _ {ℓ} {E : Type ℓ} (client : Client) where
    -- From the reply of STS on.
    unfoldable pub mint_reply : MintRequest → AssumeRoleInput → StsReply → MintReply E
    mint_reply req input (assumed c) = minted record {
      credentials = c;
      role_session_name = input.role_session_name;
      source_identity = input.source_identity;
      session_tags = input.tags;
    }
    mint_reply req input without_credentials = mint_failed no_credentials
    mint_reply req input packed_policy_too_large =
        mint_failed (too_large (length req.policy_json) (length req.policy_arns))
    mint_reply req input refused = mint_failed sts_failed

    unfoldable pub mint : MintRequest → Calls → MintReply E × Calls
    mint req calls = elim (build_assume_role_input req) [
      | rejected e ↦ (mint_failed (bad_request e), calls)
      | built input ↦ (mint_reply req input (client calls input), input ∷ calls)
    ]

    -- The second attempt; a second rejection carries both.
    unfoldable pub mint_again : ℕ × ℕ → MintRequest → Calls → MintReply E × Calls
    mint_again first retry calls =
        let (reply, calls') = mint retry calls in
        elim (is_too_large reply) [
          | none ↦ (reply, calls')
          | some second ↦ (mint_failed (still_too_large first second), calls')
        ]

    -- `S` is what the compaction changes on the side. The broker always passes one.
    unfoldable pub mint_with_compact :
        {S : Type 0}
        → MintRequest
        → (ℕ → S → Compacted E × S)
        → S
        → Calls
        → MintReply E × (S × Calls)
    mint_with_compact req compact s calls =
        let (reply, calls') = mint req calls in
        elim (is_too_large reply) [
          | none ↦ (reply, (s, calls'))
          | some first ↦
              let (out, s') = compact (tighter req) s in
              elim out [
                | not_compacted e ↦ (mint_failed (compact_failed e), (s', calls'))
                | compacted policy arns ↦
                    let (again, calls'') = mint_again first (with_policy req policy arns) calls' in
                    (again, (s', calls''))
              ]
        ]
