-- ===== src/Broker.antt =====
-- The broker of internal/broker with the types of internal/synth/synth.go and the parts of the
-- configuration that it reads. What the broker takes as interfaces is in the record `Deps`: the
-- synthesizer, the evaluator of the guardrails, the catalog, and STS as a client. A time is a number
-- and 0 is the zero time; each operation reads the clock once, as an argument.
pub mod Entries
pub mod Rules
pub mod Minting
pub mod Views
pub mod Pipeline
pub mod Decide
pub mod Request
pub mod Human
pub mod Sweep
pub mod Release
use taskgrant.Prelude.{ℕ, Bool, Option, List, Bytes}
use taskgrant.Domain.Codes.{DenialCode}
use taskgrant.Domain.State.{State}
use taskgrant.Dataset.{Dataset}
use taskgrant.Gate.{Params}
use taskgrant.Guardrails.{Result, Input}
use taskgrant.Guardrails.State.{StateStore}
use taskgrant.Mint.{Credentials, Client, Calls}
use taskgrant.Approvals.{Manager}
use taskgrant.Store.Idempotency.{IdempotencyKeys}
use taskgrant.Store.Ledger.{Durable}

pub record CapabilityRef : Type 0 where
  pub id : Bytes
  pub version : ℕ

pub data SynthVerdict : Type 0 where
  policy deny needs_clarification pending_approval : SynthVerdict
  other : Bytes → SynthVerdict

pub record Clarification : Type 0 where
  pub code : Bytes
  pub questions : List Bytes
  pub retry_token : Bytes
  pub round : ℕ

-- A statement's explanation is the capability's id and the params.
pub record SynthResult : Type 0 where
  pub verdict : SynthVerdict
  pub policy_json : Bytes
  pub policy_arns : List Bytes
  pub effective_duration : ℕ
  pub explanation : List (Bytes × Params)
  pub clarification : Option Clarification
  pub denial_code : Bytes
  pub capabilities : List CapabilityRef
  pub expanded_actions : List Bytes

-- A request of an agent, without what only goes into the record.
pub record GrantRequest : Type 0 where
  pub task : Bytes
  pub reason : Bytes
  pub profile : Bytes
  pub capabilities : List (Bytes × Params)
  pub services : List Bytes
  pub resources : List Bytes
  pub access : Bytes
  pub duration_seconds : ℕ
  pub caller_ref : Bytes
  pub idempotency_key : Bytes
  pub retry_token : Bytes

pub record ProfileConfig : Type 0 where
  pub role_arn : Bytes
  pub max_duration_seconds : ℕ
  pub region : Bytes
  pub external_id : Bytes
  pub policy_arns : List Bytes

pub record AgentConfig : Type 0 where
  pub profiles : List Bytes
  pub default_profile : Bytes

pub record ApprovalMatch : Type 0 where
  pub access_level : Bytes
  pub agent : Bytes
  pub profile : Bytes
  pub capability : Bytes

-- `requires_approval` is the action `require_approval`.
pub record ApprovalRule : Type 0 where
  pub rule_match : ApprovalMatch
  pub requires_approval : Bool

pub record Config : Type 0 where
  pub agents : List (Bytes × AgentConfig)
  pub profiles : List (Bytes × ProfileConfig)
  pub rules : List ApprovalRule
  pub sts_region : Bytes
  pub default_duration_seconds : ℕ
  pub max_duration_seconds : ℕ
  pub credential_redelivery : Bool
  pub revoke_on_release : Bool

-- What the synthesizer is asked.
pub record SynthRequest : Type 0 where
  pub grant_id : Bytes
  pub agent_id : Bytes
  pub profile : Bytes
  pub max_duration_seconds : ℕ
  pub request : GrantRequest

pub data SynthReply : Type 0 where
  -- With the first-use capabilities of the trace, if the synthesizer traces.
  synthesized : SynthResult → Option (List Bytes) → SynthReply
  invalid_retry_token synthesis_failed : SynthReply

pub record CatalogCapability : Type 0 where
  pub max_duration_seconds : ℕ
  pub is_tagging : Bool
  pub actions : List Bytes

-- `ValidateParams`: for each param whether it came from a wildcard entry, `none` for an error.
pub record Snapshot : Type 0 where
  pub capability : Bytes → Option CatalogCapability
  pub validate_params : Bytes → Params → Option (List Bool)

pub record Deps : Type 0 where
  pub config : Config
  pub synthesize : SynthRequest → SynthReply
  pub compact : SynthResult → ℕ → Option SynthResult
  pub evaluate : Option (StateStore Durable) → Input → Durable → Result × Durable
  pub catalog : Option Snapshot
  pub dataset : Dataset
  pub client : Client
  pub parse_strict : Bytes → Bool
  -- Base64 and JSON of a token's body: the grant id and the round.
  pub decode_token : Bytes → Option (Bytes × ℕ)
  pub chained : Bool
  -- `RevokeGrant` of a role for a grant until its expiry, if it is wired: whether it succeeds.
  pub revoker : Option (Bytes → Bytes → ℕ → Bool)

pub record Entry : Type 0 where
  pub grant_id : Bytes
  pub agent_id : Bytes
  pub profile : Bytes
  pub state : State
  pub received_at : ℕ
  pub decided_at : ℕ
  pub minted_at : ℕ
  pub expires_at : ℕ
  pub request : GrantRequest
  pub result : SynthResult
  pub budget_chars : ℕ
  pub effective_seconds : ℕ
  pub required_by : Bytes
  pub denial : DenialCode
  pub errored : Bool
  pub delivery : Option Credentials
  pub delivered : Bool
  pub released : Bool
  pub release_outcome : Bytes
  pub released_at : ℕ
  pub revocation_written : Bool
  pub terminal_at : ℕ

-- `Outcome` of a record's body, and `Decision` of the approval in it.
pub data Outcome : Type 0 where
  auto_approved pending_approval approved denied expired_pending needs_clarification : Outcome
  error : Outcome
  other : Bytes → Outcome

pub data RecordKind : Type 0 where
  grant_decision clarification approval release other : RecordKind

-- The fields of `decisionBody` that are read back; an expiration that does not parse is 0.
pub record Body : Type 0 where
  pub outcome : Outcome
  pub approval : Option Outcome
  pub denial_code : DenialCode
  pub round : Option ℕ
  pub expiration : ℕ
  pub sts_expiration : Option ℕ

-- The body is `none` where it does not decode.
pub record LogRecord : Type 0 where
  pub kind : RecordKind
  pub grant_id : Bytes
  pub agent_id : Bytes
  pub profile : Bytes
  pub body : Option Body

-- The registry, the log, the calls of STS, and the tables of the store.
pub record Broker : Type 0 where
  pub grants : List (Bytes × Entry)
  pub approvals : Manager
  pub durable : Durable
  pub idempotency_keys : IdempotencyKeys
  pub log : List LogRecord
  pub calls : Calls

pub data Status : Type 0 where
  active pending_approval needs_clarification denied expired released error : Status

pub data ErrorCode : Type 0 where
  invalid_argument internal : ErrorCode

pub record View : Type 0 where
  pub grant_id : Bytes
  pub status : Status
  pub expires_at : ℕ
  pub poll_after_seconds : ℕ
  pub pending_expires_at : ℕ
  pub clarification : Option Clarification
  pub denial_code : DenialCode
  pub human_approval_available : Bool
  pub error_code : Option ErrorCode
  pub credentials : Option Credentials
