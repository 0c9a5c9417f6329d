-- ===== src/Domain/Codes.antt =====
-- internal/domain/codes.go: the closed sets of denial codes and record kinds. Both are strings.
use taskgrant.Prelude.{Bool, Bytes, List, [], ◌∷◌, codes, has}

abbrev pub DenialCode : Type 0
DenialCode = Bytes

abbrev pub no_match : DenialCode
no_match = codes "NO_MATCH"

abbrev pub ambiguous_match : DenialCode
ambiguous_match = codes "AMBIGUOUS_MATCH"

abbrev pub missing_param : DenialCode
missing_param = codes "MISSING_PARAM"

abbrev pub guardrail_violation : DenialCode
guardrail_violation = codes "GUARDRAIL_VIOLATION"

-- The map `denialCodes`, and the slice that `DenialCodes()` lists.
abbrev pub denial_codes : List DenialCode
denial_codes =
    no_match
    ∷ ambiguous_match
    ∷ missing_param
    ∷ codes "INVALID_PARAM"
    ∷ codes "NEEDS_STRUCTURED_HINTS"
    ∷ guardrail_violation
    ∷ codes "OVER_BUDGET"
    ∷ codes "RATE_LIMITED"
    ∷ codes "CLARIFICATION_EXHAUSTED"
    ∷ codes "APPROVAL_DENIED"
    ∷ codes "APPROVAL_TIMEOUT"
    ∷ codes "AGENT_NOT_PERMITTED"
    ∷ codes "PROFILE_NOT_ALLOWED"
    ∷ codes "POLICY_TOO_LARGE"
    ∷ codes "STS_ERROR"
    ∷ []

unfoldable pub denial_code_valid : DenialCode → Bool
denial_code_valid c = has c denial_codes

abbrev pub RecordKind : Type 0
RecordKind = Bytes

abbrev pub prune_kind : RecordKind
prune_kind = codes "prune"

abbrev pub record_kinds : List RecordKind
record_kinds =
    codes "grant_decision"
    ∷ codes "clarification"
    ∷ codes "approval"
    ∷ codes "revocation"
    ∷ codes "release"
    ∷ prune_kind
    ∷ []

unfoldable pub record_kind_valid : RecordKind → Bool
record_kind_valid k = has k record_kinds
