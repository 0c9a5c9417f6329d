-- ===== src/Lib.antt =====
-- taskgrant: a broker that turns an agent's task into a scoped cloud policy, checks the policy by
-- guardrails, parks it for a human where that is needed, and mints short credentials.
--
-- The program's parts and their modules. Paths are from the repository's root.
--   Domain: internal/domain. Domain/State is the state machine of a grant (`ValidateTransition`,
--     `Grant.SetState`), Domain/Codes the denial codes and record kinds, Domain/Names the names
--     derived from ids (`SourceIdentity`, `RoleSessionName`), Domain/Sanitize the cleaning of agent
--     text (`SanitizeForDisplay`, `SanitizeCallerRef`).
--   Glob: the three `globMatch` loops of internal/synth/catalog/glob.go,
--     internal/guardrails/policy.go and internal/dataset/dataset.go. Glob/Relation says what matching
--     is, Glob/Loop and Glob/Decide compare the loops with it, Glob/Cover is `globCovers` and
--     `collapseStars`, Glob/Arn the field-wise tests of ARNs.
--   Dataset: internal/dataset. Lookup and expansion of action patterns, Dataset/Load the checks of
--     `LoadBytes`, Dataset/Denylist the escalation actions, Dataset/Keys the condition keys.
--   Guardrails: internal/guardrails. Guardrails/Document, /Parse and /Charset read a policy,
--     /Conditions its condition blocks, /Evaluator is `New`, /Checks, /Pins, /Limits and /State are the
--     checks G0 to G8, and /Evaluate composes them; its children say what a passing evaluation means.
--   Store: internal/store/security.go, a module for each table: Store/Rates, Store/Ledger (with the
--     `stateAdapter` of internal/broker/rules.go), Store/FirstUse, Store/Idempotency, Store/Pending.
--   Approvals: the manager of internal/approvals/approvals.go over the store.
--   Gate: the confidence gate of internal/synth/match/gate.go.
--   Mint: internal/stsmint/stsmint.go. The construction of an AssumeRole call, one mint, and the
--     compact protocol; Mint/Calls says what reaches STS.
--   Broker: internal/broker. Broker/Entries is the registry and the log's records, /Rules the metadata,
--     the cross-check of actions and the approval rules, /Minting the mint of a grant, /Views what an
--     agent sees (Views/Logged: rebuilt from the log), /Pipeline and /Decide the stages of a request,
--     /Request `RequestGrant`, /Human `ApproveGrant` and `DenyGrant`, /Sweep `SweepOnce`, /Release
--     `ReleaseGrant`.
--   Audit: the hash chain of internal/store/store.go and verify.go; Audit/Prune is `Prune`,
--     Audit/Canonical the canonical JSON of canonical.go.
--   Prelude holds shared names and lemmas, with float64 in Prelude/Float, Tests the concrete runs.
--
-- How they interact: the gate selects capabilities; the guardrails read a policy, expand its actions
-- by the dataset, match its resources by the globs, and ask the durable state through the record
-- `StateStore`, which `state_adapter` fills with the operations of the store; the approvals decide
-- the rows of the queue and mark first uses; the state machine says which steps a grant may take. The
-- broker composes them: it asks the synthesizer, has the guardrails evaluate the policy with the
-- durable state, parks the grant in the approvals or mints it, and appends to the log; agents poll
-- its views.
--
-- Representation. A text is the list of its bytes. A Go map is a list of entries or, where only its
-- keys are read, a list; a table of the database is the list of its rows, and a statement of SQL is
-- the function on that list that it describes. Errors are values of data types, one constructor for
-- each text of the source. Times are nanoseconds and durations seconds, as natural numbers; a
-- negative duration or limit takes the branch of 0 in the source. Tokens and
-- confidences are float64 as Prelude/Float has them: exact integers of the least subnormal, with the
-- result of each operation rounded to 53 bits, ties to even.
--
-- Fuel. The glob loops take rounds as fuel: each retry shortens the text behind the mark, so one more
-- than the product of the two lengths, each plus one, suffices (`Glob.Decide.run_total`). The escape
-- sequences are skipped with the length of the text as fuel
-- (`Domain.Sanitize.Display.sanitize_loop-fuel`). The charset loop of a session policy takes the length
-- and the digits of a rule's number take one more than it, and each round takes a byte or divides by
-- ten. All else is structural recursion.
--
-- Parameters. The JSON decoder of a policy, the ULID parser, the state store in the guardrails, and
-- the first-use ledger of the gate are arguments. The broker takes the synthesizer, the evaluator, the
-- catalog and the client of STS in the record `Deps`, as its source takes them as interfaces; STS
-- answers by the calls before, and the decoder of a retry token's body is one of its fields. The chain
-- takes the hash function and the canonical form, which takes the decoder and the string encoder of
-- JSON.
--
-- Not modelled: the command line, the reading of configuration, the catalog loader, the compiler and
-- the inside of the synthesizer, the matchers' scores, anchors and audit queries, revocation,
-- identity, and the MCP and admin servers. Of the broker: `ExplainGrant`,
-- `ListCapabilities`, revocation by an administrator, and the wait for a human inside a request,
-- which other operations interleave with. Of the parts above: reading of files, failures of the database driver,
-- `ListPendingApprovals`, the blocking `WaitDecision`, and the texts of messages.
pub mod Prelude
pub mod Glob
pub mod Domain
pub mod Dataset
pub mod Guardrails
pub mod Store
pub mod Approvals
pub mod Audit
pub mod Broker
pub mod Gate
pub mod Mint
pub mod Tests
