-- ===== src/Broker/Entries.antt =====
-- The registry of live grants and the records of internal/broker/broker.go and records.go.
use taskgrant.Prelude.{
  ℕ, Bool, true, false, Option, none, some, List, [], ◌∷◌, ◌++◌, Bytes, codes, same, is_empty, has,
  ltb, leb, length, ◌==◌, add_new, if◌then◌else◌,
}
use taskgrant.Prelude.Maps.{get, put}
use taskgrant.Domain.Codes.{DenialCode}
use taskgrant.Domain.State.{State, set_state}
use taskgrant.Broker.{
  SynthVerdict, SynthResult, GrantRequest, ProfileConfig, Config, Entry, Outcome, RecordKind, Body,
  LogRecord, Broker,
}

abbrev pub max_entries : ℕ
max_entries = 4096

-- The nil `Result` of an entry before synthesis.
abbrev pub no_result : SynthResult
no_result = record {
  verdict = SynthVerdict.other [];
  policy_json = [];
  policy_arns = [];
  effective_duration = 0;
  explanation = [];
  clarification = none;
  denial_code = [];
  capabilities = [];
  expanded_actions = [];
}

-- `SetState`, with an illegal step only logged.
unfoldable pub set_state_locked : State → Entry → Entry
set_state_locked next e = record e { state = (set_state e.state next).0 }

unfoldable pub mark_terminal : ℕ → Entry → Entry
mark_terminal now e = record e { terminal_at = if e.terminal_at == 0 then now else e.terminal_at }

abbrev pub is_before : Entry → Option Entry → Bool
is_before e none = true
is_before e (some oldest) = ltb e.terminal_at oldest.terminal_at

-- The loop over the entries, from the oldest one so far on.
unfoldable pub oldest_terminal : Option Entry → List (Bytes × Entry) → Option Entry
oldest_terminal oldest [] = oldest
oldest_terminal oldest ((g, e) ∷ m) =
    oldest_terminal
      (if e.terminal_at == 0 then oldest else if is_before e oldest then some e else oldest) m

-- `delete(b.grants, id)`.
unfoldable pub delete : Bytes → List (Bytes × Entry) → List (Bytes × Entry)
delete g [] = []
delete g ((h, e) ∷ m) = let rest = delete g m in if same h g then rest else (h, e) ∷ rest

unfoldable pub evict : List (Bytes × Entry) → List (Bytes × Entry)
evict m = elim (oldest_terminal none m) [ none ↦ m | some e ↦ delete e.grant_id m ]

unfoldable pub put_entry : Entry → Broker → Broker
put_entry e b = record b {
  grants =
      put same e.grant_id e
        (if leb max_entries (length b.grants) then evict b.grants else b.grants);
}

-- What a change through the pointer `e` does to the registry.
abbrev pub save : Entry → Broker → Broker
save e b = record b { grants = put same e.grant_id e b.grants }

unfoldable pub new_entry : Bytes → Bytes → Bytes → GrantRequest → ℕ → Entry
new_entry grant_id agent_id profile request now = record {
  grant_id = grant_id;
  agent_id = agent_id;
  profile = profile;
  state = State.received;
  received_at = now;
  decided_at = 0;
  minted_at = 0;
  expires_at = 0;
  request = request;
  result = no_result;
  budget_chars = 0;
  effective_seconds = 0;
  required_by = [];
  denial = [];
  errored = false;
  delivery = none;
  delivered = false;
  released = false;
  release_outcome = [];
  released_at = 0;
  revocation_written = false;
  terminal_at = 0;
}

abbrev pub body_of : Outcome → Body
body_of o = record {
  outcome = o;
  approval = none;
  denial_code = [];
  round = none;
  expiration = 0;
  sts_expiration = none;
}

-- An error of the append is only logged.
unfoldable pub append_record : RecordKind → Body → Entry → Broker → Broker
append_record kind body e b = record b {
  log =
      b.log
      ++ record {
        kind = kind;
        grant_id = e.grant_id;
        agent_id = e.agent_id;
        profile = e.profile;
        body = some body;
      }
        ∷ [];
}

-- The records of a grant, in the order of the log.
unfoldable pub grant_chain : Bytes → List LogRecord → List LogRecord
grant_chain g [] = []
grant_chain g (r ∷ rs) = let rest = grant_chain g rs in if same r.grant_id g then r ∷ rest else rest

abbrev pub agent_not_permitted : DenialCode
agent_not_permitted = codes "AGENT_NOT_PERMITTED"

abbrev pub profile_not_allowed : DenialCode
profile_not_allowed = codes "PROFILE_NOT_ALLOWED"

pub data Resolved : Type 0 where
  resolved : Bytes → ProfileConfig → Resolved
  not_permitted : DenialCode → Resolved

unfoldable pub resolve_profile : Config → Bytes → Bytes → Resolved
resolve_profile c agent_id requested = elim (get same agent_id c.agents) [
  | none ↦ not_permitted agent_not_permitted
  | some agent ↦
      let name = if is_empty requested then agent.default_profile else requested in
      if is_empty name
      then not_permitted profile_not_allowed
      else if has name agent.profiles
      then elim (get same name c.profiles) [
        | none ↦ not_permitted profile_not_allowed
        | some p ↦ resolved name p
      ]
      else not_permitted profile_not_allowed
]

-- The loop, from the ARNs so far on.
unfoldable pub add_arns : List Bytes → List Bytes → List Bytes
add_arns out [] = out
add_arns out (arn ∷ arns) = add_arns (if is_empty arn then out else add_new out arn) arns

unfoldable pub combined_policy_arns : List Bytes → List Bytes → List Bytes
combined_policy_arns fixed offload = add_arns [] (fixed ++ offload)
