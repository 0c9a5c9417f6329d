-- ===== src/Guardrails/Parse.antt =====
-- `parsePolicy` and its helpers in internal/guardrails/policy.go, from the decoded JSON value on.
-- A value keeps the members of an object in the order of the text; a Go map keeps the last member of
-- a name, and its iteration order is that of the list.
use taskgrant.Prelude.{
  ℕ, suc, Bool, true, false, Option, none, some, List, [], ◌∷◌, ◌++◌, Bytes, codes, same, has,
  is_empty, any, map, if◌then◌else◌,
}
use taskgrant.Prelude.Maps.{put}
use taskgrant.Guardrails.Policy.{
  Conditions, ParsedStatement, ListError, empty_string, not_string_or_list, empty_list,
  empty_string_in_list, ConditionError, not_operator_map, unsupported, StatementProblem, not_object,
  sid_not_string, effect_not_string, no_action, no_resource, banned_element, unexpected_field,
  wrong_effect, bad_action, bad_resource, bad_condition, Problem, statement,
}

mutual
  pub data Json : Type 0 where
    null : Json
    bool : Bool → Json
    num str : Bytes → Json
    arr : Items → Json
    obj : Members → Json

  pub data Items : Type 0 where
    nil : Items
    item : Json → Items → Items

  pub data Members : Type 0 where
    end : Members
    member : Bytes → Json → Members → Members

abbrev pub Fields : Type 0
Fields = List (Bytes × Json)

unfoldable pub items : Items → List Json
items nil = []
items (item j js) = j ∷ items js

unfoldable pub fields_from : Fields → Members → Fields
fields_from m end = m
fields_from m (member k v ms) = fields_from (put same k v m) ms

-- `json.Unmarshal` into a map, a slice and a string variable that holds `old`; `null` changes none
-- of them.
unfoldable pub unmarshal_map : Json → Option Fields
unfolding fields_from
unmarshal_map null = some []
unmarshal_map (obj ms) = some (fields_from [] ms)
unmarshal_map _ = none

unfoldable pub unmarshal_list : Json → Option (List Json)
unfolding items
unmarshal_list null = some []
unmarshal_list (arr js) = some (items js)
unmarshal_list _ = none

unfoldable pub unmarshal_string : Bytes → Json → Option Bytes
unmarshal_string old null = some old
unmarshal_string old (str s) = some s
unmarshal_string old _ = none

unfoldable pub unmarshal_strings : List Json → Option (List Bytes)
unmarshal_strings [] = some []
unmarshal_strings (j ∷ js) = elim (unmarshal_string [] j) [
  | none ↦ none
  | some s ↦ elim (unmarshal_strings js) [ none ↦ none | some ss ↦ some (s ∷ ss) ]
]

pub data StringList : Type 0 where
  strings : List Bytes → StringList
  refused : ListError → StringList

many : Option (List Bytes) → StringList
many none = refused not_string_or_list
many (some []) = refused empty_list
many (some (s ∷ ss)) =
    if any is_empty (s ∷ ss) then refused empty_string_in_list else strings (s ∷ ss)

unfoldable pub string_or_list : Json → StringList
unfolding many unmarshal_list unmarshal_string unmarshal_strings
string_or_list j = elim (unmarshal_string [] j) [
  | some s ↦ if is_empty s then refused empty_string else strings (s ∷ [])
  | none ↦ elim (unmarshal_list j) [
    | none ↦ refused not_string_or_list
    | some js ↦ many (unmarshal_strings js)
  ]
]

abbrev bool_text : Bool → Bytes
bool_text true = codes "true"
bool_text false = codes "false"

scalar : Json → Option Bytes
scalar (str s) = some s
scalar (bool b) = some (bool_text b)
scalar (num n) = some n
scalar _ = none

scalars : Items → Option (List Bytes)
unfolding scalar
scalars nil = some []
scalars (item j js) = elim (scalar j) [
  | none ↦ none
  | some s ↦ elim (scalars js) [ none ↦ none | some ss ↦ some (s ∷ ss) ]
]

unfoldable pub condition_values : Json → Option (List Bytes)
unfolding scalar scalars
condition_values (str s) = some (s ∷ [])
condition_values (bool b) = some (bool_text b ∷ [])
condition_values (num n) = some (n ∷ [])
condition_values (arr js) = scalars js
condition_values null = none
condition_values (obj ms) = none

-- `map[string]map[string]json.RawMessage`.
unfoldable pub unmarshal_nested : Fields → Option (List (Bytes × Fields))
unfolding unmarshal_map
unmarshal_nested [] = some []
unmarshal_nested ((op, j) ∷ rest) = elim (unmarshal_map j) [
  | none ↦ none
  | some keys ↦ elim (unmarshal_nested rest) [ none ↦ none | some ops ↦ some ((op, keys) ∷ ops) ]
]

-- The inner loop of `parseConditions` for one operator.
unfoldable pub parse_keys : Bytes → Fields → List (Bytes × List Bytes) × List ConditionError
unfolding condition_values
parse_keys op [] = ([], [])
parse_keys op ((key, v) ∷ rest) =
    let (keys, errs) = parse_keys op rest in
    elim (condition_values v) [
      | none ↦ (keys, unsupported op key ∷ errs)
      | some vals ↦ ((key, vals) ∷ keys, errs)
    ]

unfoldable pub parse_operators : List (Bytes × Fields) → Conditions × List ConditionError
unfolding parse_keys
parse_operators [] = ([], [])
parse_operators ((op, keys) ∷ rest) =
    let (vals, errs) = parse_keys op keys in
    let (ops, more) = parse_operators rest in ((op, vals) ∷ ops, errs ++ more)

unfoldable pub parse_conditions : Json → Conditions × List ConditionError
unfolding unmarshal_map unmarshal_nested parse_operators
parse_conditions j = elim (unmarshal_map j) [
  | none ↦ ([], not_operator_map ∷ [])
  | some ops ↦ elim (unmarshal_nested ops) [
    | none ↦ ([], not_operator_map ∷ [])
    | some nested ↦ parse_operators nested
  ]
]

abbrev pub banned_statement_fields : List Bytes
banned_statement_fields =
    codes "NotAction" ∷ codes "NotResource" ∷ codes "Principal" ∷ codes "NotPrincipal" ∷ []

abbrev pub Parsing : Type 0
Parsing = ParsedStatement × List StatementProblem

abbrev pub empty_statement : ParsedStatement
empty_statement = record {
  sid = [];
  effect = [];
  actions = [];
  resources = [];
  conditions = [];
  expanded = [];
}

set_actions : StringList → Parsing → Parsing
set_actions (strings l) (st, ps) = (record st { actions = l }, ps)
set_actions (refused e) (st, ps) = (record st { actions = [] }, ps ++ bad_action e ∷ [])

set_resources : StringList → Parsing → Parsing
set_resources (strings l) (st, ps) = (record st { resources = l }, ps)
set_resources (refused e) (st, ps) = (record st { resources = [] }, ps ++ bad_resource e ∷ [])

set_sid : Option Bytes → Parsing → Parsing
set_sid none (st, ps) = (st, ps ++ sid_not_string ∷ [])
set_sid (some s) (st, ps) = (record st { sid = s }, ps)

set_effect : Option Bytes → Parsing → Parsing
set_effect none (st, ps) = (st, ps ++ effect_not_string ∷ [])
set_effect (some s) (st, ps) = (record st { effect = s }, ps)

set_conditions : Conditions × List ConditionError → Parsing → Parsing
set_conditions (c, errs) (st, ps) = (record st { conditions = c }, ps ++ map bad_condition errs)

-- The body of the loop over the fields of a statement.
unfoldable pub parse_field : Bytes → Json → Parsing → Parsing
unfolding set_actions set_resources set_sid set_effect set_conditions unmarshal_string
    string_or_list parse_conditions
parse_field key v (st, ps) =
    if has key banned_statement_fields
    then (st, ps ++ banned_element key ∷ [])
    else if same key (codes "Sid")
    then set_sid (unmarshal_string st.sid v) (st, ps)
    else if same key (codes "Effect")
    then set_effect (unmarshal_string st.effect v) (st, ps)
    else if same key (codes "Action")
    then set_actions (string_or_list v) (st, ps)
    else if same key (codes "Resource")
    then set_resources (string_or_list v) (st, ps)
    else if same key (codes "Condition")
    then set_conditions (parse_conditions v) (st, ps)
    else (st, ps ++ unexpected_field key ∷ [])

unfoldable pub parse_fields : Fields → Parsing → Parsing
parse_fields [] p = p
parse_fields ((key, v) ∷ rest) p = parse_fields rest (parse_field key v p)

-- The three tests behind the loop.
unfoldable pub shape_problems : ParsedStatement → List StatementProblem
shape_problems st =
    (if same st.effect (codes "Allow") then [] else wrong_effect st.effect ∷ [])
    ++ ((if is_empty st.actions then no_action ∷ [] else [])
        ++ (if is_empty st.resources then no_resource ∷ [] else []))

unfoldable pub parse_statement : Json → Parsing
parse_statement j = elim (unmarshal_map j) [
  | none ↦ (empty_statement, not_object ∷ [])
  | some fs ↦ let (st, ps) = parse_fields fs (empty_statement, []) in (st, ps ++ shape_problems st)
]

unfoldable pub parse_statements : ℕ → List Json → List ParsedStatement × List Problem
parse_statements i [] = ([], [])
parse_statements i (j ∷ js) =
    let (st, ps) = parse_statement j in
    let (sts, rest) = parse_statements (suc i) js in (st ∷ sts, map (statement i) ps ++ rest)
