-- ===== src/Guardrails/Document.antt =====
-- `parsePolicy` of internal/guardrails/policy.go. `decode` stands for the JSON decoder: the first
-- value of the bytes, if there is one, with whether data follows it (`dec.More`).
use taskgrant.Prelude.{
  Bool, true, false, Option, none, some, List, [], ◌∷◌, ◌++◌, Bytes, codes, same, is_empty,
  trim_space, if◌then◌else◌,
}
use taskgrant.Guardrails.Policy.{
  policy_version, Problem, empty_document, not_json_object, trailing_data, version_not_string,
  id_not_string, no_statement, empty_statement_list, unexpected_top_field, wrong_version,
  ParsedPolicy,
}
use taskgrant.Guardrails.Parse.{
  Json, Fields, unmarshal_map, unmarshal_list, unmarshal_string, parse_statements,
}

-- The variables of the loop over the top-level fields.
pub record Top : Type 0 where
  pub version : Bytes
  pub raw : Option Json
  pub problems : List Problem

abbrev report : Problem → Top → Top
report p t = record t { problems = t.problems ++ p ∷ [] }

set_version : Option Bytes → Top → Top
set_version none t = report version_not_string t
set_version (some v) t = record t { version = v }

check_id : Option Bytes → Top → Top
check_id none t = report id_not_string t
check_id (some s) t = t

unfoldable pub top_field : Bytes → Json → Top → Top
unfolding set_version check_id
top_field key v t =
    if same key (codes "Version")
    then set_version (unmarshal_string t.version v) t
    else if same key (codes "Id")
    then check_id (unmarshal_string [] v) t
    else if same key (codes "Statement")
    then record t { raw = some v }
    else report (unexpected_top_field key) t

unfoldable pub top_fields : Fields → Top → Top
top_fields [] t = t
top_fields ((key, v) ∷ rest) t = top_fields rest (top_field key v t)

abbrev pub fatal_with : Bytes → List Problem → ParsedPolicy
fatal_with version ps = record { version = version; statements = []; problems = ps; fatal = true }

-- A value that is no list counts as a list of one statement.
unfoldable pub statement_list : Json → List Json
statement_list j = elim (unmarshal_list j) [ none ↦ j ∷ [] | some js ↦ js ]

unfoldable pub parse_list : Bytes → List Problem → List Json → ParsedPolicy
parse_list version ps [] = fatal_with version (ps ++ empty_statement_list ∷ [])
parse_list version ps (j ∷ js) =
    let (sts, more) = parse_statements 0 (j ∷ js) in
    record { version = version; statements = sts; problems = ps ++ more; fatal = false }

-- From the version test on.
unfoldable pub parse_top : Top → ParsedPolicy
parse_top t =
    let ps =
      t.problems ++ (if same t.version policy_version then [] else wrong_version t.version ∷ []) in
    elim t.raw [
      | none ↦ fatal_with t.version (ps ++ no_statement ∷ [])
      | some j ↦ parse_list t.version ps (statement_list j)
    ]

module _ (decode : Bytes → Option (Json × Bool)) where
  unfoldable pub parse_object : Bytes → ParsedPolicy
  parse_object raw = elim (decode raw) [
    | none ↦ fatal_with [] (not_json_object ∷ [])
    | some (j, trailing) ↦ elim (unmarshal_map j) [
      | none ↦ fatal_with [] (not_json_object ∷ [])
      | some fs ↦
          let start = if trailing then trailing_data ∷ [] else [] in
          parse_top (top_fields fs (record { version = []; raw = none; problems = start }))
    ]
  ]

  unfoldable pub parse_policy : Bytes → ParsedPolicy
  parse_policy raw =
      if is_empty (trim_space raw) then fatal_with [] (empty_document ∷ []) else parse_object raw
