-- ===== src/Dataset.antt =====
-- internal/dataset: the pinned list of IAM actions. Strings are byte sequences, maps are
-- association lists; decoding the artifact's JSON and hashing its bytes come before `load_model`.
pub mod Denylist
pub mod Load
pub mod Expand
pub mod Keys
use taskgrant.Prelude.{
  ℕ, suc, Bool, true, false, ◌&&◌, ◌||◌, Option, none, some, List, [], ◌∷◌, ◌++◌, ◌==◌, leb, Bytes,
  codes, same, has, has_wildcard, lower, trim_space, is_empty, all, any, keep, length, add_all,
  sort, if◌then◌else◌,
}
use taskgrant.Prelude.Maps.{get}
use taskgrant.Glob.{dataset_match}

abbrev pub supported_schema_version : ℕ
supported_schema_version = 1

abbrev pub AccessLevel : Type 0
AccessLevel = Bytes

abbrev pub access_read : AccessLevel
access_read = codes "Read"

abbrev pub access_list : AccessLevel
access_list = codes "List"

abbrev pub access_write : AccessLevel
access_write = codes "Write"

abbrev pub access_tagging : AccessLevel
access_tagging = codes "Tagging"

abbrev pub access_permissions_management : AccessLevel
access_permissions_management = codes "Permissions management"

abbrev pub access_levels : List AccessLevel
access_levels =
    access_read ∷ access_list ∷ access_write ∷ access_tagging ∷ access_permissions_management ∷ []

unfoldable pub access_level_valid : AccessLevel → Bool
access_level_valid l = has l access_levels

pub record ActionInfo : Type 0 where
  pub action : Bytes
  pub access_level : AccessLevel
  pub resource_types : List Bytes
  pub condition_keys : List Bytes

pub record Dataset : Type 0 where
  pub schema_version : ℕ
  pub source_commit : Bytes
  pub hash : Bytes
  pub actions : List (Bytes × ActionInfo)
  pub names : List Bytes

unfoldable pub lookup : Dataset → Bytes → Option ActionInfo
lookup d action = get same (lower (trim_space action)) d.actions

-- `^[A-Za-z0-9_*?:-]{1,128}$`.
unfoldable pub is_pattern_byte : ℕ → Bool
is_pattern_byte c =
    (leb b'A' c && leb c b'Z')
    || (leb b'a' c && leb c b'z')
    || (leb b'0' c && leb c b'9')
    || c == b'_'
    || c == b'*'
    || c == b'?'
    || c == b':'
    || c == b'-'

unfoldable pub valid_pattern : Bytes → Bool
valid_pattern s = all is_pattern_byte s && leb 1 (length s) && leb (length s) 128

pub data ExpandError : Type 0 where
  empty_pattern : ExpandError
  invalid_characters unknown_action no_match : Bytes → ExpandError

pub data Expanded : Type 0 where
  names_of : List Bytes → Expanded
  failed : ExpandError → Expanded

-- A pattern without a wildcard.
unfoldable pub expand_literal : Dataset → Bytes → Bytes → Expanded
expand_literal d p source = elim (lookup d p) [
  | none ↦ failed (unknown_action source)
  | some info ↦ names_of (info.action ∷ [])
]

-- A pattern with a wildcard: `d.names` is sorted, and the matches keep its order.
unfoldable pub wildcard_matches : Dataset → Bytes → List Bytes
wildcard_matches d p = keep (λ name. dataset_match (lower p) (lower name)) d.names

unfoldable pub expand_wildcard : Dataset → Bytes → Bytes → Expanded
expand_wildcard d p source =
    let matches = wildcard_matches d p in
    if is_empty matches then failed (no_match source) else names_of matches

unfoldable pub expand : Dataset → Bytes → Expanded
expand d source =
    let p = trim_space source in
    if is_empty p
    then failed empty_pattern
    else if valid_pattern p
    then if has_wildcard p then expand_wildcard d p source else expand_literal d p source
    else failed (invalid_characters source)

-- The loop of `ExpandAll` with `out`, whose elements are the keys of `seen`.
unfoldable pub expand_loop : Dataset → List Bytes → List Bytes → Expanded
expand_loop d [] out = names_of out
expand_loop d (p ∷ ps) out = elim (expand d p) [
  | failed e ↦ failed e
  | names_of expanded ↦ expand_loop d ps (add_all out expanded)
]

unfoldable pub expand_all : Dataset → List Bytes → Expanded
expand_all d patterns = elim (expand_loop d patterns []) [
  | failed e ↦ failed e
  | names_of out ↦ names_of (sort out)
]
