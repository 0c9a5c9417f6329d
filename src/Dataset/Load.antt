-- ===== src/Dataset/Load.antt =====
-- `LoadBytes` of internal/dataset/dataset.go, from the decoded artifact and the hash of its bytes
-- on. The map of actions is the list of its entries in the order in which the loop meets them.
use taskgrant.Prelude.{
  ℕ, ◌≡◌, refl, subst, Bool, true, false, ◌⊎◌, inl, inr, none, some, List, [], ◌∷◌, ◌++◌, ◌==◌,
  Bytes, same, same→eq, In, In-sort, sort-In, In-append, In-append_left, In-append_right, same_refl,
  lower, is_empty, sort, arith, Option-cases, if◌then◌else◌,
}
use taskgrant.Prelude.Maps.{get}
use taskgrant.Glob.Arn.{cut}
use taskgrant.Dataset.{Dataset, ActionInfo, access_level_valid, supported_schema_version}

pub record FileAction : Type 0 where
  pub access_level : Bytes
  pub resource_types : List Bytes
  pub condition_keys : List Bytes

pub record FileModel : Type 0 where
  pub schema_version : ℕ
  pub source_commit : Bytes
  pub actions : List (Bytes × FileAction)

pub data LoadError : Type 0 where
  unsupported_schema : ℕ → LoadError
  empty_commit no_actions : LoadError
  malformed_name unknown_level duplicate : Bytes → LoadError

pub data Loaded {ℓ} (A : Type ℓ) : Type ℓ where
  ok : A → Loaded A
  err : LoadError → Loaded A

-- `strings.Cut(name, ":")` with both parts non-empty.
unfoldable pub has_name_form : Bytes → Bool
unfolding cut
has_name_form name = elim (cut b':' name) [
  | none ↦ false
  | some (service, action) ↦
      if is_empty service then false else if is_empty action then false else true
]

abbrev pub Table : Type 0
Table = List (Bytes × ActionInfo)

abbrev pub info_of : Bytes → FileAction → ActionInfo
info_of name a = record {
  action = name;
  access_level = a.access_level;
  resource_types = a.resource_types;
  condition_keys = a.condition_keys;
}

-- The loop, with `d.actions` and `d.names`.
unfoldable pub load_loop :
    List (Bytes × FileAction) → Table → List Bytes → Loaded (Table × List Bytes)
load_loop [] table names = ok (table, names)
load_loop ((name, a) ∷ rest) table names =
    let next = load_loop rest (table ++ (lower name, info_of name a) ∷ []) (names ++ name ∷ []) in
    if has_name_form name
    then if access_level_valid a.access_level
      then elim (get same (lower name) table) [ some dup ↦ err (duplicate name) | none ↦ next ]
      else err (unknown_level name)
    else err (malformed_name name)

abbrev built : Bytes → FileModel → Table → List Bytes → Dataset
built hash m table names = record {
  schema_version = m.schema_version;
  source_commit = m.source_commit;
  hash = hash;
  actions = table;
  names = sort names;
}

unfoldable pub load_model : Bytes → FileModel → Loaded Dataset
load_model hash m =
    if m.schema_version == supported_schema_version
    then if is_empty m.source_commit
      then err empty_commit
      else if is_empty m.actions
      then err no_actions
      else elim (load_loop m.actions [] []) [
        | err e ↦ err e
        | ok (table, names) ↦ ok (built hash m table names)
      ]
    else err (unsupported_schema m.schema_version)

-- What holds of the tables at each round: an entry stands under the lowercase form of its action,
-- with a known access level, its action is a listed name, and a listed name has its entry.
pub record IsTable (table : Table) (names : List Bytes) : Type 0 where
  pub keyed :
      (k : Bytes) (i : ActionInfo)
      → get same k table ≡ some i
      → (k ≡ lower i.action) × (access_level_valid i.access_level ≡ true) × In i.action names
  pub listed :
      (n : Bytes)
      → In n names
      → (i : ActionInfo) × (get same (lower n) table ≡ some i) × (i.action ≡ n)

get-append :
    (k j : Bytes) (i : ActionInfo) (table : Table)
    → get same k (table ++ (j, i) ∷ []) ≡ elim (get same k table) [
      | some found ↦ some found
      | none ↦ if same j k then some i else none
    ]
get-append k j i [] = refl
get-append k j i ((x, v) ∷ table) = ground (arith, get-append k j i table)

get-append_found :
    (k j : Bytes) (i found : ActionInfo) (table : Table)
    → get same k table ≡ some found
    → get same k (table ++ (j, i) ∷ []) ≡ some found
get-append_found k j i found table e = rw get-append (rw e)

module _ (name : Bytes) (a : FileAction) (table : Table) (names : List Bytes) where
  abbrev entry : Bytes × ActionInfo
  entry = (lower name, info_of name a)

  get-entry :
      (k : Bytes) (i : ActionInfo)
      → get same k table ≡ none
      → get same k (table ++ entry ∷ []) ≡ some i
      → (k ≡ lower name) × (i ≡ info_of name a)
  get-entry k i e h =
      ground (arith, get-append k (lower name) (info_of name a) table, same→eq (lower name) k)

  add_keyed :
      IsTable table names
      → access_level_valid a.access_level ≡ true
      → (k : Bytes) (i : ActionInfo) → get same k (table ++ entry ∷ []) ≡ some i
      → (k ≡ lower i.action)
        × (access_level_valid i.access_level ≡ true)
        × In i.action (names ++ name ∷ [])
  add_keyed t v k i h = elim (Option-cases (get same k table)) [
    | inr (found, e) ↦
        let same_info : found ≡ i =
          ground (arith, get-append_found k (lower name) (info_of name a) found table e) in
        let (p, q, r) = t.keyed k i (rw same_info at e) in
        (p, q, In-append_left i.action names (name ∷ []) r)
    | inl e ↦
        let (p, q) = get-entry k i e h in
        rw (p, q) (refl, v, In-append_right name names (name ∷ []) (inl refl))
  ]

  add_listed :
      IsTable table names
      → get same (lower name) table ≡ none
      → (n : Bytes) → In n (names ++ name ∷ [])
      → (i : ActionInfo) × (get same (lower n) (table ++ entry ∷ []) ≡ some i) × (i.action ≡ n)
  add_listed t e n h = elim (In-append n names (name ∷ []) h) [
    | inl old ↦
        let (i, g, q) = t.listed n old in
        (i, get-append_found (lower n) (lower name) (info_of name a) i table g, q)
    | inr (inl new) ↦ rw new (
      info_of name a,
      ground (
        arith,
        e,
        get-append (lower name) (lower name) (info_of name a) table,
        same_refl (lower name),
      ),
      refl,
    )
    | inr (inr no_more) ↦ absurd no_more
  ]

load_loop-IsTable :
    (entries : List (Bytes × FileAction)) (table : Table) (names : List Bytes) {table' : Table}
    {names' : List Bytes}
    → IsTable table names
    → load_loop entries table names ≡ ok (table', names')
    → IsTable table' names'
unfolding load_loop
load_loop-IsTable [] table names {table'} {names'} t h =
    let p : table ≡ table' = cc in let q : names ≡ names' = cc in rw p at (rw q at t)
load_loop-IsTable ((name, a) ∷ rest) table names t h =
    let form : has_name_form name ≡ true = ground arith in
    let level : access_level_valid a.access_level ≡ true = ground arith in
    let fresh : get same (lower name) table ≡ none = ground arith in
    load_loop-IsTable rest (table ++ (lower name, info_of name a) ∷ []) (names ++ name ∷ [])
      (record {
        keyed = add_keyed name a table names t level;
        listed = add_listed name a table names t fresh;
      })
      (rw (form, level, fresh, load_loop) at h)

start : IsTable [] []
start = record { keyed = λ k i h. ground arith; listed = λ n h. absurd h }

sorted_names :
    (table : Table) (names : List Bytes) → IsTable table names → IsTable table (sort names)
sorted_names table names t = record {
  keyed = λ k i h. let (p, q, r) = t.keyed k i h in (p, q, sort-In i.action names r);
  listed = λ n h. t.listed n (In-sort n names h);
}

Loaded-cases :
    (r : Loaded (Table × List Bytes))
    → ((t : Table) × (n : List Bytes) × (r ≡ ok (t, n))) ⊎ ((e : LoadError) × (r ≡ err e))
Loaded-cases (ok (t, n)) = inl (t, n, refl)
Loaded-cases (err e) = inr (e, refl)

-- Whatever the order of the entries, a dataset that loads is consistent: each entry stands under
-- the lowercase form of its action and has a known access level; its action is among the names; and
-- each name has an entry of that very name.
pub load_model-IsTable :
    (hash : Bytes) (m : FileModel) {d : Dataset}
    → load_model hash m ≡ ok d
    → IsTable d.actions d.names
unfolding load_model
load_model-IsTable hash m {d} h = elim (Loaded-cases (load_loop m.actions [] [])) [
  | inl (table, names, e) ↦
      let loaded : built hash m table names ≡ d = ground arith in
      let t = load_loop-IsTable m.actions [] [] start e in
      subst (λ (x : Dataset). IsTable x.actions x.names) loaded (sorted_names table names t)
  | inr (x, e) ↦ ground arith
]
