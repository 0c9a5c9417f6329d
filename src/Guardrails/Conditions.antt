-- ===== src/Guardrails/Conditions.antt =====
-- Condition operators and keys of a statement in internal/guardrails/policy.go.
use taskgrant.Prelude.{
  ◌≡◌, refl, Bool, true, ◌&&◌, ◌||◌, not, inl, inr, none, some, List, [], ◌∷◌, ◌++◌, Bytes, codes,
  same, same→eq, has, has→In, In, In-append, In-sort, lower, sort, is_empty, has_wildcard, all, any,
  add_new, map, arith, Bool-cases, if◌then◌else◌,
}
use taskgrant.Glob.Arn.{cut}
use taskgrant.Guardrails.Policy.{Conditions, ParsedStatement}

abbrev pub mandatory_pin_operators : List Bytes
mandatory_pin_operators =
    codes "StringEquals" ∷ codes "StringEqualsIgnoreCase" ∷ codes "StringLike" ∷ []

unfoldable pub operators : ParsedStatement → List Bytes
operators st = sort (map (λ (c : Bytes × List (Bytes × List Bytes)). c.0) st.conditions)

unfoldable pub has_condition_key : ParsedStatement → Bytes → Bool
has_condition_key st key =
    any
      (λ (c : Bytes × List (Bytes × List Bytes)).
        any (λ (k : Bytes × List Bytes). same (lower k.0) (lower key)) c.1)
      st.conditions

-- A value that constrains: not empty, and without '*' and '?'.
abbrev pub is_pinned_value : Bytes → Bool
is_pinned_value v = not (is_empty v || has_wildcard v)

-- The inner loop for one operator.
unfoldable pub pinned_in : Bytes → List (Bytes × List Bytes) → List Bytes
pinned_in lk [] = []
pinned_in lk ((k, vals) ∷ keys) =
    let rest = pinned_in lk keys in
    if same (lower k) lk && not (is_empty vals)
    then if all is_pinned_value vals then vals ++ rest else rest
    else rest

pinned_values : Bytes → Conditions → List Bytes
pinned_values lk [] = []
pinned_values lk ((op, keys) ∷ conds) =
    let rest = pinned_values lk conds in
    if has op mandatory_pin_operators then pinned_in lk keys ++ rest else rest

unfoldable pub constraining_condition_values : ParsedStatement → Bytes → List Bytes
unfolding pinned_values
constraining_condition_values st key = sort (pinned_values (lower key) st.conditions)

-- The keys of one operator added to those seen before.
add_keys : List Bytes → List (Bytes × List Bytes) → List Bytes
add_keys out [] = out
add_keys out ((k, vals) ∷ keys) = add_keys (add_new out k) keys

all_keys : List Bytes → Conditions → List Bytes
all_keys out [] = out
all_keys out ((op, keys) ∷ conds) = all_keys (add_keys out keys) conds

unfoldable pub condition_keys : ParsedStatement → List Bytes
unfolding add_keys all_keys
condition_keys st = sort (all_keys [] st.conditions)

services_loop : List Bytes → List Bytes → List Bytes
services_loop out [] = out
services_loop out (a ∷ actions) = elim (cut b':' a) [
  | none ↦ services_loop out actions
  | some (svc, rest) ↦ services_loop (add_new out (lower svc)) actions
]

unfoldable pub services_of : List Bytes → List Bytes
unfolding services_loop
services_of actions = sort (services_loop [] actions)

-- Where a value pins a key: the operator, the key as it is written, and its values.
pub record IsPinned (st : ParsedStatement) (key v : Bytes) : Type 0 where
  pub operator : Bytes
  pub entries : List (Bytes × List Bytes)
  pub written : Bytes
  pub vals : List Bytes
  pub at_operator : In (operator, entries) st.conditions
  pub at_key : In (written, vals) entries
  pub at_value : In v vals
  pub pins : In operator mandatory_pin_operators
  pub same_key : lower written ≡ lower key
  pub fixed : is_pinned_value v ≡ true

all-In : (p : Bytes → Bool) (xs : List Bytes) (x : Bytes) → all p xs ≡ true → In x xs → p x ≡ true
all-In p [] x h i = absurd i
all-In p (y ∷ ys) x h (inl e) = rw e (ground arith)
all-In p (y ∷ ys) x h (inr i) = all-In p ys x (ground arith) i

abbrev Entry : Bytes → Bytes → List (Bytes × List Bytes) → Type 0
Entry lk v keys =
    (k : Bytes) × (vals : List Bytes) × In (k, vals) keys
    × In v vals
    × (lower k ≡ lk)
    × (is_pinned_value v ≡ true)

Entry-later :
    (lk v : Bytes) (e : Bytes × List Bytes) (keys : List (Bytes × List Bytes))
    → Entry lk v keys
    → Entry lk v (e ∷ keys)
Entry-later lk v e keys (k, vals, i, j, s, p) = (k, vals, inr i, j, s, p)

pinned_in-Entry :
    (lk v : Bytes) (keys : List (Bytes × List Bytes)) → In v (pinned_in lk keys) → Entry lk v keys
unfolding pinned_in
pinned_in-Entry lk v [] h = absurd h
pinned_in-Entry lk v ((k, vals) ∷ keys) h =
    elim (Bool-cases (same (lower k) lk && not (is_empty vals))) [
      | inr n ↦ Entry-later lk v (k, vals) keys (pinned_in-Entry lk v keys (rw (n, In) at h))
      | inl y ↦ elim (Bool-cases (all is_pinned_value vals)) [
        | inr n ↦ Entry-later lk v (k, vals) keys (pinned_in-Entry lk v keys (rw (y, n, In) at h))
        | inl q ↦ elim (In-append v vals (pinned_in lk keys) (rw (y, q, In) at h)) [
          | inl here ↦ (
            k,
            vals,
            inl refl,
            here,
            same→eq (lower k) lk (ground arith),
            all-In is_pinned_value vals v q here,
          )
          | inr rest ↦ Entry-later lk v (k, vals) keys (pinned_in-Entry lk v keys rest)
        ]
      ]
    ]

abbrev Pin : Bytes → Bytes → Conditions → Type 0
Pin lk v conds =
    (op : Bytes) × (keys : List (Bytes × List Bytes)) × In (op, keys) conds
    × In op mandatory_pin_operators
    × Entry lk v keys

pinned_values-Pin :
    (lk v : Bytes) (conds : Conditions) → In v (pinned_values lk conds) → Pin lk v conds
unfolding pinned_values
pinned_values-Pin lk v [] h = absurd h
pinned_values-Pin lk v ((op, keys) ∷ conds) h = elim (Bool-cases (has op mandatory_pin_operators)) [
  | inr n ↦
      let (o, ks, i, m, e) = pinned_values-Pin lk v conds (rw (n, In) at h) in (o, ks, inr i, m, e)
  | inl y ↦ elim (In-append v (pinned_in lk keys) (pinned_values lk conds) (rw (y, In) at h)) [
    | inl here ↦
        (op, keys, inl refl, has→In op mandatory_pin_operators y, pinned_in-Entry lk v keys here)
    | inr rest ↦ let (o, ks, i, m, e) = pinned_values-Pin lk v conds rest in (o, ks, inr i, m, e)
  ]
]

-- Every value that counts as a constraint on a key stands in the statement's conditions under an
-- equality operator and a key of that name up to case, is not empty and holds no wildcard.
pub constraining_condition_values-IsPinned :
    (st : ParsedStatement) (key v : Bytes)
    → In v (constraining_condition_values st key)
    → IsPinned st key v
unfolding constraining_condition_values
constraining_condition_values-IsPinned st key v h =
    let (op, keys, i, m, e) =
      pinned_values-Pin (lower key) v st.conditions
        (In-sort v (pinned_values (lower key) st.conditions) h) in
    let (k, vals, at, inside, eq, fixed) = e in
    record {
      operator = op;
      entries = keys;
      written = k;
      vals = vals;
      at_operator = i;
      at_key = at;
      at_value = inside;
      pins = m;
      same_key = eq;
      fixed = fixed;
    }
