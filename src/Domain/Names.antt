-- ===== src/Domain/Names.antt =====
-- The names of a grant in internal/domain/grant.go. `parse_strict` stands for `ulid.ParseStrict`
-- of a third party, here only asked whether it accepts.
use native.Mathlib.Nat.{le_trans}
use taskgrant.Prelude.{
  ℕ, zero, suc, ◌-◌, ◌≤◌, ◌≡◌, refl, Bool, true, false, ◌&&◌, ◌||◌, Option, none, some, [], ◌∷◌,
  ◌++◌, map, ◌==◌, ltb, leb, Bytes, codes, all, is_empty, length, length-append, arith,
  if◌then◌else◌,
}

abbrev pub is_lower : ℕ → Bool
is_lower c = leb b'a' c && leb c b'z'

abbrev pub is_upper : ℕ → Bool
is_upper c = leb b'A' c && leb c b'Z'

abbrev pub is_digit : ℕ → Bool
is_digit c = leb b'0' c && leb c b'9'

-- `^[a-z0-9][a-z0-9_-]{1,31}$`.
unfoldable pub validate_agent_id : Bytes → Bool
validate_agent_id [] = false
validate_agent_id (c ∷ s) =
    (is_lower c || is_digit c)
    && all (λ d. is_lower d || is_digit d || d == b'_' || d == b'-') s
    && leb 1 (length s)
    && leb (length s) 31

abbrev pub source_identity_prefix : Bytes
source_identity_prefix = codes "tg-"

unfoldable pub source_identity : Bytes → Bytes
source_identity grant_id = source_identity_prefix ++ grant_id

-- `strings.CutPrefix`.
unfoldable pub cut_prefix : Bytes → Bytes → Option Bytes
cut_prefix [] s = some s
cut_prefix (c ∷ p) [] = none
cut_prefix (c ∷ p) (d ∷ s) = let rest = cut_prefix p s in if c == d then rest else none

module _ (parse_strict : Bytes → Bool) where
  unfoldable pub grant_id_from_source_identity : Bytes → Option Bytes
  unfolding cut_prefix
  grant_id_from_source_identity s = elim (cut_prefix source_identity_prefix s) [
    | none ↦ none
    | some rest ↦ if parse_strict rest then some rest else none
  ]

  -- A grant id that the parser accepts comes back from its source identity; one that it refuses
  -- does not.
  pub grant_id_from_source_identity-source_identity :
      (g : Bytes)
      → grant_id_from_source_identity (source_identity g)
        ≡ (if parse_strict g then some g else none)
  unfolding grant_id_from_source_identity source_identity
  grant_id_from_source_identity-source_identity g = refl

-- The charset [A-Za-z0-9_+=,.@-].
abbrev pub is_session_byte : ℕ → Bool
is_session_byte c =
    is_lower c
    || is_upper c
    || is_digit c
    || c == b'_'
    || c == b'+'
    || c == b'='
    || c == b','
    || c == b'.'
    || c == b'@'
    || c == b'-'

unfoldable pub sanitize_session_name_component : Bytes → Bytes
sanitize_session_name_component s = map (λ c. if is_session_byte c then c else b'-') s

abbrev pub take : ℕ → Bytes → Bytes
take zero s = []
take (suc n) [] = []
take (suc n) (c ∷ s) = c ∷ take n s

abbrev pub max_role_session_name_chars : ℕ
max_role_session_name_chars = 62

-- `budget` is an `int`; below 1 it becomes 1, as it does where the subtraction stops at 0.
unfoldable pub role_session_name : Bytes → Bytes → Bytes
unfolding sanitize_session_name_component
role_session_name agent_id grant_id =
    let clean = sanitize_session_name_component agent_id in
    let agent = if is_empty clean then codes "a" else clean in
    let room = max_role_session_name_chars - length source_identity_prefix - 1 - length grant_id in
    let budget = if ltb room 1 then 1 else room in
    let cut = if ltb budget (length agent) then take budget agent else agent in
    source_identity_prefix ++ (cut ++ (b'-' ∷ grant_id))

length-take-le : (n : ℕ) (s : Bytes) → length (take n s) ≤ n
length-take-le zero s = omega arith
length-take-le (suc n) [] = omega arith
length-take-le (suc n) (c ∷ s) = omega (arith, length-take-le n s)

all-append : (p : ℕ → Bool) (s t : Bytes) → all p s ≡ true → all p t ≡ true → all p (s ++ t) ≡ true
all-append p [] t h k = k
all-append p (c ∷ s) t h k = ground (arith, all-append p s t)

all-take : (p : ℕ → Bool) (n : ℕ) (s : Bytes) → all p s ≡ true → all p (take n s) ≡ true
all-take p zero s h = refl
all-take p (suc n) [] h = refl
all-take p (suc n) (c ∷ s) h = ground (arith, all-take p n s)

sanitized : (s : Bytes) → all is_session_byte (sanitize_session_name_component s) ≡ true
unfolding sanitize_session_name_component
sanitized [] = refl
sanitized (c ∷ s) = ground (arith, sanitized s)

-- What stands between the prefix and the grant id: the agent part, cut to the budget.
abbrev clip : ℕ → Bytes → Bytes
clip n s = if ltb n (length s) then take n s else s

clip-length : (n : ℕ) (s : Bytes) → length (clip n s) ≤ n
clip-length n s = ground (arith, length-take-le n s)

clip-all : (p : ℕ → Bool) (n : ℕ) (s : Bytes) → all p s ≡ true → all p (clip n s) ≡ true
clip-all p n s h = ground (arith, all-take p n s)

abbrev at_least_one : ℕ → ℕ
at_least_one n = if ltb n 1 then 1 else n

abbrev or_a : Bytes → Bytes
or_a s = if is_empty s then codes "a" else s

-- The agent part as `RoleSessionName` builds it.
unfoldable agent_part : Bytes → Bytes → Bytes
agent_part agent_id grant_id =
    clip
      (at_least_one
        (max_role_session_name_chars - length source_identity_prefix - 1 - length grant_id))
      (or_a (sanitize_session_name_component agent_id))

role_session_name-parts :
    (a g : Bytes) → role_session_name a g ≡ source_identity_prefix ++ (agent_part a g ++ (b'-' ∷ g))
unfolding role_session_name agent_part
role_session_name-parts a g = refl

agent_part-length : (a g : Bytes) → length g ≤ 57 → length (agent_part a g) ≤ 58 - length g
unfolding agent_part
agent_part-length a g h =
    let room = 58 - length g in
    let name = or_a (sanitize_session_name_component a) in
    let bound : at_least_one room ≤ room = ground arith in
    le_trans (clip-length (at_least_one room) name) bound

agent_part-all : (a g : Bytes) → all is_session_byte (agent_part a g) ≡ true
unfolding agent_part
agent_part-all a g =
    let clean = sanitize_session_name_component a in
    let named : all is_session_byte (or_a clean) ≡ true = ground (arith, sanitized a) in
    clip-all is_session_byte (at_least_one (58 - length g)) (or_a clean) named

-- For a grant id of at most 57 bytes the session name has at most 62 bytes, and for a grant id in
-- the STS charset it lies in that charset, whatever bytes the agent id holds.
pub role_session_name_bounds :
    (a g : Bytes)
    → length g ≤ 57
    → all is_session_byte g ≡ true
    → (length (role_session_name a g) ≤ max_role_session_name_chars)
      × (all is_session_byte (role_session_name a g) ≡ true)
role_session_name_bounds a g h k = rw role_session_name-parts (
  omega (arith, length-append (agent_part a g) (b'-' ∷ g), agent_part-length a g h),
  all-append is_session_byte source_identity_prefix (agent_part a g ++ (b'-' ∷ g)) refl
      (all-append is_session_byte (agent_part a g) (b'-' ∷ g) (agent_part-all a g) (ground arith)),
)
