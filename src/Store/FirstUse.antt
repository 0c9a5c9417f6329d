-- ===== src/Store/FirstUse.antt =====
-- `FirstUseSeen` and `MarkFirstUse` of internal/store/security.go.
use taskgrant.Prelude.{
  ℕ, ◌≡◌, ap, Bool, true, false, ◌&&◌, ◌||◌, inl, inr, Option, none, some, List, [], ◌∷◌, Bytes,
  is_empty, any, arith, Bool-cases, if◌then◌else◌,
}
use taskgrant.Prelude.Maps.{get, put, get-put}
use taskgrant.Store.{Reply, done, failed, missing_argument, Key, same_key, same_key_iff}

pub record FirstUse : Type 0 where
  pub first_used_at : ℕ
  pub approved : Bool

abbrev pub FirstUses : Type 0
FirstUses = List (Key × FirstUse)

-- Whether the pair was seen, and whether it was approved.
unfoldable pub first_use_seen : Bytes → Bytes → FirstUses → Bool × Bool
first_use_seen agent capability t = elim (get same_key (agent, capability) t) [
  | none ↦ (false, false)
  | some row ↦ (true, row.approved)
]

-- The row that the `INSERT … ON CONFLICT` leaves; `MAX` of two flags is their disjunction.
unfoldable pub upsert : ℕ → Bool → Option FirstUse → FirstUse
upsert now approved none = record { first_used_at = now; approved = approved }
upsert now approved (some row) = record row { approved = row.approved || approved }

unfoldable pub mark_first_use : Bytes → Bytes → ℕ → Bool → FirstUses → Reply (Unit {0}) × FirstUses
mark_first_use agent capability now approved t =
    if is_empty agent || is_empty capability then (failed missing_argument, t) else (
      done tt,
      put same_key (agent, capability) (upsert now approved (get same_key (agent, capability) t)) t,
    )

pub record Mark : Type 0 where
  pub agent : Bytes
  pub capability : Bytes
  pub at : ℕ
  pub approved : Bool

unfoldable pub mark_all : List Mark → FirstUses → FirstUses
mark_all [] t = t
mark_all (m ∷ ms) t = mark_all ms (mark_first_use m.agent m.capability m.at m.approved t).1

-- The marks of a list that count for a pair.
abbrev pub is_for : Bytes → Bytes → Mark → Bool
is_for agent capability m = same_key (m.agent, m.capability) (agent, capability)

module _ (agent capability : Bytes) (named : (is_empty agent || is_empty capability) ≡ false) where
  pub mark_first_use-seen :
      (m : Mark) (t : FirstUses)
      → first_use_seen agent capability (mark_first_use m.agent m.capability m.at m.approved t).1
        ≡ (
          (first_use_seen agent capability t).0 || is_for agent capability m,
          (first_use_seen agent capability t).1 || (is_for agent capability m && m.approved),
        )
  unfolding first_use_seen mark_first_use upsert
  mark_first_use-seen m t = elim (Bool-cases (is_empty m.agent || is_empty m.capability)) [
    | inl e ↦ elim (Bool-cases (is_for agent capability m)) [
      | inl y ↦
          let own = (same_key_iff (m.agent, m.capability) (agent, capability)).0 y in
          ground (arith, named, e, ap (λ (q : Key). is_empty q.0 || is_empty q.1) own)
      | inr n ↦ ground arith
    ]
    | inr f ↦ elim (Bool-cases (is_for agent capability m)) [
      | inl y ↦
          let own = (same_key_iff (m.agent, m.capability) (agent, capability)).0 y in
          ground (
            arith,
            y,
            get-put same_key same_key_iff (m.agent, m.capability) (agent, capability)
                (upsert m.at m.approved (get same_key (m.agent, m.capability) t)) t,
            ap (λ (q : Key). get same_key q t) own,
          )
      | inr n ↦ ground (
        arith,
        n,
        get-put same_key same_key_iff (m.agent, m.capability) (agent, capability)
            (upsert m.at m.approved (get same_key (m.agent, m.capability) t)) t,
      )
    ]
  ]

  mark_all-seen :
      (ms : List Mark) (t : FirstUses)
      → first_use_seen agent capability (mark_all ms t) ≡ (
        (first_use_seen agent capability t).0 || any (is_for agent capability) ms,
        (first_use_seen agent capability t).1
            || any (λ m. is_for agent capability m && m.approved) ms,
      )
  unfolding mark_all
  mark_all-seen [] t = ground arith
  mark_all-seen (m ∷ ms) t = ground (
    arith,
    mark_first_use-seen m t,
    mark_all-seen ms (mark_first_use m.agent m.capability m.at m.approved t).1,
  )

  -- After any sequence of `MarkFirstUse` calls on an empty table, a named pair is seen exactly if
  -- some call names it, and approved exactly if some call that names it approves: a later call
  -- without approval takes nothing back.
  pub mark_all-first_use_seen :
      (ms : List Mark)
      → first_use_seen agent capability (mark_all ms [])
        ≡ (any (is_for agent capability) ms, any (λ m. is_for agent capability m && m.approved) ms)
  unfolding first_use_seen
  mark_all-first_use_seen ms = mark_all-seen ms []
