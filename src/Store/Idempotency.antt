-- ===== src/Store/Idempotency.antt =====
-- The idempotency keys of internal/store/security.go.
use taskgrant.Prelude.{
  ℕ, ◌<◌, ◌≡◌, ap, Bool, true, false, ◌||◌, inl, inr, Option, none, some, List, [], ◌∷◌, ltb, Bytes,
  is_empty, keep, arith, Bool-cases, if◌then◌else◌,
}
use taskgrant.Prelude.Maps.{get, put, get-put}
use taskgrant.Store.{Reply, done, failed, missing_argument, Key, same_key, same_key_iff}

pub record IdempotencyRow : Type 0 where
  pub grant_id : Bytes
  pub expires_at : ℕ

abbrev pub IdempotencyKeys : Type 0
IdempotencyKeys = List (Key × IdempotencyRow)

abbrev pub is_live : ℕ → IdempotencyRow → Bool
is_live now row = ltb now row.expires_at

-- The row that a key still holds inside its window.
abbrev pub live : ℕ → Option IdempotencyRow → Option Bytes
live now none = none
live now (some row) = if is_live now row then some row.grant_id else none

-- The stored grant id, with whether it is new.
unfoldable pub put_idempotency_key :
    Bytes → Bytes → Bytes → ℕ → ℕ → IdempotencyKeys → Reply (Bytes × Bool) × IdempotencyKeys
put_idempotency_key agent key grant_id now expires_at t =
    if is_empty agent || (is_empty key || is_empty grant_id)
    then (failed missing_argument, t)
    else elim (live now (get same_key (agent, key) t)) [
      | some existing ↦ (done (existing, false), t)
      | none ↦ (
        done (grant_id, true),
        put same_key (agent, key) (record { grant_id = grant_id; expires_at = expires_at }) t,
      )
    ]

unfoldable pub lookup_idempotency_key : Bytes → Bytes → ℕ → IdempotencyKeys → Option Bytes
lookup_idempotency_key agent key now t = live now (get same_key (agent, key) t)

-- `DELETE … WHERE expires_at <= now`: the rows that stay. The count is what it is shorter by.
unfoldable pub delete_expired_idempotency_keys : ℕ → IdempotencyKeys → IdempotencyKeys
delete_expired_idempotency_keys now t = keep (λ (r : Key × IdempotencyRow). is_live now r.1) t

-- The calls that write, with their times.
pub data Write : Type 0 where
  put_key : Bytes → Bytes → Bytes → ℕ → ℕ → Write
  delete_expired : ℕ → Write

abbrev pub time_of : Write → ℕ
time_of (put_key agent key grant_id now expires_at) = now
time_of (delete_expired now) = now

unfoldable pub write : Write → IdempotencyKeys → IdempotencyKeys
write (put_key agent key grant_id now expires_at) t =
    (put_idempotency_key agent key grant_id now expires_at t).1
write (delete_expired now) t = delete_expired_idempotency_keys now t

unfoldable pub write_all : List Write → IdempotencyKeys → IdempotencyKeys
write_all [] t = t
write_all (w ∷ ws) t = write_all ws (write w t)

abbrev pub AllBefore : ℕ → List Write → Type 0
AllBefore limit [] = Unit
AllBefore limit (w ∷ ws) = (time_of w < limit) × AllBefore limit ws

delete-keeps :
    (now : ℕ) (k : Key) (row : IdempotencyRow) (t : IdempotencyKeys)
    → now < row.expires_at
    → get same_key k t ≡ some row
    → get same_key k (delete_expired_idempotency_keys now t) ≡ some row
unfolding delete_expired_idempotency_keys
delete-keeps now k row [] h e = cc
delete-keeps now k row ((j, r) ∷ t) h e = elim (Bool-cases (same_key j k)) [
  | inl y ↦ ground arith
  | inr n ↦ ground (arith, delete-keeps now k row t h)
]

put-keeps :
    (agent key grant_id : Bytes) (now expires_at : ℕ) (k : Key) (row : IdempotencyRow)
    (t : IdempotencyKeys)
    → now < row.expires_at
    → get same_key k t ≡ some row
    → get same_key k (put_idempotency_key agent key grant_id now expires_at t).1 ≡ some row
unfolding put_idempotency_key
put-keeps agent key grant_id now expires_at k row t h e =
    elim (Bool-cases (same_key (agent, key) k)) [
      | inl y ↦
          let own = (same_key_iff (agent, key) k).0 y in
          ground (arith, ap (λ (q : Key). get same_key q t) own)
      | inr n ↦ ground (
        arith,
        get-put same_key same_key_iff (agent, key) k
            (record { grant_id = grant_id; expires_at = expires_at }) t,
      )
    ]

write_all-keeps :
    (k : Key) (row : IdempotencyRow) (ws : List Write) (t : IdempotencyKeys)
    → AllBefore row.expires_at ws
    → get same_key k t ≡ some row
    → get same_key k (write_all ws t) ≡ some row
unfolding write_all write
write_all-keeps k row [] t h e = e
write_all-keeps k row (put_key a c g now x ∷ ws) t (h, hs) e =
    write_all-keeps k row ws _ hs (put-keeps a c g now x k row t h e)
write_all-keeps k row (delete_expired now ∷ ws) t (h, hs) e =
    write_all-keeps k row ws _ hs (delete-keeps now k row t h e)

-- Once a key is stored with a grant id, then through any writes before its window closes a lookup
-- inside the window gives that id, and a further put of the key replays it and creates nothing,
-- whatever grant id it brings.
pub write_all-replays :
    (agent key grant_id other : Bytes) (now expires_at later expires_later : ℕ) (ws : List Write)
    (t : IdempotencyKeys)
    → (put_idempotency_key agent key grant_id now expires_at t).0 ≡ done (grant_id, true)
    → AllBefore expires_at ws
    → later < expires_at
    → (is_empty other ≡ false)
    → (lookup_idempotency_key agent key later
          (write_all ws (put_idempotency_key agent key grant_id now expires_at t).1)
        ≡ some grant_id)
      × ((put_idempotency_key agent key other later expires_later
            (write_all ws (put_idempotency_key agent key grant_id now expires_at t).1)).0
          ≡ done (grant_id, false))
unfolding put_idempotency_key lookup_idempotency_key
write_all-replays agent key grant_id other now expires_at later expires_later ws t made h l o =
    let k : Key = (agent, key) in
    let row : IdempotencyRow = record { grant_id = grant_id; expires_at = expires_at } in
    let stored : get same_key k (put_idempotency_key agent key grant_id now expires_at t).1
        ≡ some row =
      ground (arith, get-put same_key same_key_iff k k row t, same_key_iff k k) in
    let kept =
      write_all-keeps k row ws (put_idempotency_key agent key grant_id now expires_at t).1 h
        stored in
    ground (arith, kept)
