-- ===== src/Audit.antt =====
-- The audit chain of internal/store/store.go (`Append`, `appendLocked`, `chainHash`) and of verify.go
-- (`Verify`, `Prune`). `hash` stands for SHA-256 in hex and `canonicalize` for the re-emission of JSON,
-- `none` where it does not parse. The columns of a record that are neither checked nor hashed are
-- left out, as are the mirror file and the export, and the driver's own failures.
pub mod Walk
pub mod Prune
pub mod Canonical
pub mod Kept
pub mod Binding
use taskgrant.Prelude.{
  ℕ, zero, suc, ◌+◌, Bool, true, false, not, ◌&&◌, ◌||◌, Option, none, some, List, [], ◌∷◌, ◌++◌,
  ◌==◌, leb, ltb, keep, length, Bytes, same, is_empty, if◌then◌else◌,
}
use taskgrant.Domain.Codes.{RecordKind, record_kind_valid, prune_kind}

pub record AuditRecord : Type 0 where
  pub seq : ℕ
  pub record_id : Bytes
  pub grant_id : Bytes
  pub ts : ℕ
  pub kind : RecordKind
  pub body : Bytes
  pub prev_hash : Bytes
  pub hash : Bytes

-- The rows in the order of `seq`, the counter of the table, and the head that the store caches.
pub record Chain : Type 0 where
  pub records : List AuditRecord
  pub next_seq : ℕ
  pub head_seq : ℕ
  pub head_hash : Bytes

pub data AppendError : Type 0 where
  invalid_kind grant_id_required body_required body_invalid duplicate_record : AppendError

-- The sixty-four zeros of `GenesisHash`.
abbrev pub zeros : ℕ → Bytes
zeros zero = []
zeros (suc n) = b'0' ∷ zeros n

abbrev pub genesis_hash : Bytes
genesis_hash = zeros 64

-- What a caller of `Append` gives.
pub record Entry : Type 0 where
  pub record_id : Bytes
  pub grant_id : Bytes
  pub ts : ℕ
  pub kind : RecordKind
  pub body : Bytes

pub data Appended : Type 0 where
  appended : AuditRecord → Appended
  not_appended : AppendError → Appended

abbrev pub or_fresh : Bytes → Bytes → Bytes
or_fresh id fresh = if is_empty id then fresh else id

abbrev pub or_now : ℕ → ℕ → ℕ
or_now ts now = if ts == 0 then now else ts

abbrev pub has_record : Bytes → List AuditRecord → Bool
has_record id [] = false
has_record id (r ∷ rs) = same r.record_id id || has_record id rs

pub data ChainReason : Type 0 where
  prev_mismatch not_json not_canonical hash_mismatch : ChainReason

-- The sequence number of the broken record, with the reason.
pub record ChainError : Type 0 where
  pub seq : ℕ
  pub reason : ChainReason

pub record VerifyResult : Type 0 where
  pub records : ℕ
  pub first_seq : ℕ
  pub head_seq : ℕ
  pub head_hash : Bytes

pub data Verified : Type 0 where
  intact : VerifyResult → Verified
  broken : ChainError → Verified

abbrev pub nothing_verified : VerifyResult
nothing_verified = record { records = 0; first_seq = 0; head_seq = 0; head_hash = genesis_hash }

-- What the walk holds after a record.
abbrev pub verified_with : AuditRecord → Option VerifyResult → VerifyResult
verified_with r none = record {
  records = 1;
  first_seq = r.seq;
  head_seq = r.seq;
  head_hash = r.hash;
}
verified_with r (some v) = record v {
  records = suc v.records;
  head_seq = r.seq;
  head_hash = r.hash;
}

abbrev pub is_linked : AuditRecord → Option VerifyResult → Bool
is_linked r none = true
is_linked r (some v) = same r.prev_hash v.head_hash

-- The head of a table without rows.
abbrev pub empty_chain : Chain
empty_chain = record { records = []; next_seq = 1; head_seq = 0; head_hash = genesis_hash }

module _ (hash : Bytes → Bytes) where
  unfoldable pub chain_hash : Bytes → Bytes → Bytes
  chain_hash prev body = hash (prev ++ body)

  -- The row that an insert makes behind the head; `fresh` is the id for an entry that has none.
  abbrev pub row_of : Bytes → ℕ → Entry → Bytes → Chain → AuditRecord
  row_of fresh now e canonical c = record {
    seq = c.next_seq;
    record_id = or_fresh e.record_id fresh;
    grant_id = e.grant_id;
    ts = or_now e.ts now;
    kind = e.kind;
    body = canonical;
    prev_hash = c.head_hash;
    hash = chain_hash c.head_hash canonical;
  }

  unfoldable pub append_locked : AuditRecord → Chain → Appended × Chain
  append_locked r c =
      if has_record r.record_id c.records then (not_appended duplicate_record, c) else (
        appended r,
        record {
          records = c.records ++ r ∷ [];
          next_seq = suc c.next_seq;
          head_seq = r.seq;
          head_hash = r.hash;
        },
      )

  module _ (canonicalize : Bytes → Option Bytes) where
    unfoldable pub append : Bytes → ℕ → Entry → Chain → Appended × Chain
    append fresh now e c =
        if not (record_kind_valid e.kind)
        then (not_appended invalid_kind, c)
        else if is_empty e.grant_id && not (same e.kind prune_kind)
        then (not_appended grant_id_required, c)
        else if is_empty e.body
        then (not_appended body_required, c)
        else elim (canonicalize e.body) [
          | none ↦ (not_appended body_invalid, c)
          | some canonical ↦ append_locked (row_of fresh now e canonical c) c
        ]

    -- One record of the walk: the error, if it breaks the chain.
    unfoldable pub check_record : AuditRecord → Option VerifyResult → Option ChainReason
    check_record r v =
        if is_linked r v
        then elim (canonicalize r.body) [
          | none ↦ some not_json
          | some canonical ↦
              if same canonical r.body
              then if same (chain_hash r.prev_hash canonical) r.hash
                then none
                else some hash_mismatch
              else some not_canonical
        ]
        else some prev_mismatch

    abbrev or_nothing : Option VerifyResult → VerifyResult
    or_nothing none = nothing_verified
    or_nothing (some v) = v

    -- The loop, from what is verified so far on.
    unfoldable pub verify_loop : Option VerifyResult → List AuditRecord → Verified
    unfolding check_record
    verify_loop v [] = intact (or_nothing v)
    verify_loop v (r ∷ rs) =
        let rest = verify_loop (some (verified_with r v)) rs in
        elim (check_record r v) [
          | none ↦ rest
          | some reason ↦ broken record { seq = r.seq; reason = reason }
        ]

    unfoldable pub verify : Chain → Verified
    verify c = verify_loop none c.records
