-- ===== src/Audit/Prune.antt =====
-- `Prune` of internal/store/verify.go, and runs of appends and prunes. `marshal` is the JSON encoder.
use taskgrant.Prelude.{
  ℕ, suc, Bool, Option, none, some, List, [], ◌∷◌, ltb, length, Bytes, if◌then◌else◌,
}
use taskgrant.Domain.Codes.{prune_kind}
use taskgrant.Audit.{
  AuditRecord, Chain, Entry, appended, not_appended, row_of, append_locked, append,
}

-- The rows before the first that is not older than the cutoff, and the others.
unfoldable pub split_at_cutoff : ℕ → List AuditRecord → List AuditRecord × List AuditRecord
split_at_cutoff cutoff [] = ([], [])
split_at_cutoff cutoff (r ∷ rs) =
    let (doomed, rest) = split_at_cutoff cutoff rs in
    if ltb r.ts cutoff then (r ∷ doomed, rest) else ([], r ∷ rs)

pub record PruneBody : Type 0 where
  pub cutoff : ℕ
  pub pruned_count : ℕ
  pub last_pruned_seq : ℕ
  pub last_pruned_hash : Bytes
  pub first_pruned_seq : ℕ
  pub first_pruned_hash : Bytes

abbrev pub last_of : AuditRecord → List AuditRecord → AuditRecord
last_of r [] = r
last_of r (s ∷ rs) = last_of s rs

abbrev pub prune_body : ℕ → AuditRecord → List AuditRecord → PruneBody
prune_body cutoff first doomed = record {
  cutoff = cutoff;
  pruned_count = suc (length doomed);
  last_pruned_seq = (last_of first doomed).seq;
  last_pruned_hash = (last_of first doomed).hash;
  first_pruned_seq = first.seq;
  first_pruned_hash = first.hash;
}

pub data PruneReply : Type 0 where
  -- The number of rows removed.
  pruned : ℕ → PruneReply
  export_required prune_body_invalid prune_not_appended : PruneReply

pub data AuditOp : Type 0 where
  append_op : Bytes → ℕ → Entry → AuditOp
  prune_op : Bytes → ℕ → ℕ → Bool → AuditOp

module _ (hash : Bytes → Bytes) (canonicalize : Bytes → Option Bytes) where
  module _ (marshal : PruneBody → Bytes) where
    abbrev pub prune_entry : Bytes → Entry
    prune_entry body = record {
      record_id = [];
      grant_id = [];
      ts = 0;
      kind = prune_kind;
      body = body;
    }

    -- The `DELETE` and the insert of one transaction.
    unfoldable pub prune_rows :
        Bytes
        → ℕ
        → ℕ
        → AuditRecord
        → List AuditRecord
        → List AuditRecord
        → Chain
        → PruneReply × Chain
    prune_rows fresh now cutoff first doomed rest c =
        elim (canonicalize (marshal (prune_body cutoff first doomed))) [
          | none ↦ (prune_body_invalid, c)
          | some body ↦
              let (reply, c') =
                append_locked hash (row_of hash fresh now (prune_entry body) body c)
                  (record c { records = rest }) in
              elim reply [
                | not_appended e ↦ (prune_not_appended, c)
                | appended r ↦ (pruned (suc (length doomed)), c')
              ]
        ]

    unfoldable pub prune : Bytes → ℕ → ℕ → Bool → Chain → PruneReply × Chain
    prune fresh now cutoff has_export c =
        let (doomed, rest) = split_at_cutoff cutoff c.records in
        elim doomed [
          | [] ↦ (pruned 0, c)
          | first ∷ more ↦
              if has_export
              then prune_rows fresh now cutoff first more rest c
              else (export_required, c)
        ]

    -- A run of appends and prunes.
    unfoldable pub run : List AuditOp → Chain → Chain
    run [] c = c
    run (append_op fresh now e ∷ ops) c = run ops (append hash canonicalize fresh now e c).1
    run (prune_op fresh now cutoff has_export ∷ ops) c =
        run ops (prune fresh now cutoff has_export c).1
