-- ===== src/Broker/Sweep.antt =====
-- `SweepOnce` of internal/broker/sweep.go. The row order of the queue stands for that of the listing.
pub mod Lapsed
use taskgrant.Prelude.{
  ℕ, ◌+◌, Bool, true, false, Option, none, some, List, [], ◌∷◌, ◌==◌, ltb, Bytes, same,
  if◌then◌else◌,
}
use taskgrant.Prelude.Maps.{get}
use taskgrant.Store.{Reply}
use taskgrant.Store.Pending.{PendingStatus, PendingApproval, Queue}
use taskgrant.Approvals.{sweep_once}
use taskgrant.Broker.{Entry, Broker}
use taskgrant.Broker.Entries.{save}
use taskgrant.Broker.Views.{expire_lapsed, finalize_expired_pending}

abbrev pub entry_retention : ℕ
entry_retention = 3600000000000

abbrev pub is_expired_row : PendingApproval → Bool
is_expired_row row = elim row.status [ PendingStatus.expired_pending ↦ true | _ ↦ false ]

-- One row: the entry that follows it is finalized, where it is still pending.
unfoldable pub sweep_row : ℕ → PendingApproval → Broker → Broker
sweep_row now row b =
    if is_expired_row row
    then elim (get same row.grant_id b.grants) [
      | none ↦ b
      | some e ↦ let (e', b') = finalize_expired_pending now e b in save e' b'
    ]
    else b

unfoldable pub sweep_rows : ℕ → Queue → Broker → Broker
sweep_rows now [] b = b
sweep_rows now (row ∷ q) b = sweep_rows now q (sweep_row now row b)

-- Terminal for longer than the retention.
abbrev pub is_stale : ℕ → Entry → Bool
is_stale now e = if e.terminal_at == 0 then false else ltb (e.terminal_at + entry_retention) now

unfoldable pub sweep_grants : ℕ → List (Bytes × Entry) → List (Bytes × Entry)
sweep_grants now [] = []
sweep_grants now ((g, e) ∷ m) =
    let rest = sweep_grants now m in
    let e' = expire_lapsed now e in if is_stale now e' then rest else (g, e') ∷ rest

unfoldable pub sweep : ℕ → Broker → Broker
sweep now b =
    let (reply, m) = sweep_once now b.approvals in
    let b1 = sweep_rows now m.queue (record b { approvals = m }) in
    record b1 { grants = sweep_grants now b1.grants }
