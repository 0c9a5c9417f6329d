-- ===== src/Store/Pending/Sweep.antt =====
-- What `ExpirePendingApprovals` leaves in the queue.
use taskgrant.Prelude.{ℕ, Bool, ◌||◌, not, List, same, any}
use taskgrant.Store.Pending.{PendingApproval, is_doomed}

abbrev is_listed : List PendingApproval → PendingApproval → Bool
is_listed ds x = any (λ (d : PendingApproval). same x.grant_id d.grant_id) ds

module _ (ttl now : ℕ) where
  abbrev is_covered : List PendingApproval → PendingApproval → Bool
  is_covered ds x = not (is_doomed ttl now x) || is_listed ds x
