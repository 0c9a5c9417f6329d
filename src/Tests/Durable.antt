-- ===== src/Tests/Durable.antt =====
-- Runs of the durable store and of the approvals manager.
use taskgrant.Prelude.{
  ℕ, ◌^◌, ◌+◌, ◌-◌, ◌*◌, ◌≤◌, ◌<◌, ◌≡◌, refl, ◌⊎◌, inl, inr, Bool, true, false, ◌&&◌, ◌||◌, Option,
  none, some, List, [], ◌∷◌, ◌++◌, Bytes, codes, map, any, length, is_empty, In, arith,
}
use taskgrant.Store.{Reply, done, failed, Key}
use taskgrant.Prelude.Float.{one}
use taskgrant.Store.Rates.{Call, nanos_per_hour, granted}
use taskgrant.Store.Rates.Bound.{asked, granted_bound}
use taskgrant.Store.FirstUse.{Mark, is_for, mark_all, first_use_seen, mark_all-first_use_seen}
use taskgrant.Store.Idempotency.{
  Write, put_key, delete_expired, put_idempotency_key, lookup_idempotency_key, write_all,
  write_all-replays,
}
use taskgrant.Store.Pending.{
  PendingApproval, Queue, pending, approved, is_pending, is_terminal, unique, Verdict, decided,
  get_pending_approval,
}
use taskgrant.Store.Pending.Once.{
  QueueWrite, decide, expire, apply_all, SameRequest, apply_all-Evolves,
}
use taskgrant.Store.Ledger.{
  Use, used, recent, record_capability_use, record_capability_use-recent, Durable, state_adapter,
}
use taskgrant.Store.Ledger.Creep.{check_creep-counts}
use taskgrant.Guardrails.{pass, CapabilityMeta}
use taskgrant.Guardrails.State.{check_creep}
use taskgrant.Guardrails.Evaluator.{creep_alert_threshold}
use taskgrant.Approvals.{Manager, Decision, decision, decision_from, approve}
use taskgrant.Approvals.Approve.{verdict_of, approve_decides}
use taskgrant.Tests.Fixture.{input}

abbrev bot : Bytes
bot = codes "bot"

abbrev reads : Bytes
reads = codes "s3-read"

abbrev calls : List Call
calls = ((bot, reads), 0) ∷ ((bot, reads), 7) ∷ ((bot, reads), nanos_per_hour) ∷ []

granted_bound_example :
    2 ^ 53 * (nanos_per_hour * (one * granted one one (bot, reads) calls []))
    ≤ 2 ^ 53 * (nanos_per_hour * one)
      + (2 ^ 53 + 6) * (one * (nanos_per_hour - 0))
      + 3 * (nanos_per_hour * (one * asked (bot, reads) calls))
granted_bound_example =
    granted_bound one one (bot, reads) 0 nanos_per_hour calls (omega arith)
      (omega arith, (omega arith, (omega arith, omega arith)))

-- The second call finds the bucket empty, the third one finds it full again.
granted_twice : granted one one (bot, reads) calls [] ≡ 2
unfolding granted taskgrant.Store.Rates.take_token taskgrant.Store.Rates.refill
    taskgrant.Store.Rates.spend taskgrant.Store.Rates.hours taskgrant.Prelude.Float.add
    taskgrant.Prelude.Float.sub taskgrant.Prelude.Float.mul taskgrant.Prelude.Float.div
granted_twice = refl

abbrev marks : List Mark
marks =
    record { agent = bot; capability = reads; at = 1; approved = true }
    ∷ record { agent = bot; capability = reads; at = 2; approved = false }
    ∷ []

mark_all-first_use_seen_example :
    first_use_seen bot reads (mark_all marks [])
    ≡ (any (is_for bot reads) marks, any (λ m. is_for bot reads m && m.approved) marks)
mark_all-first_use_seen_example = mark_all-first_use_seen bot reads refl marks

created : (put_idempotency_key bot (codes "k") (codes "gr_1") 1 10 []).0 ≡ done (codes "gr_1", true)
unfolding put_idempotency_key
created = refl

abbrev writes : List Write
writes = delete_expired 4 ∷ put_key bot (codes "k") (codes "gr_2") 5 20 ∷ []

write_all-replays_example :
    (lookup_idempotency_key bot
        (codes "k")
        6
        (write_all writes (put_idempotency_key bot (codes "k") (codes "gr_1") 1 10 []).1)
      ≡ some (codes "gr_1"))
    × ((put_idempotency_key bot
          (codes "k")
          (codes "gr_3")
          6
          30
          (write_all writes (put_idempotency_key bot (codes "k") (codes "gr_1") 1 10 []).1)).0
        ≡ done (codes "gr_1", false))
write_all-replays_example =
    write_all-replays bot (codes "k") (codes "gr_1") (codes "gr_3") 1 10 6 30 writes [] created
      (omega arith, (omega arith, tt)) (omega arith) refl

abbrev parked : PendingApproval
parked = record {
  grant_id = codes "gr_1";
  agent_id = bot;
  profile = [];
  task = [];
  reason = [];
  policy_json = codes "{ }";
  capabilities = reads ∷ [];
  required_by = codes "rule";
  status = pending;
  received_at = 5;
  expires_at = 15;
  decided_at = 0;
  approver = [];
  method = [];
  note = [];
}

abbrev queue : Queue
queue = parked ∷ []

found : get_pending_approval (codes "gr_1") queue ≡ some parked
unfolding get_pending_approval
found = refl

abbrev steps : List QueueWrite
steps = expire 10 20 ∷ decide (codes "gr_1") (verdict_of 21 (codes "ann") (codes "cli") []) ∷ []

apply_all-Evolves_example :
    (r : PendingApproval) × (get_pending_approval (codes "gr_1") (apply_all steps queue) ≡ some r)
    × ((r ≡ parked)
        ⊎ ((is_pending pending ≡ true) × (is_terminal r.status ≡ true) × SameRequest parked r))
apply_all-Evolves_example = apply_all-Evolves steps (codes "gr_1") parked queue found

single : unique queue ≡ true
unfolding get_pending_approval
single = refl

abbrev manager : Manager
manager = record {
  ttl = 10;
  queue = queue;
  first_uses = [];
  waiters = (codes "gr_1", 1 ∷ []) ∷ [];
  inbox = [];
}

abbrev verdict : Verdict
verdict = verdict_of 6 (codes "ann") (codes "cli") []

approves :
    (approve 6 (codes "gr_1") (codes "ann") (codes "cli") [] manager).0
    ≡ decision (decision_from (decided verdict parked))
unfolding approve taskgrant.Approvals.decide_as taskgrant.Approvals.settle
    taskgrant.Store.Pending.decide_pending_approval get_pending_approval
    taskgrant.Store.Pending.update taskgrant.Store.Pending.affected
approves = refl

approve_decides_example :
    (p : PendingApproval) × (get_pending_approval (codes "gr_1") queue ≡ some p)
    × (is_pending p.status ≡ true)
    × (decision_from (decided verdict parked) ≡ decision_from (decided verdict p))
    × (get_pending_approval
          (codes "gr_1")
          (approve 6 (codes "gr_1") (codes "ann") (codes "cli") [] manager).1.queue
        ≡ some (decided verdict p))
    × ((c : Bytes)
        → In c p.capabilities
        → (is_empty p.agent_id || is_empty c) ≡ false
        → first_use_seen p.agent_id c
            (approve 6 (codes "gr_1") (codes "ann") (codes "cli") [] manager).1.first_uses
          ≡ (true, true))
approve_decides_example =
    approve_decides 6 (codes "gr_1") (codes "ann") (codes "cli") [] manager
      (decision_from (decided verdict parked)) single approves

abbrev durable : Durable
durable = record { buckets = []; uses = [] }

few : (check_creep (some (state_adapter 3)) input durable).0.verdict ≡ pass
unfolding check_creep taskgrant.Store.Ledger.count_with taskgrant.Store.Ledger.record_all
    record_capability_use taskgrant.Store.Ledger.distinct_capabilities_24h recent
    taskgrant.Prelude.add_all taskgrant.Prelude.add_new
few = refl

check_creep-counts_example :
    (length (recent bot 3 (check_creep (some (state_adapter 3)) input durable).1.uses)
      < creep_alert_threshold)
    × ((c : Bytes)
        → In c (map (λ (m : CapabilityMeta). m.id) input.capabilities)
        → In c (recent bot 3 (check_creep (some (state_adapter 3)) input durable).1.uses))
check_creep-counts_example = check_creep-counts 3 input durable few
