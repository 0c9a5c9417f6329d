-- ===== src/Broker/Human/Decided.antt =====
-- When an approval reaches STS.
use taskgrant.Prelude.{
  ℕ, ◌≤◌, ◌≡◌, refl, ap, ◌∙◌, ◌⊎◌, inl, inr, true, some, List, ◌++◌, Bytes, same, length, In, arith,
  Option-cases,
}
use taskgrant.Prelude.Maps.{get}
use taskgrant.Domain.State.{State}
use taskgrant.Mint.{AssumeRoleInput, Minted}
use taskgrant.Store.Pending.{PendingApproval, is_pending, get_pending_approval, unique}
use taskgrant.Approvals.{Answer, Decision, decision, approve}
use taskgrant.Approvals.Approve.{approve_decides}
use taskgrant.Broker.{Deps, Entry, Broker}
use taskgrant.Broker.Entries.{set_state_locked, put_entry, append_record}
use taskgrant.Broker.Minting.{GrantMint, GrantMintError, grant_minted, grant_not_minted, mint_grant}
use taskgrant.Broker.Minting.Verified.{IsVerified, mint_grant-IsVerified}
use taskgrant.Broker.Pipeline.{after_mint}
use taskgrant.Broker.Human.{
  entry_for_approval, decided_of, mint_failed_after, minted_after, approved_grant, approve_grant,
}

decided_of-decision :
    (a : Answer) (at : ℕ) → decided_of a ≡ some at → (d : Decision) × (a ≡ decision d)
decided_of-decision (decision d) at h = (d, refl)
decided_of-decision _ at h = ground arith

entry_for_approval-calls : (g : Bytes) (b : Broker) → (entry_for_approval g b).1.calls ≡ b.calls
unfolding entry_for_approval put_entry
entry_for_approval-calls g b = elim (Option-cases (get same g b.grants)) [
  | inl q ↦ rw (q, entry_for_approval) refl
  | inr (e, q) ↦ rw (q, entry_for_approval) refl
]

GrantMint-cases :
    (m : GrantMint)
    → ((x : GrantMintError) × (m ≡ grant_not_minted x)) ⊎ ((k : Minted) × (m ≡ grant_minted k))
GrantMint-cases (grant_not_minted x) = inl (x, refl)
GrantMint-cases (grant_minted k) = inr (k, refl)

module _ (deps : Deps) (now : ℕ) (g : Bytes) where
  -- The entry that is minted, and the broker it is minted in.
  abbrev pub minting : Broker → Entry
  minting b = set_state_locked State.approved (entry_for_approval g b).0

  -- The broker behind the decision of the manager.
  abbrev pub decided_broker : Bytes → Bytes → Bytes → Broker → Broker
  decided_broker approver method note b = record b {
    approvals = (approve now g approver method note b.approvals).1;
  }

  approved_grant-calls :
      (at : ℕ) (b : Broker)
      → (approved_grant deps now g at b).1.calls
        ≡ (mint_grant deps (minting b) (entry_for_approval g b).1).1.1.calls
  unfolding approved_grant mint_failed_after minted_after append_record after_mint
  approved_grant-calls at b =
      elim (GrantMint-cases (mint_grant deps (minting b) (entry_for_approval g b).1).0) [
        | inl (x, q) ↦ rw (q, approved_grant) refl
        | inr (m, q) ↦ rw (q, approved_grant) refl
      ]

  -- An approval reaches STS only where the row of the grant was pending in a queue whose grant ids are
  -- unique. It then makes two calls at most, each with the policy of the grant's entry (in memory, or
  -- rebuilt from the row), or with one that the synthesizer gave back when asked for at most 80
  -- percent of that policy's characters and that the guardrails did not fail.
  pub approve_grant-IsVerified :
      (approver method note : Bytes) (b : Broker)
      → unique b.approvals.queue ≡ true
      → ((approve_grant deps now g approver method note b).1.1.calls ≡ b.calls)
        ⊎ ((p : PendingApproval) × (get_pending_approval g b.approvals.queue ≡ some p)
            × (is_pending p.status ≡ true)
            × ((new : List AssumeRoleInput) × ((approve_grant deps now g approver method note
                    b).1.1.calls
                  ≡ new ++ b.calls)
                × (length new ≤ 2)
                × ((i : AssumeRoleInput)
                    → In i new
                    → IsVerified deps
                        (minting (decided_broker approver method note b))
                        (entry_for_approval g (decided_broker approver method note b)).1
                        i)))
  unfolding approve_grant
  approve_grant-IsVerified approver method note b u =
      let answer = (approve now g approver method note b.approvals).0 in
      let b' = decided_broker approver method note b in
      elim (Option-cases (decided_of answer)) [
        | inl n ↦ inl (rw (n, approve_grant) refl)
        | inr (at, q) ↦
            let (d, own) = decided_of-decision answer at q in
            let (p, found, pending, read, row, uses) =
              approve_decides now g approver method note b.approvals d u own in
            let (new, eq, le, ok) =
              mint_grant-IsVerified deps (minting b') (entry_for_approval g b').1 in
            inr (
              p,
              found,
              pending,
              (
                new,
                rw (q, approve_grant)
                    (approved_grant-calls at b'
                      ∙ eq
                      ∙ ap (λ cs. new ++ cs) (entry_for_approval-calls g b')),
                le,
                ok,
              ),
            )
      ]
