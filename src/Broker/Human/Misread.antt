-- ===== src/Broker/Human/Misread.antt =====
-- What the log says of a grant whose mint failed after the approval.
use taskgrant.Prelude.{
  ℕ, ◌≡◌, refl, ap, ◌∙◌, ◌⊎◌, inl, inr, true, Option, none, some, List, [], ◌∷◌, ◌++◌, Bytes, same,
  same_refl, same_iff, subst, arith, Option-cases,
}
use taskgrant.Prelude.Maps.{get, get-put}
use taskgrant.Domain.State.{State, set_state, validate_transition}
use taskgrant.Mint.{Minted}
use taskgrant.Store.Pending.{get_pending_approval}
use taskgrant.Broker.{Deps, Entry, Outcome, RecordKind, Body, LogRecord, Broker, Status, View}
use taskgrant.Broker.Entries.{
  append_record, grant_chain, set_state_locked, mark_terminal, new_entry, put_entry,
}
use taskgrant.Broker.Minting.{
  GrantMint, GrantMintError, grant_minted, grant_not_minted, mint_grant, classify_mint_error,
}
use taskgrant.Broker.Minting.Kept.{mint_grant-IsKept}
use taskgrant.Broker.Views.{blank_view}
use taskgrant.Broker.Views.Logged.{
  read_record, read_records, read_approval, active_or_expired, read_chain, reconstruct_view,
}
use taskgrant.Broker.Human.{
  minted, mint_failed, mint_failed_after, entry_for_approval, entry_from_row, approved_grant,
}

grant_chain-append :
    (g : Bytes) (log : List LogRecord) (r : LogRecord)
    → r.grant_id ≡ g
    → grant_chain g (log ++ r ∷ []) ≡ grant_chain g log ++ r ∷ []
unfolding grant_chain
grant_chain-append g [] r h = ground (arith, same_refl g, h)
grant_chain-append g (x ∷ log) r h = ground (arith, grant_chain-append g log r h)

read_records-append :
    (rs : List LogRecord) (r : LogRecord) (now : ℕ) (sv : Option Status × View)
    → read_records (rs ++ r ∷ []) now sv ≡ read_record r now (read_records rs now sv)
unfolding read_records
read_records-append [] r now sv = refl
read_records-append (x ∷ rs) r now sv = read_records-append rs r now (read_record x now sv)

-- A record as it is written where the mint failed.
abbrev IsApprovedUnminted : LogRecord → Type 0
IsApprovedUnminted r =
    (body : Body) × (r.body ≡ some body)
    × (r.kind ≡ RecordKind.approval)
    × (body.approval ≡ some Outcome.approved)
    × (body.expiration ≡ 0)
    × (body.sts_expiration ≡ none)

read_record-active :
    (r : LogRecord) (now : ℕ) (sv : Option Status × View)
    → IsApprovedUnminted r
    → (read_record r now sv).0 ≡ some Status.active
unfolding read_record read_approval active_or_expired
read_record-active r now (s, v) (body, b, k, a, x, y) =
    rw (b, k, a, x, y, read_record, read_approval, active_or_expired) refl

read_chain-active :
    (agent g : Bytes) (now : ℕ) (b : Broker) (x : LogRecord) (rs : List LogRecord) (r : LogRecord)
    → x.agent_id ≡ agent
    → IsApprovedUnminted r
    → (v : View) × (read_chain agent g now b (x ∷ rs ++ r ∷ []) ≡ some v)
      × (v.status ≡ Status.active)
unfolding read_chain
read_chain-active agent g now b x rs r own u =
    let start : Option Status × View = (none, blank_view g Status.error) in
    let end = read_records-append (x ∷ rs) r now start in
    let active = read_record-active r now (read_records (x ∷ rs) now start) u in
    let owned : same x.agent_id agent ≡ true = ap (λ a. same a agent) own ∙ same_refl agent in
    let status : (read_records (x ∷ rs ++ r ∷ []) now start).0 ≡ some Status.active =
      ap (λ (sv : Option Status × View). sv.0) end ∙ active in
    (
      record ((read_records (x ∷ rs ++ r ∷ []) now start).1) { status = Status.active },
      rw (read_chain, owned, status) refl,
      refl,
    )

-- Each live grant under this id waits for its approval.
abbrev pub IsWaiting : Bytes → Broker → Type 0
IsWaiting g b =
    (e : Entry)
    → get same g b.grants ≡ some e
    → (e.grant_id ≡ g) × (e.state ≡ State.pending_approval)

entry_for_approval-waiting :
    (g : Bytes) (b : Broker)
    → IsWaiting g b
    → ((entry_for_approval g b).0.grant_id ≡ g)
      × ((entry_for_approval g b).0.state ≡ State.pending_approval)
      × ((entry_for_approval g b).1.log ≡ b.log)
unfolding entry_for_approval entry_from_row new_entry put_entry
entry_for_approval-waiting g b w = elim (Option-cases (get same g b.grants)) [
  | inr (e, q) ↦ let (id, s) = w e q in rw (q, entry_for_approval) (id, s, refl)
  | inl q ↦ elim (Option-cases (get_pending_approval g b.approvals.queue)) [
    | inl n ↦ rw (q, n, entry_for_approval) (refl, refl, refl)
    | inr (row, n) ↦ rw (q, n, entry_for_approval) (refl, refl, refl)
  ]
]

mint_failed_after-log :
    (now at : ℕ) (x : GrantMintError) (e : Entry) (b : Broker)
    → (r : LogRecord) × ((mint_failed_after now at x e b).log ≡ b.log ++ r ∷ [])
      × (r.grant_id ≡ e.grant_id)
      × IsApprovedUnminted r
unfolding mint_failed_after append_record set_state_locked mark_terminal
mint_failed_after-log now at x e b = (_, refl, refl, (_, refl, refl, refl, refl, refl))

mint_failed_after-denied :
    (now at : ℕ) (x : GrantMintError) (e : Entry) (b : Broker)
    → e.state ≡ State.approved
    → (e' : Entry) × (get same e.grant_id (mint_failed_after now at x e b).grants ≡ some e')
      × (e'.state ≡ State.denied)
unfolding mint_failed_after append_record set_state_locked mark_terminal set_state
    validate_transition
mint_failed_after-denied now at x e b h =
    let e' = mark_terminal now (
      set_state_locked State.denied
        (record e { decided_at = at; denial = classify_mint_error x })) in
    (
      e',
      ground (arith, same_refl e.grant_id, get-put same same_iff e.grant_id e.grant_id e' b.grants),
      rw h refl,
    )

approved_state :
    (e : Entry)
    → e.state ≡ State.pending_approval
    → (set_state_locked State.approved e).state ≡ State.approved
unfolding set_state_locked set_state validate_transition
approved_state e h = rw h refl

GrantMint-failed :
    (m : GrantMint)
    → ((x : GrantMintError) × (m ≡ grant_not_minted x)) ⊎ ((k : Minted) × (m ≡ grant_minted k))
GrantMint-failed (grant_not_minted x) = inl (x, refl)
GrantMint-failed (grant_minted k) = inr (k, refl)

minted_not_failed : ¬ (minted ≡ mint_failed)
minted_not_failed h = ground (arith, h)

-- Where the mint fails after a human approved a waiting grant, the grant is denied in memory, yet the
-- view that is rebuilt from the log for its owner, as after a restart, says that it is active.
pub approved_grant-misread :
    (deps : Deps) (now at : ℕ) (g agent : Bytes) (later : ℕ) (b : Broker) (first : LogRecord)
    (rest : List LogRecord)
    → IsWaiting g b
    → grant_chain g b.log ≡ first ∷ rest
    → first.agent_id ≡ agent
    → (approved_grant deps now g at b).0 ≡ mint_failed
    → ((e : Entry) × (get same g (approved_grant deps now g at b).1.grants ≡ some e)
        × (e.state ≡ State.denied))
      × ((v : View) × (reconstruct_view agent g later (approved_grant deps now g at b).1 ≡ some v)
          × (v.status ≡ Status.active))
unfolding approved_grant reconstruct_view set_state_locked
approved_grant-misread deps now at g agent later b first rest w chain own failed =
    let (id, state, log) = entry_for_approval-waiting g b w in
    let (e, b1) = entry_for_approval g b in
    let e1 = set_state_locked State.approved e in
    let ((id2, owner2, state2), log2, grants2) = mint_grant-IsKept deps e1 b1 in
    let (out, (e2, b2)) = mint_grant deps e1 b1 in
    elim (GrantMint-failed out) [
      | inr (m, q) ↦ absurd (minted_not_failed (rw (q, approved_grant) at failed))
      | inl (x, q) ↦
          let (r, log3, id3, unminted) = mint_failed_after-log now at x e2 b2 in
          let after = mint_failed_after now at x e2 b2 in
          let named : e2.grant_id ≡ g = id2 ∙ id in
          let whole : after.log ≡ b.log ++ r ∷ [] = log3 ∙ ap (λ l. l ++ r ∷ []) (log2 ∙ log) in
          let chained : grant_chain g after.log ≡ first ∷ rest ++ r ∷ [] =
            ap (grant_chain g) whole
            ∙ grant_chain-append g b.log r (id3 ∙ named)
            ∙ ap (λ l. l ++ r ∷ []) chain in
          let (d, there, denied) =
            mint_failed_after-denied now at x e2 b2 (state2 ∙ approved_state e state) in
          let (v, read, active) = read_chain-active agent g later after first rest r own unminted in
          (
            (
              d,
              rw (q, approved_grant) (subst (λ k. get same k after.grants ≡ some d) named there),
              denied,
            ),
            (
              v,
              rw (q, approved_grant) (ap (read_chain agent g later after) chained ∙ read),
              active,
            ),
          )
    ]
