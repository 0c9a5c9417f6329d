-- ===== src/Broker/Views/Once.antt =====
-- What a delivery and a refresh leave in an entry.
use taskgrant.Prelude.{
  ℕ, ◌≡◌, refl, ◌∙◌, ◌⊎◌, inl, inr, Bool, false, none, arith, Bool-cases, Option-cases,
}
use taskgrant.Store.Pending.{PendingStatus, get_pending_approval}
use taskgrant.Domain.State.{State, is_state}
use taskgrant.Broker.{Entry, Broker}
use taskgrant.Broker.Entries.{set_state_locked, mark_terminal, append_record}
use taskgrant.Broker.Views.{
  build_view, state_view, view_with_delivery, finalize_expired_pending, expire_lapsed,
  follow_status, refresh_entry,
}

state_view-bare : (ttl : ℕ) (e : Entry) (s : State) → (state_view ttl e s).credentials ≡ none
unfolding state_view
state_view-bare ttl e State.active = refl
state_view-bare ttl e _ = refl

build_view-bare : (ttl : ℕ) (e : Entry) → (build_view ttl e).credentials ≡ none
unfolding build_view
build_view-bare ttl e = ground (arith, state_view-bare ttl e e.state)

-- With redelivery off: what a view leaves in the entry.
abbrev pub Handed : ℕ → Entry → Type 0
Handed ttl e =
    ((view_with_delivery false ttl e).1.delivery ≡ none)
    ⊎ (((view_with_delivery false ttl e).0.credentials ≡ none)
        × ((view_with_delivery false ttl e).1 ≡ e))

pub view_with_delivery-Handed : (ttl : ℕ) (e : Entry) → Handed ttl e
unfolding view_with_delivery
view_with_delivery-Handed ttl e = ground (arith, build_view-bare ttl e)

pub view_with_delivery-spent :
    (ttl : ℕ) (e : Entry)
    → e.delivery ≡ none
    → ((view_with_delivery false ttl e).0.credentials ≡ none)
      × ((view_with_delivery false ttl e).1 ≡ e)
unfolding view_with_delivery
view_with_delivery-spent ttl e h = ground (arith, build_view-bare ttl e)

pub view_with_delivery-id :
    (redelivery : Bool) (ttl : ℕ) (e : Entry)
    → (view_with_delivery redelivery ttl e).1.grant_id ≡ e.grant_id
unfolding view_with_delivery
view_with_delivery-id redelivery ttl e = ground arith

-- What a refresh leaves as it is.
abbrev pub IsRefreshed : Entry → Broker → Entry × Broker → Type 0
IsRefreshed e b (e', b') =
    (e'.grant_id ≡ e.grant_id)
    × (b'.grants ≡ b.grants)
    × (e.delivery ≡ none → e'.delivery ≡ none)
    × (b'.calls ≡ b.calls)

finalize-IsRefreshed :
    (now : ℕ) (e : Entry) (b : Broker) → IsRefreshed e b (finalize_expired_pending now e b)
unfolding finalize_expired_pending set_state_locked mark_terminal append_record
finalize-IsRefreshed now e b = elim (Bool-cases (is_state State.pending_approval e.state)) [
  | inl y ↦ rw (y, finalize_expired_pending) (refl, refl, λ h. h, refl)
  | inr n ↦ rw (n, finalize_expired_pending) (refl, refl, λ h. h, refl)
]

follow_status-IsRefreshed :
    (now : ℕ) (s : PendingStatus) (e : Entry) (b : Broker)
    → IsRefreshed e b (follow_status now s e b)
unfolding follow_status set_state_locked mark_terminal
follow_status-IsRefreshed now PendingStatus.expired_pending e b = finalize-IsRefreshed now e b
follow_status-IsRefreshed now PendingStatus.denied e b = (refl, refl, λ h. h, refl)
follow_status-IsRefreshed now _ e b = (refl, refl, λ h. h, refl)

expire_lapsed-delivery :
    (now : ℕ) (e : Entry)
    → ((expire_lapsed now e).grant_id ≡ e.grant_id)
      × (e.delivery ≡ none → (expire_lapsed now e).delivery ≡ none)
unfolding expire_lapsed set_state_locked mark_terminal
expire_lapsed-delivery now e = ground arith

pub refresh_entry-IsRefreshed :
    (now : ℕ) (e : Entry) (b : Broker) → IsRefreshed e b (refresh_entry now e b)
unfolding refresh_entry
refresh_entry-IsRefreshed now e b =
    let (id, kept) = expire_lapsed-delivery now e in
    elim (Bool-cases (is_state State.pending_approval (expire_lapsed now e).state)) [
      | inr n ↦ rw (n, refresh_entry) (id, refl, kept, refl)
      | inl y ↦
          elim (Option-cases
            (get_pending_approval (expire_lapsed now e).grant_id b.approvals.queue)) [
              | inl q ↦ rw (y, q, refresh_entry) (id, refl, kept, refl)
              | inr (row, q) ↦
                  let (id', same_grants, kept', calls) =
                    follow_status-IsRefreshed now row.status (expire_lapsed now e) b in
                  rw (y, q, refresh_entry) (id' ∙ id, same_grants, λ h. kept' (kept h), calls)
            ]
    ]
