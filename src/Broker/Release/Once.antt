-- ===== src/Broker/Release/Once.antt =====
-- A grant is released once.
use taskgrant.Prelude.{
  ℕ, ◌≡◌, refl, ap, sym, ◌∙◌, ◌⊎◌, inl, inr, true, Option, none, some, List, [], ◌∷◌, Bytes, same,
  same_refl, same_iff, subst, arith, Bool-cases, Option-cases,
}
use taskgrant.Prelude.Maps.{get, put, get-put}
use taskgrant.Broker.{Deps, Entry, Broker, LogRecord}
use taskgrant.Broker.Entries.{mark_terminal, put_entry, new_entry, append_record, grant_chain}
use taskgrant.Broker.Release.{
  ReleaseView, release_view, released_entry, revoked_entry, revoke_on_release, release_entry,
  release_logged, release_grant, found, entry_from_log,
}

get-put_own :
    (g : Bytes) (e : Entry) (m : List (Bytes × Entry)) → get same g (put same g e m) ≡ some e
get-put_own g e m = ground (arith, same_refl g, get-put same same_iff g g e m)

there :
    (g h : Bytes) (e : Entry) (m : List (Bytes × Entry))
    → h ≡ g
    → get same g (put same h e m) ≡ some e
there g h e m q = subst (λ k. get same k (put same h e m) ≡ some e) q (get-put_own h e m)

-- The grant is in memory, released, and reads as `v`.
abbrev IsReleased : Bytes → Bytes → ReleaseView → Broker → Type 0
IsReleased g agent v b =
    (e : Entry) × (get same g b.grants ≡ some e)
    × (same e.agent_id agent ≡ true)
    × (e.released ≡ true)
    × (release_view e ≡ v)

release_entry-IsReleased :
    (deps : Deps) (now : ℕ) (g agent outcome : Bytes) (e : Entry) (b : Broker)
    → get same g b.grants ≡ some e
    → e.grant_id ≡ g
    → same e.agent_id agent ≡ true
    → IsReleased g agent
        (release_entry deps now outcome e b).0
        (release_entry deps now outcome e b).1
unfolding release_entry append_record mark_terminal
release_entry-IsReleased deps now g agent outcome e b q named own = elim (Bool-cases e.released) [
  | inl y ↦ rw (y, release_entry) (e, q, own, y, refl)
  | inr n ↦
      let e1 = released_entry deps now outcome e in
      elim (Bool-cases (revoke_on_release deps now e1)) [
        | inl w ↦
            let e2 = revoked_entry deps now e1 in
            let m = put same e.grant_id e1 b.grants in
            rw (n, w, release_entry) (e2, there g e.grant_id e2 m named, own, refl, refl)
        | inr w ↦
            rw (n, w, release_entry) (e1, there g e.grant_id e1 b.grants named, own, refl, refl)
      ]
]

List-cases :
    (rs : List LogRecord)
    → (rs ≡ []) ⊎ ((r : LogRecord) × (rest : List LogRecord) × (rs ≡ r ∷ rest))
List-cases [] = inl refl
List-cases (r ∷ rs) = inr (r, rs, refl)

module _ (deps : Deps) (agent g : Bytes) where
  -- A call that fails, or that releases the entry `e` of the broker `b0`.
  abbrev IsFound : ℕ → Bytes → Option ReleaseView × Broker → Type 0
  IsFound now outcome r =
      (r.0 ≡ none)
      ⊎ ((e : Entry) × (b0 : Broker) × (deps.parse_strict g ≡ true)
          × (get same g b0.grants ≡ some e)
          × (e.grant_id ≡ g)
          × (same e.agent_id agent ≡ true)
          × (r ≡ found deps now (release_entry deps now outcome e b0)))

  release_grant-IsFound :
      (now : ℕ) (outcome : Bytes) (b : Broker)
      → ((e : Entry) → get same g b.grants ≡ some e → e.grant_id ≡ g)
      → IsFound now outcome (release_grant deps now agent g outcome b)
  unfolding release_grant release_logged put_entry new_entry
  release_grant-IsFound now outcome b keyed = elim (Bool-cases (deps.parse_strict g)) [
    | inr n ↦ inl (rw (n, release_grant) refl)
    | inl p ↦ elim (Option-cases (get same g b.grants)) [
      | inr (e, q) ↦ elim (Bool-cases (same e.agent_id agent)) [
        | inr n ↦ inl (rw (p, q, n, release_grant) refl)
        | inl own ↦ inr (e, b, p, q, keyed e q, own, rw (p, q, own, release_grant) refl)
      ]
      | inl q ↦ elim (List-cases (grant_chain g b.log)) [
        | inl z ↦ inl (rw (p, q, z, release_grant, release_logged) refl)
        | inr (r, rs, z) ↦ elim (Bool-cases (same r.agent_id agent)) [
          | inr n ↦ inl (rw (p, q, z, n, release_grant, release_logged) refl)
          | inl own ↦
              let e = entry_from_log deps now g r rs in
              inr (
                e,
                put_entry e b,
                p,
                get-put_own g e _,
                refl,
                own,
                rw (p, q, z, own, release_grant, release_logged) refl,
              )
        ]
      ]
    ]
  ]

  again :
      (later : ℕ) (other : Bytes) (v : ReleaseView) (b : Broker)
      → deps.parse_strict g ≡ true
      → IsReleased g agent v b
      → release_grant deps later agent g other b ≡ (some v, b)
  unfolding release_grant release_entry
  again later other v b p (e, q, own, done, same_view) =
      rw (p, q, own, done, release_grant, release_entry) (ap (λ x. (some x, b)) same_view)

  -- Once a grant is released, a later release by its agent, with any outcome and at any time, gives the
  -- view of the first one and changes nothing, where the live grant stands under its own id.
  pub release_grant_once :
      (now later : ℕ) (outcome other : Bytes) (b : Broker) (v : ReleaseView)
      → ((e : Entry) → get same g b.grants ≡ some e → e.grant_id ≡ g)
      → (release_grant deps now agent g outcome b).0 ≡ some v
      → release_grant deps later agent g other (release_grant deps now agent g outcome b).1
        ≡ (some v, (release_grant deps now agent g outcome b).1)
  release_grant_once now later outcome other b v keyed h =
      elim (release_grant-IsFound now outcome b keyed) [
        | inl none_found ↦ ground (arith, none_found, h)
        | inr (e, b0, p, q, named, own, eq) ↦
            let r = release_entry deps now outcome e b0 in
            let viewed : some (r.0) ≡ some v =
              sym (ap (λ (x : Option ReleaseView × Broker). x.0) eq) ∙ h in
            let left : r.1 ≡ (release_grant deps now agent g outcome b).1 =
              sym (ap (λ (x : Option ReleaseView × Broker). x.1) eq) in
            let same_view : r.0 ≡ v = ground (arith, viewed) in
            again later other v (release_grant deps now agent g outcome b).1 p (
              subst (IsReleased g agent v) left (
                subst (λ x. IsReleased g agent x r.1) same_view
                  (release_entry-IsReleased deps now g agent outcome e b0 q named own)))
      ]
