-- ===== src/Broker/Views/Polls.antt =====
-- How often the credentials of a grant are handed out by `GetGrant`.
use taskgrant.Prelude.{
  ℕ, ◌+◌, ◌≤◌, ◌≡◌, refl, sym, ◌∙◌, ap, ◌⊎◌, inl, inr, true, false, Option, none, some, List, [],
  ◌∷◌, Bytes, same, same→eq, same_iff, arith, Bool-cases, Option-cases, if◌then◌else◌,
}
use taskgrant.Prelude.Maps.{get, put, get-put}
use taskgrant.Broker.{Deps, Entry, Broker, View}
use taskgrant.Broker.Entries.{grant_chain}
use taskgrant.Broker.Views.{view_with_delivery, refresh_entry}
use taskgrant.Broker.Views.Once.{
  view_with_delivery-Handed, view_with_delivery-spent, view_with_delivery-id,
  refresh_entry-IsRefreshed,
}
use taskgrant.Broker.Views.Logged.{get_grant, reconstruct_view}
use taskgrant.Broker.Views.Unhanded.{is_handed, is_handed-bare, read_chain-unhanded}

-- A poll of a grant by an agent.
pub record Poll : Type 0 where
  pub agent : Bytes
  pub grant_id : Bytes
  pub at : ℕ

abbrev pub IsKeyed : Broker → Type 0
IsKeyed b = (g : Bytes) (e : Entry) → get same g b.grants ≡ some e → e.grant_id ≡ g

-- How many of the polls bring the credentials of a grant.
unfoldable pub handed_out : Deps → Bytes → List Poll → Broker → ℕ
handed_out deps g [] b = 0
handed_out deps g (p ∷ ps) b =
    let (v, b') = get_grant deps p.agent p.grant_id p.at b in
    let rest = handed_out deps g ps b' in if same p.grant_id g then is_handed v + rest else rest

-- Nothing is left to hand out.
abbrev IsSpent : Bytes → Broker → Type 0
IsSpent g b = (e : Entry) → get same g b.grants ≡ some e → e.delivery ≡ none

abbrev IsStep : Bytes → Broker → Option View × Broker → Type 0
IsStep g b (v, b') =
    ((is_handed v ≡ 0) × (b' ≡ b))
    ⊎ ((e : Entry) × (e' : Entry) × (get same g b.grants ≡ some e)
        × (e'.grant_id ≡ g)
        × (b'.grants ≡ put same g e' b.grants)
        × (is_handed v ≤ 1)
        × ((is_handed v ≡ 0) ⊎ (e'.delivery ≡ none))
        × (e.delivery ≡ none → (is_handed v ≡ 0) × (e'.delivery ≡ none)))

is_handed_le : (v : Option View) → is_handed v ≤ 1
is_handed_le none = omega arith
is_handed_le (some v) = ground arith

module _ (deps : Deps) (once : deps.config.credential_redelivery ≡ false) where
  get_grant-IsStep :
      (agent g : Bytes) (now : ℕ) (b : Broker)
      → IsKeyed b
      → IsStep g b (get_grant deps agent g now b)
  unfolding get_grant reconstruct_view
  get_grant-IsStep agent g now b keyed = elim (Bool-cases (deps.parse_strict g)) [
    | inr n ↦ inl (rw (n, get_grant) refl, rw (n, get_grant) refl)
    | inl y ↦ elim (Option-cases (get same g b.grants)) [
      | inl q ↦ inl (
        rw (y, q, get_grant) (read_chain-unhanded agent g now b (grant_chain g b.log)),
        rw (y, q, get_grant) refl,
      )
      | inr (e, q) ↦ elim (Bool-cases (same e.agent_id agent)) [
        | inr n ↦ inl (rw (y, q, n, get_grant) refl, rw (y, q, n, get_grant) refl)
        | inl own ↦
            let (e1, b1) = refresh_entry now e b in
            let (id, grants, kept, calls) = refresh_entry-IsRefreshed now e b in
            let ttl = b.approvals.ttl in
            let named = view_with_delivery-id false ttl e1 ∙ id ∙ keyed g e q in
            inr (
              e,
              (view_with_delivery false ttl e1).1,
              q,
              named,
              rw (y, q, own, once, get_grant, grants, named) refl,
              is_handed_le (get_grant deps agent g now b).0,
              elim (view_with_delivery-Handed ttl e1) [
                | inl d ↦ inr d
                | inr (bare, kept_e) ↦ inl (
                    rw (y, q, own, once, get_grant)
                      (is_handed-bare (view_with_delivery false ttl e1).0 bare))
              ],
              λ h.
                  let (bare, kept_e) = view_with_delivery-spent ttl e1 (kept h) in
                  (
                    rw (y, q, own, once, get_grant)
                        (is_handed-bare (view_with_delivery false ttl e1).0 bare),
                    ap (λ (x : Entry). x.delivery) kept_e ∙ kept h,
                  ),
            )
      ]
    ]
  ]

get-put-some :
    (h g : Bytes) (e' x : Entry) (m : List (Bytes × Entry))
    → get same g (put same h e' m) ≡ some x
    → ((h ≡ g) × (e' ≡ x)) ⊎ (get same g m ≡ some x)
get-put-some h g e' x m q = elim (Bool-cases (same h g)) [
  | inl y ↦ inl (same→eq h g y, ground (arith, y, get-put same same_iff h g e' m))
  | inr n ↦ inr (ground (arith, n, get-put same same_iff h g e' m))
]

IsStep-IsKeyed :
    (h : Bytes) (b : Broker) (r : Option View × Broker) → IsKeyed b → IsStep h b r → IsKeyed r.1
IsStep-IsKeyed h b r keyed (inl (z, e)) = rw e keyed
IsStep-IsKeyed h b r keyed (inr (e, e', q, named, grants, le, first, later)) = λ g x i.
    elim (get-put-some h g e' x b.grants (rw grants at i)) [
      | inl (hg, own) ↦ ap (λ (x : Entry). x.grant_id) (sym own) ∙ named ∙ hg
      | inr old ↦ keyed g x old
    ]

IsStep-IsSpent :
    (h g : Bytes) (b : Broker) (r : Option View × Broker)
    → IsStep h b r
    → IsSpent g b
    → IsSpent g r.1 × (same h g ≡ true → is_handed r.0 ≡ 0)
IsStep-IsSpent h g b r (inl (z, e)) spent = (rw e spent, λ y. z)
IsStep-IsSpent h g b r (inr (e, e', q, named, grants, le, first, later)) spent = (
  λ x i. elim (get-put-some h g e' x b.grants (rw grants at i)) [
    | inl (hg, own) ↦ rw (sym own) ((later (spent e (rw (sym hg) q))).1)
    | inr old ↦ spent x old
  ],
  λ y. (later (spent e (rw (sym (same→eq h g y)) q))).0,
)

-- After a poll that handed out the credentials, they are spent.
IsStep-first :
    (h g : Bytes) (b : Broker) (r : Option View × Broker)
    → IsStep h b r
    → same h g ≡ true
    → (is_handed r.0 ≡ 0) ⊎ ((is_handed r.0 ≤ 1) × IsSpent g r.1)
IsStep-first h g b r (inl (z, e)) y = inl z
IsStep-first h g b r (inr (e, e', q, named, grants, le, inl z, later)) y = inl z
IsStep-first h g b r (inr (e, e', q, named, grants, le, inr d, later)) y = inr (
  le,
  λ x i. elim (get-put-some h g e' x b.grants (rw grants at i)) [
    | inl (hg, own) ↦ rw (sym own) d
    | inr old ↦
        let now_there : get same g (put same h e' b.grants) ≡ some e' =
          ground (arith, y, get-put same same_iff h g e' b.grants) in
        ground (arith, d, now_there, rw grants at i)
  ],
)

module _ (deps : Deps) (once : deps.config.credential_redelivery ≡ false) (g : Bytes) where
  handed_out-spent :
      (ps : List Poll) (b : Broker) → IsKeyed b → IsSpent g b → handed_out deps g ps b ≡ 0
  unfolding handed_out
  handed_out-spent [] b keyed spent = refl
  handed_out-spent (p ∷ ps) b keyed spent =
      let r = get_grant deps p.agent p.grant_id p.at b in
      let step = get_grant-IsStep deps once p.agent p.grant_id p.at b keyed in
      let (left, none_now) = IsStep-IsSpent p.grant_id g b r step spent in
      let rest = handed_out-spent ps r.1 (IsStep-IsKeyed p.grant_id b r keyed step) left in
      ground (arith, rest, none_now)

  -- With redelivery off, whatever agents poll whatever grants at whatever times, the credentials of a
  -- grant are handed out once at most, where each live grant stands under its own id.
  pub handed_out_once : (ps : List Poll) (b : Broker) → IsKeyed b → handed_out deps g ps b ≤ 1
  unfolding handed_out
  handed_out_once [] b keyed = omega arith
  handed_out_once (p ∷ ps) b keyed =
      let r = get_grant deps p.agent p.grant_id p.at b in
      let step = get_grant-IsStep deps once p.agent p.grant_id p.at b keyed in
      let keyed' = IsStep-IsKeyed p.grant_id b r keyed step in
      let rest = handed_out_once ps r.1 keyed' in
      elim (Bool-cases (same p.grant_id g)) [
        | inr n ↦ ground (arith, rest, n)
        | inl y ↦ elim (IsStep-first p.grant_id g b r step y) [
          | inl z ↦ ground (arith, rest, y, z)
          | inr (le, spent) ↦
              let zero_left = handed_out-spent ps r.1 keyed' spent in
              ground (arith, zero_left, y, le)
        ]
      ]
