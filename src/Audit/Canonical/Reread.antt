-- ===== src/Audit/Canonical/Reread.antt =====
-- Canonical bytes that are read and written again.
use taskgrant.Prelude.{
  ◌≡◌, refl, sym, ap, ◌∙◌, inl, inr, Bool, false, Option, some, Bytes, same, ◌∷◌, arith, Bool-cases,
  Option-cases,
}
use taskgrant.Guardrails.Parse.{Json, Items, Members}
use taskgrant.Audit.Canonical.{
  insert_member, sort_members, write_canonical, write_sorted, written_items, written, write_array,
  canonicalize_json,
}
use taskgrant.Audit.Canonical.Sorted.{insert_member_swap}

-- The same value, up to the order in which the members of its objects are read. Members that change
-- places have different keys.
mutual
  pub data Alike : Json → Json → Type 0 where
    same_value : (v : Json) → Alike v v
    same_array : {a b : Items} → AlikeItems a b → Alike (Json.arr a) (Json.arr b)
    same_object : {a b : Members} → AlikeMembers a b → Alike (Json.obj a) (Json.obj b)

  pub data AlikeItems : Items → Items → Type 0 where
    no_items : AlikeItems Items.nil Items.nil
    same_item :
        {v w : Json} {a b : Items}
        → Alike v w
        → AlikeItems a b
        → AlikeItems (Items.item v a) (Items.item w b)

  pub data AlikeMembers : Members → Members → Type 0 where
    no_members : AlikeMembers Members.end Members.end
    same_member :
        (k : Bytes) {v w : Json} {a b : Members}
        → Alike v w
        → AlikeMembers a b
        → AlikeMembers (Members.member k v a) (Members.member k w b)
    swap_members :
        (k j : Bytes) (v w : Json) (ms : Members)
        → same k j ≡ false
        → AlikeMembers
            (Members.member k v (Members.member j w ms))
            (Members.member j w (Members.member k v ms))
    in_turn : {a b c : Members} → AlikeMembers a b → AlikeMembers b c → AlikeMembers a c

module _ (quote : Bytes → Bytes) where
  mutual
    unfolding write_canonical written_items written sort_members

    pub write_canonical-Alike :
        {v w : Json} → Alike v w → write_canonical quote v ≡ write_canonical quote w
    write_canonical-Alike (same_value v) = refl
    write_canonical-Alike (same_array h) = ap write_array (written_items-Alike h)
    write_canonical-Alike (same_object h) = ap (write_sorted quote) (sort_members-Alike h)

    written_items-Alike :
        {a b : Items} → AlikeItems a b → written_items quote a ≡ written_items quote b
    written_items-Alike no_items = refl
    written_items-Alike (same_item {v} {w} {a} {b} h t) =
        ap (λ x. x ∷ written_items quote a) (write_canonical-Alike h)
        ∙ ap (λ xs. write_canonical quote w ∷ xs) (written_items-Alike t)

    sort_members-Alike :
        {a b : Members}
        → AlikeMembers a b
        → sort_members (written quote a) ≡ sort_members (written quote b)
    sort_members-Alike no_members = refl
    sort_members-Alike (same_member k {v} {w} {a} {b} h t) =
        ap (λ x. insert_member (k, x) (sort_members (written quote a))) (write_canonical-Alike h)
        ∙ ap (insert_member (k, write_canonical quote w)) (sort_members-Alike t)
    sort_members-Alike (swap_members k j v w ms n) =
        insert_member_swap k j (write_canonical quote v) (write_canonical quote w)
          (sort_members (written quote ms)) n
    sort_members-Alike (in_turn h t) = sort_members-Alike h ∙ sort_members-Alike t

  -- What is canonical stays as it is when it is canonicalized again, for a decoder that reads the
  -- canonical text of a decoded value as the same value.
  pub canonicalize_json-twice :
      (decode : Bytes → Option (Json × Bool))
      → ((raw : Bytes) (v : Json)
          → decode raw ≡ some (v, false)
          → (w : Json) × (decode (write_canonical quote v) ≡ some (w, false)) × Alike v w)
      → (x y : Bytes) → canonicalize_json quote decode x ≡ some y
      → canonicalize_json quote decode y ≡ some y
  unfolding canonicalize_json
  canonicalize_json-twice decode reads_back x y h = elim (Option-cases (decode x)) [
    | inl q ↦ ground arith
    | inr ((v, more), q) ↦ elim (Bool-cases more) [
      | inl t ↦ ground arith
      | inr f ↦
          let (w, again, alike) = reads_back x v (ground arith) in
          let own : write_canonical quote v ≡ y = ground arith in
          let back : decode y ≡ some (w, false) = rw own at again in
          rw (back, canonicalize_json) (ap some (sym (write_canonical-Alike alike) ∙ own))
    ]
  ]
