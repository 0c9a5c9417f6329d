-- ===== src/Audit/Canonical/Sorted.antt =====
-- The order of the members does not matter.
use taskgrant.Prelude.{
  ◌≡◌, refl, ap, ◌∙◌, inl, inr, true, false, List, [], ◌∷◌, Bytes, same, text_le, arith, Bool-cases,
}
use taskgrant.Guardrails.Parse.{Json, Members}
use taskgrant.Audit.Canonical.{
  Written, insert_member, sort_members, write_canonical, written, write_sorted,
}

text_le_total : (s t : Bytes) → text_le s t ≡ false → text_le t s ≡ true
text_le_total [] t h = ground arith
text_le_total (a ∷ s) [] h = refl
text_le_total (a ∷ s) (b ∷ t) h = ground (arith, text_le_total s t)

text_le_antisym : (s t : Bytes) → text_le s t ≡ true → text_le t s ≡ true → same s t ≡ true
text_le_antisym [] [] h k = refl
text_le_antisym [] (b ∷ t) h k = ground arith
text_le_antisym (a ∷ s) [] h k = ground arith
text_le_antisym (a ∷ s) (b ∷ t) h k = ground (arith, text_le_antisym s t)

text_le_trans : (s t u : Bytes) → text_le s t ≡ true → text_le t u ≡ true → text_le s u ≡ true
text_le_trans [] t u h k = refl
text_le_trans (a ∷ s) [] u h k = ground arith
text_le_trans (a ∷ s) (b ∷ t) [] h k = ground arith
text_le_trans (a ∷ s) (b ∷ t) (c ∷ u) h k = ground (arith, text_le_trans s t u)

-- Inserting two members with different keys in either order.
pub insert_member_swap :
    (k j : Bytes) (v w : Bytes) (ms : List Written)
    → same k j ≡ false
    → insert_member (k, v) (insert_member (j, w) ms)
      ≡ insert_member (j, w) (insert_member (k, v) ms)
unfolding insert_member
insert_member_swap k j v w [] n = ground (arith, text_le_total k j, text_le_antisym k j)
insert_member_swap k j v w ((i, u) ∷ ms) n = elim (Bool-cases (text_le k i)) [
  | inl a ↦ elim (Bool-cases (text_le j i)) [
    | inl b ↦ ground (arith, a, b, n, text_le_total k j, text_le_antisym k j)
    | inr b ↦ ground (arith, a, b, text_le_trans j k i)
  ]
  | inr a ↦ elim (Bool-cases (text_le j i)) [
    | inl b ↦ ground (arith, a, b, text_le_trans k j i)
    | inr b ↦ ground (arith, a, b, insert_member_swap k j v w ms n)
  ]
]

-- Two objects with the same members in another order, step by step: what a Go map of them may be read
-- as. Members that change places have different keys.
pub data Reordered : List Written → List Written → Type 0 where
  same_order : (ms : List Written) → Reordered ms ms
  keep_first : (m : Written) {ms ns : List Written} → Reordered ms ns → Reordered (m ∷ ms) (m ∷ ns)
  swap_first :
      (k j : Bytes) (v w : Bytes) (ms : List Written)
      → same k j ≡ false
      → Reordered ((k, v) ∷ (j, w) ∷ ms) ((j, w) ∷ (k, v) ∷ ms)
  in_turn : {ms ns os : List Written} → Reordered ms ns → Reordered ns os → Reordered ms os

sort_members-Reordered :
    {ms ns : List Written} → Reordered ms ns → sort_members ms ≡ sort_members ns
unfolding sort_members
sort_members-Reordered (same_order ms) = refl
sort_members-Reordered (keep_first m r) = ap (insert_member m) (sort_members-Reordered r)
sort_members-Reordered (swap_first k j v w ms n) = insert_member_swap k j v w (sort_members ms) n
sort_members-Reordered (in_turn r s) = sort_members-Reordered r ∙ sort_members-Reordered s

-- Objects whose members, as they are written, are the same up to their order have the same canonical
-- bytes, so that these do not depend on the order in which a map is read.
pub write_canonical-Reordered :
    (quote : Bytes → Bytes) (ms ns : Members)
    → Reordered (written quote ms) (written quote ns)
    → write_canonical quote (Json.obj ms) ≡ write_canonical quote (Json.obj ns)
unfolding write_canonical
write_canonical-Reordered quote ms ns r = ap (write_sorted quote) (sort_members-Reordered r)
