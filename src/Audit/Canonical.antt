-- ===== src/Audit/Canonical.antt =====
-- internal/store/canonical.go: the canonical bytes of a JSON value. `decode` stands for the decoder of
-- encoding/json, with whether more data follows, and `quote` for its encoding of a string; a number is
-- its literal. A Go map is its members in some order.
pub mod Sorted
pub mod Reread
use taskgrant.Prelude.{
  Bool, true, false, Option, none, some, List, [], ◌∷◌, ◌++◌, Bytes, codes, text_le, if◌then◌else◌,
}
use taskgrant.Guardrails.Parse.{Json, Items, Members}

-- A member with its key, as it will be written.
abbrev pub Written : Type 0
Written = Bytes × Bytes

-- `sort.Strings` on the keys, by insertion.
unfoldable pub insert_member : Written → List Written → List Written
insert_member m [] = m ∷ []
insert_member (k, v) ((j, w) ∷ ms) =
    let rest = insert_member (k, v) ms in
    if text_le k j then (k, v) ∷ (j, w) ∷ ms else (j, w) ∷ rest

unfoldable pub sort_members : List Written → List Written
sort_members [] = []
sort_members (m ∷ ms) = insert_member m (sort_members ms)

abbrev comma : Bytes
comma = b',' ∷ []

-- The texts of the loop, a comma before each but the first.
abbrev joined : List Bytes → Bytes
joined [] = []
joined (t ∷ []) = t
joined (t ∷ u ∷ ts) = t ++ (comma ++ joined (u ∷ ts))

abbrev pub write_array : List Bytes → Bytes
write_array ts = b'[' ∷ (joined ts ++ b']' ∷ [])

module _ (quote : Bytes → Bytes) where
  unfoldable pub write_members : List Written → List Bytes
  write_members [] = []
  write_members ((k, v) ∷ ms) = (quote k ++ (b':' ∷ v)) ∷ write_members ms

  -- Sorted members.
  abbrev pub write_sorted : List Written → Bytes
  write_sorted ms = b'{' ∷ (joined (write_members ms) ++ b'}' ∷ [])

  unfoldable mutual
    pub write_canonical : Json → Bytes
    write_canonical Json.null = codes "null"
    write_canonical (Json.bool true) = codes "true"
    write_canonical (Json.bool false) = codes "false"
    write_canonical (Json.num s) = s
    write_canonical (Json.str s) = quote s
    write_canonical (Json.arr items) = write_array (written_items items)
    write_canonical (Json.obj ms) = write_sorted (sort_members (written ms))

    pub written_items : Items → List Bytes
    written_items Items.nil = []
    written_items (Items.item v vs) = write_canonical v ∷ written_items vs

    pub written : Members → List Written
    written Members.end = []
    written (Members.member k v ms) = (k, write_canonical v) ∷ written ms

  -- `none` is an error.
  unfoldable pub canonicalize_json : (Bytes → Option (Json × Bool)) → Bytes → Option Bytes
  canonicalize_json decode raw = elim (decode raw) [
    | none ↦ none
    | some (v, more) ↦ if more then none else some (write_canonical v)
  ]
