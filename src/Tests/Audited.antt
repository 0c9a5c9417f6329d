-- ===== src/Tests/Audited.antt =====
-- Runs of the audit chain.
use taskgrant.Prelude.{
  ℕ, ◌≡◌, ◌↔◌, refl, subst, ◌⊎◌, inl, inr, Bool, true, false, Option, none, some, List, [], ◌∷◌,
  Bytes, codes, same, arith, Bool-cases, if◌then◌else◌,
}
use taskgrant.Audit.{
  AuditRecord, Chain, Entry, VerifyResult, intact, zeros, genesis_hash, empty_chain, verify,
}
use taskgrant.Audit.Prune.{AuditOp, append_op, prune_op, PruneBody, run}
use taskgrant.Guardrails.Parse.{Json, Members}
use taskgrant.Audit.Canonical.{write_canonical, canonicalize_json}
use taskgrant.Audit.Canonical.Reread.{Alike, same_object, same_value, swap_members}
use taskgrant.Audit.Canonical.Sorted.{Reordered, write_canonical-Reordered}
use taskgrant.Audit.Walk.{IsChain, verify_iff}
use taskgrant.Audit.Kept.{run_verifies}
use taskgrant.Audit.Binding.{Collision, bodies, genesis_binding}

-- A hash that collides everywhere, and bodies that are canonical as they are.
abbrev constant_hash : Bytes → Bytes
constant_hash x = zeros 64

abbrev as_is : Bytes → Option Bytes
as_is x = some x

abbrev marshal : PruneBody → Bytes
marshal p = codes "{}"

abbrev entry : Bytes → ℕ → Entry
entry id ts = record {
  record_id = id;
  grant_id = codes "gr_1";
  ts = ts;
  kind = codes "approval";
  body = codes "{}";
}

abbrev ops : List AuditOp
ops =
    append_op [] 1 (entry (codes "a") 1)
    ∷ append_op [] 5 (entry (codes "b") 5)
    ∷ prune_op (codes "p") 9 3 true
    ∷ []

abbrev log : Chain
log = run constant_hash as_is marshal ops empty_chain

verify_iff_example :
    ((w : VerifyResult) × (verify constant_hash as_is log ≡ intact w))
    ↔ IsChain constant_hash as_is log.records
verify_iff_example = verify_iff constant_hash as_is log

abbrev row : Bytes → AuditRecord
row body = record {
  seq = 1;
  record_id = codes "a";
  grant_id = codes "gr_1";
  ts = 1;
  kind = codes "approval";
  body = body;
  prev_hash = genesis_hash;
  hash = zeros 64;
}

genesis_binding_example :
    Collision constant_hash as_is
    ⊎ (bodies constant_hash as_is (row (codes "{}") ∷ [])
        ≡ bodies constant_hash as_is (row (codes "[]") ∷ []))
unfolding taskgrant.Audit.chain_hash
genesis_binding_example =
    genesis_binding constant_hash as_is (λ x y. refl) (row (codes "{}") ∷ [])
      (row (codes "[]") ∷ []) refl (refl, (refl, refl), tt) (refl, (refl, refl), tt) refl

abbrev number : Bytes → Json
number s = Json.num s

abbrev members : Members
members =
    Members.member (codes "b") (number (codes "1"))
      (Members.member (codes "a") (number (codes "2")) Members.end)

abbrev members_swapped : Members
members_swapped =
    Members.member (codes "a") (number (codes "2"))
      (Members.member (codes "b") (number (codes "1")) Members.end)

abbrev bare : Bytes → Bytes
bare s = s

written_sorted : write_canonical bare (Json.obj members) ≡ codes "{a:2,b:1}"
unfolding write_canonical taskgrant.Audit.Canonical.write_members
    taskgrant.Audit.Canonical.sort_members taskgrant.Audit.Canonical.insert_member
written_sorted = refl

write_canonical-Reordered_example :
    write_canonical bare (Json.obj members) ≡ write_canonical bare (Json.obj members_swapped)
unfolding write_canonical
write_canonical-Reordered_example =
    write_canonical-Reordered bare members members_swapped
      (Reordered.swap_first (codes "b") (codes "a") (codes "1") (codes "2") [] refl)

-- A decoder of three texts: an object, the same with its members sorted, and an empty one.
abbrev unsorted : Bytes
unsorted = codes "{b:1,a:2}"

abbrev sorted : Bytes
sorted = codes "{a:2,b:1}"

abbrev decode_three : Bytes → Option (Json × Bool)
decode_three raw =
    if same raw unsorted
    then some (Json.obj members, false)
    else if same raw sorted
    then some (Json.obj members_swapped, false)
    else if same raw (codes "{}")
    then some (Json.obj Members.end, false)
    else none

abbrev IsReread : Json → Type 0
IsReread v = (w : Json) × (decode_three (write_canonical bare v) ≡ some (w, false)) × Alike v w

rereads :
    IsReread (Json.obj members)
    × IsReread (Json.obj members_swapped)
    × IsReread (Json.obj Members.end)
unfolding write_canonical taskgrant.Audit.Canonical.write_members
    taskgrant.Audit.Canonical.sort_members taskgrant.Audit.Canonical.insert_member
rereads = (
  (
    Json.obj members_swapped,
    refl,
    same_object (
        swap_members (codes "b") (codes "a") (number (codes "1")) (number (codes "2")) Members.end
          refl),
  ),
  (Json.obj members_swapped, refl, same_value _),
  (Json.obj Members.end, refl, same_value _),
)

decode_three-IsReread : (raw : Bytes) (v : Json) → decode_three raw ≡ some (v, false) → IsReread v
decode_three-IsReread raw v h =
    let (one, two, three) = rereads in
    elim (Bool-cases (same raw unsorted)) [
      | inl t ↦ let own : Json.obj members ≡ v = ground arith in subst IsReread own one
      | inr f ↦ elim (Bool-cases (same raw sorted)) [
        | inl t ↦ let own : Json.obj members_swapped ≡ v = ground arith in subst IsReread own two
        | inr g ↦ elim (Bool-cases (same raw (codes "{}"))) [
          | inl t ↦ let own : Json.obj Members.end ≡ v = ground arith in subst IsReread own three
          | inr n ↦ ground arith
        ]
      ]
    ]

abbrev json_entry : Bytes → ℕ → Entry
json_entry id ts = record (entry id ts) { body = unsorted }

abbrev json_ops : List AuditOp
json_ops =
    append_op [] 1 (json_entry (codes "a") 1)
    ∷ append_op [] 5 (json_entry (codes "b") 5)
    ∷ prune_op (codes "p") 9 3 true
    ∷ []

run_verifies_example :
    (w : VerifyResult) × (verify constant_hash
        (canonicalize_json bare decode_three)
        (run constant_hash (canonicalize_json bare decode_three) marshal json_ops empty_chain)
      ≡ intact w)
run_verifies_example =
    run_verifies constant_hash bare decode_three marshal decode_three-IsReread json_ops
