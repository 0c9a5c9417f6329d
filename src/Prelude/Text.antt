-- ===== src/Prelude/Text.antt =====
-- Go strings as byte sequences: comparison, search, case folding and trimming. `lower` and
-- `trim_space` act on ASCII bytes, as `strings.ToLower` and `strings.TrimSpace` do on ASCII text.
use Prim.Native.Nat.{ℕ, ◌+◌}
use Prim.Native.Char.{code}
use Prim.Native.String.{String}
use mathlib.Core.Path.{◌≡◌, refl}
use mathlib.Core.Bool.{Bool, true, false, ◌&&◌, ◌||◌}
use mathlib.Core.List.{List, [], ◌∷◌, ◌++◌, map, reverse}
use native.Mathlib.Omega.{arith}
use mathlib.Core.Logic.{◌↔◌, ◌⊎◌, inl, inr}
use taskgrant.Prelude.Tests.{leb, ltb, ◌==◌, ==_iff, Bool-cases, if◌then◌else◌}
use taskgrant.Prelude.Lists.{In, In-append, In-append_left, In-append_right, any}

abbrev pub Bytes : Type 0
Bytes = List ℕ

-- The bytes of an ASCII literal.
abbrev pub codes : String → Bytes
codes String.[] = []
codes (String.◌∷◌ c s) = code c ∷ codes s

-- `==` on strings.
abbrev pub same : Bytes → Bytes → Bool
same [] [] = true
same (a ∷ s) (b ∷ t) = a == b && same s t
same _ _ = false

pub same_refl : (s : Bytes) → same s s ≡ true
same_refl [] = refl
same_refl (a ∷ s) = ground (arith, same_refl s, ==_iff a a)

pub same→eq : (s t : Bytes) → same s t ≡ true → s ≡ t
same→eq [] [] h = refl
same→eq [] (b ∷ t) h = ground arith
same→eq (a ∷ s) [] h = ground arith
same→eq (a ∷ s) (b ∷ t) h = ground (arith, same→eq s t)

pub same_iff : (s t : Bytes) → (same s t ≡ true) ↔ (s ≡ t)
same_iff s t = (same→eq s t, λ e. rw e (same_refl t))

-- A set of strings, kept as the list of its elements.
abbrev pub has : Bytes → List Bytes → Bool
has s xs = any (same s) xs

pub has→In : (s : Bytes) (xs : List Bytes) → has s xs ≡ true → In s xs
has→In s [] h = ground arith
has→In s (x ∷ xs) h = ground (arith, same→eq s x, has→In s xs)

pub In→has : (s : Bytes) (xs : List Bytes) → In s xs → has s xs ≡ true
In→has s [] h = absurd h
In→has s (x ∷ xs) h = ground (arith, same_refl s, In→has s xs)

-- `append` of what a `seen` map does not hold yet.
unfoldable pub add_new : List Bytes → Bytes → List Bytes
add_new out a = if has a out then out else out ++ a ∷ []

-- The inner loop over one list of strings.
unfoldable pub add_all : List Bytes → List Bytes → List Bytes
add_all out [] = out
add_all out (a ∷ more) = add_all (add_new out a) more

In-add_new : (x a : Bytes) (out : List Bytes) → In x (add_new out a) → In x out ⊎ (x ≡ a)
unfolding add_new
In-add_new x a out h = elim (Bool-cases (has a out)) [
  | inl e ↦ inl (rw (e, add_new) at h)
  | inr e ↦ elim (In-append x out (a ∷ []) (rw (e, add_new) at h)) [
    | inl l ↦ inl l
    | inr (inl r) ↦ inr r
    | inr (inr r) ↦ absurd r
  ]
]

add_new-In : (x a : Bytes) (out : List Bytes) → In x out ⊎ (x ≡ a) → In x (add_new out a)
unfolding add_new
add_new-In x a out h = elim (Bool-cases (has a out)) [
  | inl e ↦ rw (e, add_new) (elim h [ inl l ↦ l | inr r ↦ rw r (has→In a out e) ])
  | inr e ↦
      rw (e, add_new)
        (elim h [
          | inl l ↦ In-append_left x out (a ∷ []) l
          | inr r ↦ In-append_right x out (a ∷ []) (inl r)
        ])
]

-- `add_all` adds the strings of the list and no others.
pub In-add_all :
    (x : Bytes) (out more : List Bytes) → In x (add_all out more) → In x out ⊎ In x more
unfolding add_all
In-add_all x out [] h = inl h
In-add_all x out (a ∷ more) h = elim (In-add_all x (add_new out a) more h) [
  | inl l ↦ elim (In-add_new x a out l) [ inl k ↦ inl k | inr e ↦ inr (inl e) ]
  | inr r ↦ inr (inr r)
]

pub add_all-In :
    (x : Bytes) (out more : List Bytes) → In x out ⊎ In x more → In x (add_all out more)
unfolding add_all
add_all-In x out [] (inl h) = h
add_all-In x out [] (inr h) = absurd h
add_all-In x out (a ∷ more) (inl h) =
    add_all-In x (add_new out a) more (inl (add_new-In x a out (inl h)))
add_all-In x out (a ∷ more) (inr (inl e)) =
    add_all-In x (add_new out a) more (inl (add_new-In x a out (inr e)))
add_all-In x out (a ∷ more) (inr (inr h)) = add_all-In x (add_new out a) more (inr h)

unfoldable pub lower_byte : ℕ → ℕ
lower_byte c = if leb b'A' c && leb c b'Z' then c + 32 else c

unfoldable pub lower : Bytes → Bytes
unfolding lower_byte
lower s = map lower_byte s

abbrev pub is_space : ℕ → Bool
is_space c = c == 32 || (leb 9 c && leb c 13)

abbrev pub drop_spaces : Bytes → Bytes
drop_spaces [] = []
drop_spaces (c ∷ s) = elim (is_space c) [ true ↦ drop_spaces s | false ↦ c ∷ s ]

unfoldable pub trim_space : Bytes → Bytes
trim_space s = reverse (drop_spaces (reverse (drop_spaces s)))

-- `strings.ContainsAny(s, "*?")`.
abbrev pub has_wildcard : Bytes → Bool
has_wildcard s = any (λ c. c == b'*' || c == b'?') s

-- `<` of Go strings, negated with the sides changed: the order that `sort.Strings` sorts by.
abbrev pub text_le : Bytes → Bytes → Bool
text_le [] t = true
text_le (a ∷ s) [] = false
text_le (a ∷ s) (b ∷ t) = ltb a b || (a == b && text_le s t)

insert_sorted : Bytes → List Bytes → List Bytes
insert_sorted x [] = x ∷ []
insert_sorted x (y ∷ ys) = if text_le x y then x ∷ y ∷ ys else y ∷ insert_sorted x ys

unfoldable pub sort : List Bytes → List Bytes
unfolding insert_sorted
sort [] = []
sort (x ∷ xs) = insert_sorted x (sort xs)

In-insert_sorted : (a x : Bytes) (ys : List Bytes) → In a (insert_sorted x ys) → In a (x ∷ ys)
unfolding insert_sorted
In-insert_sorted a x [] h = h
In-insert_sorted a x (y ∷ ys) h = ground (arith, In-insert_sorted a x ys)

insert_sorted-In : (a x : Bytes) (ys : List Bytes) → In a (x ∷ ys) → In a (insert_sorted x ys)
unfolding insert_sorted
insert_sorted-In a x [] h = h
insert_sorted-In a x (y ∷ ys) h = ground (arith, insert_sorted-In a x ys)

-- Sorting keeps the elements.
pub In-sort : (a : Bytes) (xs : List Bytes) → In a (sort xs) → In a xs
unfolding sort
In-sort a [] h = h
In-sort a (x ∷ xs) h = ground (arith, In-insert_sorted a x (sort xs), In-sort a xs)

pub sort-In : (a : Bytes) (xs : List Bytes) → In a xs → In a (sort xs)
unfolding sort
sort-In a [] h = h
sort-In a (x ∷ xs) h = ground (arith, insert_sorted-In a x (sort xs), sort-In a xs)
