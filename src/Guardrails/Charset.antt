-- ===== src/Guardrails/Charset.antt =====
-- `checkSTSCharset` of internal/guardrails/policy.go: the runes of the bytes, as Go's `range` over a
-- string reads them, an invalid byte as U+FFFD.
use taskgrant.Prelude.{
  ℕ, zero, suc, ◌+◌, ◌-◌, ◌*◌, Bool, ◌&&◌, ◌||◌, not, List, [], ◌∷◌, ◌==◌, leb, ltb, Bytes,
  if◌then◌else◌, length,
}
use taskgrant.Guardrails.Policy.{Problem, outside_charset}

abbrev pub rune_error : ℕ
rune_error = 0xfffd

continues : ℕ → Bool
continues b = leb 0x80 b && leb b 0xbf

-- The second byte has a narrower range behind some first bytes.
second_of_three : ℕ → ℕ → Bool
second_of_three a b =
    continues b && (not (a == 0xe0 && ltb b 0xa0) && not (a == 0xed && ltb 0x9f b))

second_of_four : ℕ → ℕ → Bool
second_of_four a b = continues b && (not (a == 0xf0 && ltb b 0x90) && not (a == 0xf4 && ltb 0x8f b))

-- The rune that a text begins with, and the bytes behind it.
unfoldable pub first_rune : ℕ → Bytes → ℕ × Bytes
unfolding continues second_of_three second_of_four
first_rune a (b ∷ c ∷ d ∷ s) =
    if ltb a 0x80
    then (a, b ∷ c ∷ d ∷ s)
    else if leb 0xc2 a && leb a 0xdf && continues b
    then ((a - 0xc0) * 64 + (b - 0x80), c ∷ d ∷ s)
    else if leb 0xe0 a && leb a 0xef && second_of_three a b && continues c
    then ((a - 0xe0) * 4096 + (b - 0x80) * 64 + (c - 0x80), d ∷ s)
    else if leb 0xf0 a && leb a 0xf4 && second_of_four a b && continues c && continues d
    then ((a - 0xf0) * 262144 + (b - 0x80) * 4096 + (c - 0x80) * 64 + (d - 0x80), s)
    else (rune_error, b ∷ c ∷ d ∷ s)
first_rune a (b ∷ c ∷ []) =
    if ltb a 0x80
    then (a, b ∷ c ∷ [])
    else if leb 0xc2 a && leb a 0xdf && continues b
    then ((a - 0xc0) * 64 + (b - 0x80), c ∷ [])
    else if leb 0xe0 a && leb a 0xef && second_of_three a b && continues c
    then ((a - 0xe0) * 4096 + (b - 0x80) * 64 + (c - 0x80), [])
    else (rune_error, b ∷ c ∷ [])
first_rune a (b ∷ []) =
    if ltb a 0x80
    then (a, b ∷ [])
    else if leb 0xc2 a && leb a 0xdf && continues b
    then ((a - 0xc0) * 64 + (b - 0x80), [])
    else (rune_error, b ∷ [])
first_rune a [] = (if ltb a 0x80 then a else rune_error, [])

unfoldable pub in_sts_charset : ℕ → Bool
in_sts_charset r = r == 9 || r == 10 || r == 13 || (leb 0x20 r && leb r 0xff)

-- The loop ends at the first rune outside the charset. The length is fuel enough: each round takes a
-- byte at least.
charset_loop : ℕ → Bytes → List Problem
charset_loop zero s = []
charset_loop (suc f) [] = []
charset_loop (suc f) (a ∷ s) =
    let (r, rest) = first_rune a s in
    let next = charset_loop f rest in if in_sts_charset r then next else outside_charset r ∷ []

unfoldable pub check_sts_charset : Bytes → List Problem
unfolding charset_loop first_rune in_sts_charset
check_sts_charset s = charset_loop (length s) s
