-- ===== src/Domain/Sanitize.antt =====
-- `SanitizeForDisplay` and `SanitizeCallerRef` of internal/domain/domain.go. `s[i:]` is a list.
pub mod Display
use taskgrant.Prelude.{
  ℕ, zero, suc, ◌+◌, ◌≤◌, ◌≡◌, refl, Bool, true, false, ◌&&◌, ◌||◌, inl, inr, [], ◌∷◌, ◌==◌, ltb,
  leb, Bytes, all, length, arith, Bool-cases, if◌then◌else◌,
}
use taskgrant.Domain.Names.{is_lower, is_upper, is_digit}

-- The CSI loop: up to and past the first final byte.
unfoldable pub skip_csi : Bytes → Bytes
skip_csi [] = []
skip_csi (c ∷ s) = let rest = skip_csi s in if leb 0x40 c && leb c 0x7e then s else rest

-- The OSC loop: past BEL or ESC '\'.
unfoldable pub skip_osc : Bytes → Bytes
skip_osc [] = []
skip_osc (c ∷ []) = []
skip_osc (c ∷ d ∷ s) =
    let rest = skip_osc (d ∷ s) in
    if c == 0x07 then d ∷ s else if c == 0x1b && d == 0x5c then s else rest

-- What is left behind the escape sequence; the argument is the text behind the ESC.
unfoldable pub skip_escape_sequence : Bytes → Bytes
unfolding skip_csi skip_osc
skip_escape_sequence [] = []
skip_escape_sequence (c ∷ s) = if c == b'[' then skip_csi s else if c == b']' then skip_osc s else s

-- Each round drops a byte, so the length is fuel enough.
unfoldable pub sanitize_loop : ℕ → Bytes → Bytes
sanitize_loop zero s = []
sanitize_loop (suc f) [] = []
sanitize_loop (suc f) (c ∷ s) =
    let escaped = sanitize_loop f (skip_escape_sequence s) in
    let rest = sanitize_loop f s in
    if c == 0x1b
    then escaped
    else if c == 10 || c == 9
    then c ∷ rest
    else if ltb c 0x20 || c == 0x7f
    then rest
    else c ∷ rest

unfoldable pub sanitize_for_display : Bytes → Bytes
sanitize_for_display s = sanitize_loop (length s) s

abbrev pub caller_ref_max_len : ℕ
caller_ref_max_len = 64

-- The charset [A-Za-z0-9 _.:/=+@-]. A byte from 0x80 on is part of a rune that is dropped.
unfoldable pub is_caller_ref_byte : ℕ → Bool
is_caller_ref_byte c =
    is_lower c
    || is_upper c
    || is_digit c
    || c == 32
    || c == b'_'
    || c == b'.'
    || c == b':'
    || c == b'/'
    || c == b'='
    || c == b'+'
    || c == b'@'
    || c == b'-'

-- The loop, with `n` for `b.Len()`.
unfoldable pub caller_ref_loop : ℕ → Bytes → Bytes
caller_ref_loop n [] = []
caller_ref_loop n (c ∷ s) =
    let kept = caller_ref_loop (n + 1) s in
    let dropped = caller_ref_loop n s in
    if leb caller_ref_max_len n then [] else if is_caller_ref_byte c then c ∷ kept else dropped

unfoldable pub sanitize_caller_ref : Bytes → Bytes
sanitize_caller_ref s = caller_ref_loop 0 s

caller_ref_loop_bounds :
    (n : ℕ) (s : Bytes)
    → n ≤ caller_ref_max_len
    → (n + length (caller_ref_loop n s) ≤ caller_ref_max_len)
      × (all is_caller_ref_byte (caller_ref_loop n s) ≡ true)
unfolding caller_ref_loop
caller_ref_loop_bounds n [] h = (omega arith, refl)
caller_ref_loop_bounds n (c ∷ s) h = elim (Bool-cases (leb caller_ref_max_len n)) [
  | inl e ↦ rw (e, caller_ref_loop) (omega arith, refl)
  | inr e ↦ elim (Bool-cases (is_caller_ref_byte c)) [
    | inl k ↦
        let (a, b) = caller_ref_loop_bounds (n + 1) s (ground arith) in
        rw (e, k, caller_ref_loop) (omega arith, ground arith)
    | inr k ↦ rw (e, k, caller_ref_loop) (caller_ref_loop_bounds n s h)
  ]
]

caller_ref_loop-clean :
    (n : ℕ) (s : Bytes)
    → n + length s ≤ caller_ref_max_len
    → all is_caller_ref_byte s ≡ true
    → caller_ref_loop n s ≡ s
unfolding caller_ref_loop
caller_ref_loop-clean n [] h k = refl
caller_ref_loop-clean n (c ∷ s) h k =
    let rest : caller_ref_loop (n + 1) s ≡ s =
      caller_ref_loop-clean (n + 1) s (omega arith) (ground arith) in
    let room : leb caller_ref_max_len n ≡ false = ground arith in
    let here : is_caller_ref_byte c ≡ true = ground arith in
    rw (room, here, caller_ref_loop) (rw rest)

-- The cleaned caller reference has at most 64 bytes, all of them legal in a session tag value, and a
-- legal reference of at most 64 bytes is kept as it is.
pub sanitize_caller_ref_safe :
    (s : Bytes)
    → (length (sanitize_caller_ref s) ≤ caller_ref_max_len)
      × (all is_caller_ref_byte (sanitize_caller_ref s) ≡ true)
      × (length s ≤ caller_ref_max_len
          → all is_caller_ref_byte s ≡ true
          → sanitize_caller_ref s ≡ s)
unfolding sanitize_caller_ref
sanitize_caller_ref_safe s =
    let (a, b) = caller_ref_loop_bounds 0 s (omega arith) in
    (omega arith, b, λ h k. caller_ref_loop-clean 0 s (omega arith) k)
