-- ===== src/Domain/Sanitize/Display.antt =====
-- What `SanitizeForDisplay` lets through.
use taskgrant.Prelude.{
  ℕ, zero, suc, ◌≤◌, ◌≡◌, refl, ap, ◌∙◌, Bool, true, false, ◌&&◌, ◌||◌, not, [], ◌∷◌, ◌++◌, ◌==◌,
  leb, Bytes, all, length, arith,
}
use taskgrant.Domain.Sanitize.{
  skip_csi, skip_osc, skip_escape_sequence, sanitize_loop, sanitize_for_display,
}

-- Newline, tab, or neither a C0 control byte nor DEL. The bytes from 0x80 on count as text.
abbrev pub is_displayable : ℕ → Bool
is_displayable c = c == 10 || c == 9 || (leb 0x20 c && not (c == 0x7f))

skip_csi-le : (s : Bytes) → length (skip_csi s) ≤ length s
unfolding skip_csi
skip_csi-le [] = omega arith
skip_csi-le (c ∷ s) = ground (arith, skip_csi-le s)

skip_osc-le : (s : Bytes) → length (skip_osc s) ≤ length s
unfolding skip_osc
skip_osc-le [] = omega arith
skip_osc-le (c ∷ []) = omega arith
skip_osc-le (c ∷ d ∷ s) = ground (arith, skip_osc-le (d ∷ s))

skip_escape_sequence-le : (s : Bytes) → length (skip_escape_sequence s) ≤ length s
unfolding skip_escape_sequence
skip_escape_sequence-le [] = omega arith
skip_escape_sequence-le (c ∷ s) = ground (arith, skip_csi-le s, skip_osc-le s)

-- More fuel than the length changes nothing.
sanitize_loop-fuel :
    (f g : ℕ) (s : Bytes) → length s ≤ f → length s ≤ g → sanitize_loop f s ≡ sanitize_loop g s
unfolding sanitize_loop
sanitize_loop-fuel zero zero s h k = refl
sanitize_loop-fuel zero (suc g) [] h k = refl
sanitize_loop-fuel zero (suc g) (c ∷ s) h k = absurd (omega arith)
sanitize_loop-fuel (suc f) zero [] h k = refl
sanitize_loop-fuel (suc f) zero (c ∷ s) h k = absurd (omega arith)
sanitize_loop-fuel (suc f) (suc g) [] h k = refl
sanitize_loop-fuel (suc f) (suc g) (c ∷ s) h k =
    let shorter = skip_escape_sequence-le s in
    let escaped =
      sanitize_loop-fuel f g (skip_escape_sequence s) (omega (arith, shorter))
        (omega (arith, shorter)) in
    let rest = sanitize_loop-fuel f g s (omega arith) (omega arith) in ground (arith, escaped, rest)

sanitize_loop-displayable : (f : ℕ) (s : Bytes) → all is_displayable (sanitize_loop f s) ≡ true
unfolding sanitize_loop
sanitize_loop-displayable zero s = refl
sanitize_loop-displayable (suc f) [] = refl
sanitize_loop-displayable (suc f) (c ∷ s) =
    ground
      (arith, sanitize_loop-displayable f (skip_escape_sequence s), sanitize_loop-displayable f s)

sanitize_loop-clean :
    (f : ℕ) (s : Bytes) → length s ≤ f → all is_displayable s ≡ true → sanitize_loop f s ≡ s
unfolding sanitize_loop
sanitize_loop-clean zero [] h k = refl
sanitize_loop-clean zero (c ∷ s) h k = absurd (omega arith)
sanitize_loop-clean (suc f) [] h k = refl
sanitize_loop-clean (suc f) (c ∷ s) h k = ground (arith, sanitize_loop-clean f s)

-- What may stand behind an ESC: a CSI sequence up to its final byte, an OSC sequence up to BEL or
-- ESC '\', or one byte.
abbrev pub is_final : ℕ → Bool
is_final c = leb 0x40 c && leb c 0x7e

abbrev pub is_inside : ℕ → Bool
is_inside c = not (c == 0x07) && not (c == 0x1b)

pub data IsEscape : Bytes → Type 0 where
  csi :
      (params : Bytes) (c : ℕ) {seq : Bytes}
      → all (λ d. not (is_final d)) params ≡ true
      → is_final c ≡ true
      → seq ≡ b'[' ∷ (params ++ c ∷ [])
      → IsEscape seq
  osc_bell :
      (text : Bytes) {seq : Bytes}
      → all is_inside text ≡ true
      → seq ≡ b']' ∷ (text ++ 0x07 ∷ [])
      → IsEscape seq
  osc_string :
      (text : Bytes) {seq : Bytes}
      → all is_inside text ≡ true
      → seq ≡ b']' ∷ (text ++ 0x1b ∷ 0x5c ∷ [])
      → IsEscape seq
  short :
      (c : ℕ) {seq : Bytes}
      → (c == b'[') ≡ false
      → (c == b']') ≡ false
      → seq ≡ c ∷ []
      → IsEscape seq

skip_csi-params :
    (params : Bytes) (c : ℕ) (rest : Bytes)
    → all (λ d. not (is_final d)) params ≡ true
    → is_final c ≡ true
    → skip_csi ((params ++ c ∷ []) ++ rest) ≡ rest
unfolding skip_csi
skip_csi-params [] c rest h k = ground (arith, k)
skip_csi-params (d ∷ params) c rest h k = ground (arith, skip_csi-params params c rest)

skip_osc-bell :
    (text rest : Bytes) → all is_inside text ≡ true → skip_osc ((text ++ 0x07 ∷ []) ++ rest) ≡ rest
unfolding skip_osc
skip_osc-bell [] [] h = refl
skip_osc-bell [] (d ∷ rest) h = refl
skip_osc-bell (c ∷ []) rest h = ground (arith, skip_osc-bell [] rest refl)
skip_osc-bell (c ∷ d ∷ text) rest h = ground (arith, skip_osc-bell (d ∷ text) rest)

skip_osc-string :
    (text rest : Bytes)
    → all is_inside text ≡ true
    → skip_osc ((text ++ 0x1b ∷ 0x5c ∷ []) ++ rest) ≡ rest
unfolding skip_osc
skip_osc-string [] rest h = refl
skip_osc-string (c ∷ []) rest h = ground (arith, skip_osc-string [] rest refl)
skip_osc-string (c ∷ d ∷ text) rest h = ground (arith, skip_osc-string (d ∷ text) rest)

skip_escape_sequence-IsEscape :
    (seq rest : Bytes) → IsEscape seq → skip_escape_sequence (seq ++ rest) ≡ rest
unfolding skip_escape_sequence
skip_escape_sequence-IsEscape seq rest (csi params c h k e) =
    rw (e, skip_escape_sequence) (skip_csi-params params c rest h k)
skip_escape_sequence-IsEscape seq rest (osc_bell text h e) =
    rw (e, skip_escape_sequence) (skip_osc-bell text rest h)
skip_escape_sequence-IsEscape seq rest (osc_string text h e) =
    rw (e, skip_escape_sequence) (skip_osc-string text rest h)
skip_escape_sequence-IsEscape seq rest (short c n m e) = rw e (ground (arith, n, m))

-- A clean text in front is kept, whatever follows.
sanitize_loop-append :
    (pre s : Bytes)
    → all is_displayable pre ≡ true
    → sanitize_loop (length (pre ++ s)) (pre ++ s) ≡ pre ++ sanitize_loop (length s) s
unfolding sanitize_loop
sanitize_loop-append [] s h = refl
sanitize_loop-append (c ∷ pre) s h = ground (arith, sanitize_loop-append pre s)

sanitize_loop-escape :
    (s : Bytes)
    → sanitize_loop (length (0x1b ∷ s)) (0x1b ∷ s)
      ≡ sanitize_loop (length (skip_escape_sequence s)) (skip_escape_sequence s)
unfolding sanitize_loop
sanitize_loop-escape s =
    sanitize_loop-fuel (length s) (length (skip_escape_sequence s)) (skip_escape_sequence s)
      (skip_escape_sequence-le s) (omega arith)

-- Whatever the agent sends, the displayed text holds no ESC, no DEL and no C0 control byte but newline
-- and tab; a text that holds none of them is displayed as it is, and so a second run changes
-- nothing. Behind such a text, an ESC with the sequence that it starts is dropped whole, be it CSI, OSC
-- or of one byte, and the display goes on with what follows it.
pub sanitize_for_display_safe :
    (s : Bytes)
    → (all is_displayable (sanitize_for_display s) ≡ true)
      × (all is_displayable s ≡ true → sanitize_for_display s ≡ s)
      × (sanitize_for_display (sanitize_for_display s) ≡ sanitize_for_display s)
      × ((pre seq : Bytes)
          → all is_displayable pre ≡ true
          → IsEscape seq
          → sanitize_for_display (pre ++ 0x1b ∷ (seq ++ s)) ≡ pre ++ sanitize_for_display s)
unfolding sanitize_for_display
sanitize_for_display_safe s = (
  sanitize_loop-displayable (length s) s,
  sanitize_loop-clean (length s) s (omega arith),
  sanitize_loop-clean (length (sanitize_loop (length s) s)) (sanitize_loop (length s) s)
      (omega arith) (sanitize_loop-displayable (length s) s),
  λ pre seq clean escape.
      sanitize_loop-append pre (0x1b ∷ (seq ++ s)) clean
      ∙ ap (λ t. pre ++ t)
          (sanitize_loop-escape (seq ++ s)
            ∙ ap (λ t. sanitize_loop (length t) t) (skip_escape_sequence-IsEscape seq s escape)),
)
