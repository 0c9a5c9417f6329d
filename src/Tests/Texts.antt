-- ===== src/Tests/Texts.antt =====
-- Globs, ARN patterns and cleaned texts.
use taskgrant.Prelude.{
  arith, ◌==◌, ◌≡◌, ◌≤◌, ◌↔◌, refl, Bool, true, false, [], ◌∷◌, ◌++◌, Bytes, codes, length, all,
}
use taskgrant.Glob.{catalog_match, guardrails_match, is_star}
use taskgrant.Glob.Relation.{Matches, literal, literal_or_any}
use taskgrant.Glob.Decide.{
  StarFree, catalog_match_iff, guardrails_match_sound, guardrails_match_complete,
  guardrails_match_leading_star,
}
use taskgrant.Glob.Cover.{glob_covers, glob_covers_sound}
use taskgrant.Glob.Arn.{
  arn_covers, arn_matches, arn_pattern_match, arn_pattern_match_sound, arn_covers_sound, split_n,
  FieldsMatch,
}
use taskgrant.Domain.Names.{
  role_session_name, role_session_name_bounds, is_session_byte, max_role_session_name_chars,
}
use taskgrant.Domain.Sanitize.{sanitize_for_display}
use taskgrant.Domain.Sanitize.Display.{csi, sanitize_for_display_safe}

catalog_match_iff_example :
    (catalog_match (codes "a*") (codes "a*b") ≡ true) ↔ Matches literal (codes "a*") (codes "a*b")
catalog_match_iff_example = catalog_match_iff (codes "a*") (codes "a*b")

accepted : guardrails_match (codes "a*c") (codes "abc") ≡ true
unfolding guardrails_match
accepted = refl

guardrails_match_sound_example : Matches literal_or_any (codes "a*c") (codes "abc")
guardrails_match_sound_example = guardrails_match_sound (codes "a*c") (codes "abc") accepted

star_free : StarFree (codes "abc")
star_free = refl

guardrails_match_complete_example : guardrails_match (codes "a*c") (codes "abc") ≡ true
guardrails_match_complete_example =
    guardrails_match_complete (codes "a*c") (codes "abc") star_free guardrails_match_sound_example

guardrails_match_leading_star_example :
    (guardrails_match (codes "*") (codes "*x") ≡ false)
    × Matches literal_or_any (codes "*") (codes "*x")
guardrails_match_leading_star_example = guardrails_match_leading_star b'x' []

covered : glob_covers (codes "a*") (codes "ab*") ≡ true
unfolding glob_covers
covered = refl

matched : catalog_match (codes "ab*") (codes "abc") ≡ true
unfolding catalog_match
matched = refl

within : Matches literal (codes "ab*") (codes "abc")
within = (catalog_match_iff (codes "ab*") (codes "abc")).0 matched

glob_covers_sound_example : Matches literal (codes "a*") (codes "abc")
glob_covers_sound_example =
    glob_covers_sound (codes "a*") (codes "ab*") covered (codes "abc") within

allowed_arn : arn_pattern_match (codes "arn:aws:s3:::b/*") (codes "arn:aws:s3:::b/k") ≡ true
unfolding arn_pattern_match guardrails_match
allowed_arn = refl

arn_pattern_match_sound_example :
    (length (split_n 5 (codes "arn:aws:s3:::b/*")) ≡ 6)
    × FieldsMatch literal_or_any
        (split_n 5 (codes "arn:aws:s3:::b/*"))
        (split_n 5 (codes "arn:aws:s3:::b/k"))
arn_pattern_match_sound_example =
    arn_pattern_match_sound (codes "arn:aws:s3:::b/*") (codes "arn:aws:s3:::b/k") allowed_arn

arn_covered : arn_covers (codes "arn:aws:s3:::b/*") (codes "arn:aws:s3:::b/k*") ≡ true
unfolding arn_covers taskgrant.Glob.Arn.split_arn_pattern glob_covers
arn_covered = refl

arn_within : arn_matches (codes "arn:aws:s3:::b/k*") (codes "arn:aws:s3:::b/k1") ≡ true
unfolding arn_matches taskgrant.Glob.Arn.split_arn_pattern catalog_match
arn_within = refl

arn_covers_sound_example : arn_matches (codes "arn:aws:s3:::b/*") (codes "arn:aws:s3:::b/k1") ≡ true
arn_covers_sound_example =
    arn_covers_sound (codes "arn:aws:s3:::b/*") (codes "arn:aws:s3:::b/k*")
      (codes "arn:aws:s3:::b/k1") arn_covered arn_within

-- A parser that takes the ids of 26 bytes.
abbrev strict : Bytes → Bool
strict g = length g == 26

role_session_name_bounds_example :
    (length (role_session_name (codes "my bot") (codes "gr_1")) ≤ max_role_session_name_chars)
    × (all is_session_byte (role_session_name (codes "my bot") (codes "gr_1")) ≡ true)
role_session_name_bounds_example =
    role_session_name_bounds (codes "my bot") (codes "gr_1") (omega arith) refl

sanitize_for_display_safe_example :
    sanitize_for_display (codes "a" ++ 0x1b ∷ (codes "[31m" ++ codes "red"))
    ≡ codes "a" ++ sanitize_for_display (codes "red")
sanitize_for_display_safe_example =
    (sanitize_for_display_safe (codes "red")).3 (codes "a") (codes "[31m") refl
      (csi (codes "31") b'm' refl refl refl)
