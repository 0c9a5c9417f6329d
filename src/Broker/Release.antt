-- ===== src/Broker/Release.antt =====
-- `ReleaseGrant` of internal/broker/views.go, with `RoleNameFromARN` of internal/revoke/document.go.
-- The note of a release only goes into its record.
pub mod Once
use taskgrant.Prelude.{
  ℕ, Bool, true, false, not, ◌&&◌, ◌||◌, Option, none, some, List, [], ◌∷◌, ◌++◌, ◌==◌, ltb, leb,
  Bytes, codes, same, is_empty, if◌then◌else◌,
}
use taskgrant.Prelude.Maps.{get}
use taskgrant.Domain.Names.{cut_prefix}
use taskgrant.Domain.State.{State}
use taskgrant.Broker.{Deps, Entry, Outcome, RecordKind, LogRecord, Broker}
use taskgrant.Broker.Entries.{
  mark_terminal, put_entry, save, new_entry, body_of, append_record, grant_chain,
}
use taskgrant.Broker.Human.{no_request}

-- What stands behind the first occurrence.
unfoldable pub after_marker : Bytes → Bytes → Option Bytes
after_marker m [] = cut_prefix m []
after_marker m (c ∷ s) =
    let rest = after_marker m s in
    elim (cut_prefix m (c ∷ s)) [ some found ↦ some found | none ↦ rest ]

-- What stands behind the last slash, from the segment so far on.
unfoldable pub last_segment : Bytes → Bytes → Bytes
last_segment seen [] = seen
last_segment seen (c ∷ s) = last_segment (if c == b'/' then [] else seen ++ c ∷ []) s

abbrev pub unless_nil : Bytes → Option Bytes
unless_nil s = if is_empty s then none else some s

abbrev pub is_some : Option Bytes → Bool
is_some none = false
is_some (some s) = true

unfoldable pub role_name_from_arn : Bytes → Option Bytes
role_name_from_arn arn =
    if is_some (cut_prefix (codes "arn:") arn)
    then elim (after_marker (codes ":role/") arn) [
      | none ↦ none
      | some full ↦ unless_nil (last_segment [] full)
    ]
    else none

pub record ReleaseView : Type 0 where
  pub grant_id : Bytes
  pub outcome : Bytes
  pub released_at : ℕ
  pub revocation_written : Bool

abbrev pub release_view : Entry → ReleaseView
release_view e = record {
  grant_id = e.grant_id;
  outcome = e.release_outcome;
  released_at = e.released_at;
  revocation_written = e.revocation_written;
}

-- `expiryFromRecords`, from the expiry so far on.
unfoldable pub expiry_from_records : ℕ → List LogRecord → ℕ
expiry_from_records out [] = out
expiry_from_records out (r ∷ rs) =
    expiry_from_records
      (elim r.body [
        | none ↦ out
        | some body ↦ if body.expiration == 0 then out else body.expiration
      ])
      rs

module _ (deps : Deps) (now : ℕ) where
  abbrev pub role_of : Entry → Option Bytes
  role_of e = elim (get same e.profile deps.config.profiles) [
    | none ↦ role_name_from_arn []
    | some p ↦ role_name_from_arn p.role_arn
  ]

  -- Whether a deny is written for the credentials that still live.
  unfoldable pub revoke_on_release : Entry → Bool
  revoke_on_release e = elim deps.revoker [
    | none ↦ false
    | some revoke_grant ↦
        if deps.config.revoke_on_release && ltb now e.expires_at
        then elim (role_of e) [
          | none ↦ false
          | some role ↦ revoke_grant role e.grant_id e.expires_at
        ]
        else false
  ]

  abbrev pub released_entry : Bytes → Entry → Entry
  released_entry outcome e =
      mark_terminal now (record e { released = true; release_outcome = outcome; released_at = now })

  abbrev pub revoked_entry : Entry → Entry
  revoked_entry e = record e { revocation_written = true }

  unfoldable pub release_entry : Bytes → Entry → Broker → ReleaseView × Broker
  release_entry outcome e b =
      if e.released
      then (release_view e, b)
      else let e1 = released_entry outcome e in
        let b1 =
          append_record RecordKind.release (body_of (Outcome.other (codes "released"))) e1
            (save e1 b) in
        if revoke_on_release e1
        then (
          release_view (revoked_entry e1),
          append_record RecordKind.other (body_of (Outcome.other (codes "revoked"))) e1
              (save (revoked_entry e1) b1),
        )
        else (release_view e1, b1)

  abbrev pub found : ReleaseView × Broker → Option ReleaseView × Broker
  found (v, b) = (some v, b)

  -- The entry after a restart.
  abbrev pub entry_from_log : Bytes → LogRecord → List LogRecord → Entry
  entry_from_log g r rs = record (new_entry g r.agent_id r.profile no_request 0) {
    state = State.expired;
    expires_at = expiry_from_records 0 (r ∷ rs);
  }

  unfoldable pub release_logged :
      Bytes → Bytes → Bytes → List LogRecord → Broker → Option ReleaseView × Broker
  release_logged agent g outcome [] b = (none, b)
  release_logged agent g outcome (r ∷ rs) b =
      let e = entry_from_log g r rs in
      if same r.agent_id agent then found (release_entry outcome e (put_entry e b)) else (none, b)

  -- `none` is the error `ErrNotFound`.
  unfoldable pub release_grant : Bytes → Bytes → Bytes → Broker → Option ReleaseView × Broker
  release_grant agent g outcome b =
      if deps.parse_strict g
      then elim (get same g b.grants) [
        | none ↦ release_logged agent g outcome (grant_chain g b.log) b
        | some e ↦ if same e.agent_id agent then found (release_entry outcome e b) else (none, b)
      ]
      else (none, b)
