-- ===== src/Installer/Release.antt =====
-- The evidence of a release and the gates before a flash, in firmware_installer.py:
-- `_parse_release_evidence`, `require_release_readiness` and `select_board`.
pub mod Gate
use coinbase_amoled_terminal.Prelude.{
  ℕ, Bool, true, false, not, ◌&&◌, ◌||◌, Option, none, some, List, [], ◌∷◌, map, ◌==◌, contains,
  ltb, if◌then◌else◌, length, all, Result, ok, err, ◌>>=◌, ◌>>◌, raise_if, list_eq, nat_eq,
  option_eq,
}
use coinbase_amoled_terminal.Prelude.Text.{Text, codes, strip, to_lower}
use coinbase_amoled_terminal.Prelude.Dict.{Dict, lookup, keys}
use coinbase_amoled_terminal.Prelude.Json.{
  Json, boolean, text, object, Fields, end, field, field_names, has_exactly,
}
use coinbase_amoled_terminal.Installer.Manifest.{
  InstallError, key_error, evidence_invalid, evidence_flags, contradictory, hardware_evidence,
  blocker_invalid, inconsistent, blocker_declared, blocker_missing, unknown_board, not_ready,
  missing_boards, ambiguous_board, still_ambiguous, item, fields_of,
}
use coinbase_amoled_terminal.Installer.Variant.{VariantManifest}

-- `ReleaseEvidence`
pub record ReleaseEvidence : Type 0 where
  pub production_ready : Bool
  pub controls_verified : Bool
  pub client_signature_verified : Bool
  pub hardware_attested : Dict Text Bool
  pub trust_blocker : Text

-- The fields of `FirmwareManifest` that the gates read.
pub record FirmwareManifest : Type 0 where
  pub evidence : ReleaseEvidence
  pub variants : Dict Text VariantManifest
  pub signature_verified : Bool

abbrev pub v1 : Text
v1 = codes "v1"

abbrev pub v2 : Text
v2 = codes "v2"

abbrev evidence_names : List Text
evidence_names =
    codes "production_ready"
    ∷ codes "controls_verified"
    ∷ codes "client_signature_verified"
    ∷ codes "hardware_attested"
    ∷ codes "trust_blocker"
    ∷ []

-- `a == b` on Booleans
abbrev same : Bool → Bool → Bool
same true b = b
same false b = not b

abbrev flag_of : Json → Result InstallError Bool
flag_of (boolean b) = ok b
flag_of _ = err evidence_flags

-- The attested boards, if every value is a Boolean.
unfoldable pub attested_flags : Fields → Result InstallError (Dict Text Bool)
attested_flags end = ok []
attested_flags (field k (boolean b) d) = do rest ← attested_flags d; ok ((k, b) ∷ rest)
attested_flags (field k v d) = err hardware_evidence

-- `all(attested.values())`
unfoldable pub all_flags : Dict Text Bool → Bool
all_flags [] = true
all_flags ((_, b) ∷ d) = b && all_flags d

abbrev blocker_of : Json → Result InstallError Text
blocker_of (text s) = if ltb 500 (length s) then err blocker_invalid else ok s
blocker_of _ = err blocker_invalid

-- The consistency checks of `_parse_release_evidence`, on the typed values.
unfoldable pub check_evidence :
    Bool → Bool → Bool → Dict Text Bool → Text → Result InstallError ReleaseEvidence
unfolding all_flags
check_evidence ready controls signature attested blocker = do
  raise_if (not (same ready (controls && (signature && all_flags attested)))) inconsistent
  raise_if (ready && not (blocker == [])) blocker_declared
  raise_if (not ready && blocker == []) blocker_missing
  ok (record {
    production_ready = ready;
    controls_verified = controls;
    client_signature_verified = signature;
    hardware_attested = attested;
    trust_blocker = blocker;
  })

unfoldable pub parse_release_evidence : Json → Bool → Result InstallError ReleaseEvidence
unfolding attested_flags check_evidence
parse_release_evidence raw signature_verified = do
  d ← fields_of evidence_invalid raw
  raise_if (not (has_exactly (field_names d) evidence_names)) evidence_invalid
  ready_raw ← item (codes "production_ready") d
  controls_raw ← item (codes "controls_verified") d
  signature_raw ← item (codes "client_signature_verified") d
  ready ← flag_of ready_raw
  controls ← flag_of controls_raw
  signature ← flag_of signature_raw
  raise_if (not (same signature signature_verified)) contradictory
  attested_raw ← item (codes "hardware_attested") d
  boards ← fields_of hardware_evidence attested_raw
  raise_if (not (has_exactly (field_names boards) (v1 ∷ v2 ∷ []))) hardware_evidence
  attested ← attested_flags boards
  blocker_raw ← item (codes "trust_blocker") d
  blocker ← blocker_of blocker_raw
  check_evidence ready controls signature attested blocker

unfoldable pub require_release_readiness :
    FirmwareManifest → Text → Bool → Result InstallError (Unit {0})
require_release_readiness manifest board allow_unverified_test_artifacts =
    if not (contains (keys manifest.variants) board)
    then err unknown_board
    else if allow_unverified_test_artifacts
    then ok tt
    else if manifest.signature_verified
        && (manifest.evidence.production_ready
            && (manifest.evidence.controls_verified && manifest.evidence.client_signature_verified))
    then elim (lookup board manifest.evidence.hardware_attested) [
      | none ↦ err key_error
      | some true ↦ ok tt
      | some false ↦ err not_ready
    ]
    else err not_ready

-- `input_fn(prompt)` is the answer that is given.
unfoldable pub select_board :
    FirmwareManifest → Option Text → Bool → Text → Result InstallError Text
select_board manifest requested interactive answer =
    if not (has_exactly (keys manifest.variants) (v1 ∷ v2 ∷ []))
    then err missing_boards
    else if not (contains (none ∷ some v1 ∷ some v2 ∷ []) requested)
    then err unknown_board
    else elim requested [
      | some board ↦ ok board
      | none ↦
          let said = map to_lower (strip answer) in
          if not interactive
          then err ambiguous_board
          else if contains (codes "1" ∷ v1 ∷ []) said
          then ok v1
          else if contains (codes "2" ∷ v2 ∷ []) said
          then ok v2
          else err still_ambiguous
    ]
