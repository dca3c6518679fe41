-- ===== src/Tests/Installs.antt =====
-- The manifest checks of firmware_installer.py at concrete inputs.
use coinbase_amoled_terminal.Prelude.{
  map, ℕ, ◌≡◌, refl, inr, ◌⊎◌, ◌↔◌, true, false, Option, none, some, List, [], ◌∷◌, ok, list_eq,
  nat_eq, option_eq, ℕ_discrete, replicate, contains,
}
use coinbase_amoled_terminal.Prelude.Text.{Text, codes, strip, to_lower}
use coinbase_amoled_terminal.Prelude.Dict.{keys, lookup}
use coinbase_amoled_terminal.Prelude.Int.{pos, int_eq}
use coinbase_amoled_terminal.Prelude.Json.{
  Json, boolean, integer, text, array, object, nil, cons, end, field, get, has_exactly,
}
use coinbase_amoled_terminal.Installer.Layout.{
  Interval, Artifact, overlap, intervals, validate_flash_layout,
}
use coinbase_amoled_terminal.Installer.Layout.Sorted.{PairwiseApart}
use coinbase_amoled_terminal.Installer.Layout.Disjoint.{
  as_regions, AllSafe, validate_flash_layout_iff,
}
use coinbase_amoled_terminal.Installer.Manifest.{
  bootloader, partition_table, ota_data, application, parse_artifacts, onboarding_offset,
  onboarding_size,
}
use coinbase_amoled_terminal.Installer.Variant.{VariantManifest, parse_variant}
use coinbase_amoled_terminal.Installer.Variant.Regions.{IsFlashable, parse_variant-IsFlashable}
use coinbase_amoled_terminal.Installer.Release.{
  ReleaseEvidence, FirmwareManifest, v1, v2, parse_release_evidence, require_release_readiness,
  select_board,
}
use coinbase_amoled_terminal.Installer.Release.Gate.{
  IsConsistent, parse_release_evidence-IsConsistent, require_release_readiness_iff,
  select_board_explicit, Names,
}

abbrev digest : Text
digest = replicate 64 b'a'

abbrev image : Text → ℕ → ℕ → Artifact
image role offset size = record {
  role = role;
  path = codes "v1.bin";
  offset = pos offset;
  size = pos size;
  sha256 = digest;
}

abbrev images : List Artifact
images =
    image bootloader 0 100
    ∷ image partition_table 0x8000 0xC00
    ∷ image ota_data 0x10000 0x2000
    ∷ image application 0x20000 5000
    ∷ []

validate_flash_layout_iff_example :
    (validate_flash_layout images (pos onboarding_offset) (pos onboarding_size) ≡ ok tt) ↔ (
      (l : List Interval) × (intervals images (pos onboarding_offset) (pos onboarding_size)
        ≡ as_regions l)
      × AllSafe l
      × PairwiseApart l)
validate_flash_layout_iff_example =
    validate_flash_layout_iff images (pos onboarding_offset) (pos onboarding_size)

abbrev raw_image : Text → ℕ → ℕ → Json
raw_image role offset size = object (
    field (codes "role") (text role) (
      field (codes "path") (text (codes "v1.bin")) (
        field (codes "offset") (integer (pos offset))
          (field (codes "size") (integer (pos size)) (field (codes "sha256") (text digest) end)))))

abbrev raw_variant : Json
raw_variant = object (
    field (codes "board_revision") (text v1) (
      field (codes "firmware_version") (text (codes "1.2.3-v1")) (
        field (codes "artifacts")
          (array (
            cons (raw_image bootloader 0 100) (
              cons (raw_image partition_table 0x8000 0xC00) (
                cons (raw_image ota_data 0x10000 0x2000)
                  (cons (raw_image application 0x20000 5000) nil)))))
          (field (codes "onboarding_partition")
            (object (
              field (codes "offset") (integer (pos onboarding_offset))
                (field (codes "size") (integer (pos onboarding_size)) end)))
            end))))

abbrev variant : VariantManifest
variant = record {
  board_revision = v1;
  firmware_version = codes "1.2.3-v1";
  artifacts = images;
  onboarding_at = onboarding_offset;
  onboarding_bytes = onboarding_size;
}

parse_variant_test : parse_variant v1 raw_variant (codes "v1.2.3") ≡ ok variant
unfolding parse_variant validate_flash_layout get has_exactly lookup int_eq list_eq nat_eq
    ℕ_discrete parse_artifacts overlap
parse_variant_test = refl

parse_variant-IsFlashable_example : IsFlashable v1 raw_variant variant
parse_variant-IsFlashable_example =
    parse_variant-IsFlashable v1 raw_variant (codes "v1.2.3") variant parse_variant_test

abbrev raw_evidence : Json
raw_evidence = object (
    field (codes "production_ready") (boolean true) (
      field (codes "controls_verified") (boolean true) (
        field (codes "client_signature_verified") (boolean true) (
          field (codes "hardware_attested")
            (object (field v1 (boolean true) (field v2 (boolean true) end)))
            (field (codes "trust_blocker") (text []) end)))))

abbrev evidence : ReleaseEvidence
evidence = record {
  production_ready = true;
  controls_verified = true;
  client_signature_verified = true;
  hardware_attested = (v1, true) ∷ (v2, true) ∷ [];
  trust_blocker = [];
}

parse_release_evidence_test : parse_release_evidence raw_evidence true ≡ ok evidence
unfolding parse_release_evidence get has_exactly list_eq nat_eq ℕ_discrete
parse_release_evidence_test = refl

evidence-IsConsistent : IsConsistent true evidence
evidence-IsConsistent =
    parse_release_evidence-IsConsistent raw_evidence true evidence parse_release_evidence_test

parse_release_evidence-IsConsistent_example : IsConsistent true evidence
parse_release_evidence-IsConsistent_example =
    parse_release_evidence-IsConsistent raw_evidence true evidence parse_release_evidence_test

abbrev manifest : FirmwareManifest
manifest = record {
  evidence = evidence;
  variants = (v1, variant) ∷ (v2, variant) ∷ [];
  signature_verified = true;
}

known_test : contains (keys manifest.variants) v2 ≡ true
unfolding list_eq nat_eq ℕ_discrete
known_test = refl

require_release_readiness_iff_example :
    (require_release_readiness manifest v2 false ≡ ok tt) ↔ (true ≡ true)
require_release_readiness_iff_example =
    require_release_readiness_iff manifest v2 evidence-IsConsistent known_test (inr refl)

select_board_test : select_board manifest none true (codes " V2 ") ≡ ok v2
unfolding select_board has_exactly option_eq strip to_lower list_eq nat_eq ℕ_discrete
select_board_test = refl

select_board_explicit_example :
    ((v2 ≡ v1) ⊎ (v2 ≡ v2))
    × ((none ≡ some v2)
        ⊎ ((◌≡◌ {A = Option Text} none none)
            × ((true ≡ true) × Names (map to_lower (strip (codes " V2 "))) v2)))
select_board_explicit_example =
    select_board_explicit manifest none true (codes " V2 ") v2 select_board_test
