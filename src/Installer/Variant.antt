-- ===== src/Installer/Variant.antt =====
-- `_parse_variant` of firmware_installer.py.
pub mod Regions
use coinbase_amoled_terminal.Prelude.{
  ℕ, ◌+◌, Bool, true, false, not, ◌&&◌, ◌||◌, Option, none, some, List, [], ◌∷◌, ◌++◌, ◌==◌, leb,
  eqb, if◌then◌else◌, length, Result, ok, err, ◌>>=◌, ◌>>◌, raise_if, list_eq, nat_eq,
}
use coinbase_amoled_terminal.Prelude.Text.{Text, codes}
use coinbase_amoled_terminal.Prelude.Dict.{keys}
use coinbase_amoled_terminal.Prelude.Int.{pos}
use coinbase_amoled_terminal.Prelude.Json.{
  Json, array, text, Fields, equals_int, equals_text, field_names, has_exactly, to_list,
}
use coinbase_amoled_terminal.Installer.Layout.{Artifact, LayoutError, validate_flash_layout}
use coinbase_amoled_terminal.Installer.Manifest.{
  InstallError, variant_fields, board_label, not_release_bound, artifact_list, incomplete_roles,
  onboarding_invalid, onboarding_unsafe, unsafe_layout, onboarding_offset, onboarding_size,
  esp_app_field_bytes, expected_offsets, item, fields_of, parse_artifacts, roles,
}

-- `VariantManifest`
pub record VariantManifest : Type 0 where
  pub board_revision : Text
  pub firmware_version : Text
  pub artifacts : List Artifact
  pub onboarding_at : ℕ
  pub onboarding_bytes : ℕ

-- `release_version.removeprefix('v')`
unfoldable pub remove_v : Text → Text
remove_v [] = []
remove_v (c ∷ s) = if eqb c b'v' then s else c ∷ s

abbrev variant_names : List Text
variant_names =
    codes "board_revision"
    ∷ codes "firmware_version"
    ∷ codes "artifacts"
    ∷ codes "onboarding_partition"
    ∷ []

-- `isinstance(raw, list) and len(raw) == 4`
unfoldable pub four_items : Json → Result InstallError (List Json)
four_items (array l) = if eqb (length (to_list l)) 4 then ok (to_list l) else err artifact_list
four_items _ = err artifact_list

unfoldable pub check_onboarding : Json → Result InstallError (Unit {0})
check_onboarding raw = do
  d ← fields_of onboarding_invalid raw
  raise_if (not (has_exactly (field_names d) (codes "offset" ∷ codes "size" ∷ [])))
      onboarding_invalid
  offset ← item (codes "offset") d
  size ← item (codes "size") d
  raise_if
      (not (equals_int offset (pos onboarding_offset))
        || not (equals_int size (pos onboarding_size)))
      onboarding_unsafe

unfoldable pub check_layout : List Artifact → Result InstallError (Unit {0})
check_layout artifacts =
    elim (validate_flash_layout artifacts (pos onboarding_offset) (pos onboarding_size)) [
      | ok _ ↦ ok tt
      | err _ ↦ err unsafe_layout
    ]

-- The rest of `_parse_variant`, after the board and the version.
unfoldable pub parse_images : Text → Text → Json → Json → Result InstallError VariantManifest
unfolding four_items check_onboarding check_layout
parse_images board version artifacts_raw onboarding_raw = do
  raws ← four_items artifacts_raw
  artifacts ← parse_artifacts raws
  raise_if (not (has_exactly (roles artifacts) (keys expected_offsets))) incomplete_roles
  check_onboarding onboarding_raw
  check_layout artifacts
  ok (record {
    board_revision = board;
    firmware_version = version;
    artifacts = artifacts;
    onboarding_at = onboarding_offset;
    onboarding_bytes = onboarding_size;
  })

unfoldable pub parse_variant : Text → Json → Text → Result InstallError VariantManifest
unfolding remove_v parse_images
parse_variant board raw release_version =
    let version = remove_v release_version ++ (codes "-" ++ board) in
    do
      d ← fields_of variant_fields raw
      raise_if (not (has_exactly (field_names d) variant_names)) variant_fields
      revision ← item (codes "board_revision") d
      raise_if (not (equals_text revision board)) board_label
      found ← item (codes "firmware_version") d
      raise_if (not (equals_text found version) || leb esp_app_field_bytes (length version))
          not_release_bound
      artifacts_raw ← item (codes "artifacts") d
      onboarding_raw ← item (codes "onboarding_partition") d
      parse_images board version artifacts_raw onboarding_raw
