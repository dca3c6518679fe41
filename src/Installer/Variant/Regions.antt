-- ===== src/Installer/Variant/Regions.antt =====
-- Where the images of an accepted variant may be written.
use coinbase_amoled_terminal.Prelude.{
  ap, ℕ, ◌+◌, ◌≤◌, ◌≡◌, refl, subst, Bool, true, not, ◌&&◌, ◌||◌, none, some, List, [], ◌∷◌, ◌++◌,
  arith, ◌==◌, leb, eqb, ltb, length, Result, ok, err, raise_if, >>=-eq-ok, ok-injective, list_eq,
  nat_eq,
}
use coinbase_amoled_terminal.Prelude.Text.{Text, codes}
use coinbase_amoled_terminal.Prelude.Dict.{keys, lookup}
use coinbase_amoled_terminal.Prelude.Int.{ℤ, pos, int_eq}
use coinbase_amoled_terminal.Prelude.Json.{
  null, real, boolean, get, object, Json, equals_text, has_exactly, field_names, whole, text,
  integer,
}
use coinbase_amoled_terminal.Installer.Layout.{Interval, Artifact, intervals, validate_flash_layout}
use coinbase_amoled_terminal.Installer.Layout.Sorted.{PairwiseApart}
use coinbase_amoled_terminal.Installer.Layout.Disjoint.{
  as_regions, AllSafe, validate_flash_layout_iff,
}
use coinbase_amoled_terminal.Installer.Manifest.{
  InstallError, artifact_fields, artifact_names, item, fields_of, variant_fields, board_label,
  not_release_bound, esp_app_field_bytes, incomplete_roles, onboarding_offset, onboarding_size,
  expected_offsets, expected_region_ends, artifact_offset, outside_region, table_size, ota_size,
  parse_role, parse_path, parse_size, parse_digest, check_artifact, parse_artifact, parse_artifacts,
  roles, partition_table, ota_data,
}
use coinbase_amoled_terminal.Installer.Variant.{
  array, Fields, VariantManifest, remove_v, variant_names, four_items, check_onboarding,
  check_layout, parse_images, parse_variant,
}

-- The artifact stands at the approved offset of its role and ends within the role's region; the
-- partition table and the OTA data have their exact sizes.
pub record InRegion (a : Artifact) : Type 0 where
  pub start : ℕ
  pub bytes : ℕ
  pub starts : a.offset ≡ pos start
  pub has_size : a.size ≡ pos bytes
  pub approved : lookup a.role expected_offsets ≡ some start
  pub region_end : (e : ℕ) → lookup a.role expected_region_ends ≡ some e → start + bytes ≤ e
  pub not_empty : 1 ≤ bytes
  pub table_size : a.role ≡ partition_table → bytes ≡ 0xC00
  pub ota_size : a.role ≡ ota_data → bytes ≡ 0x2000

parse_role_inv :
    (raw : Json) (role : Text) (offset region_end : ℕ)
    → parse_role raw ≡ ok (role, offset, region_end)
    → (lookup role expected_offsets ≡ some offset)
      × (lookup role expected_region_ends ≡ some region_end)
unfolding parse_role
parse_role_inv (text s) role offset region_end h = ground arith
parse_role_inv raw role offset region_end h = ground arith

parse_size_pos : (raw : Json) (size : ℕ) → parse_size raw ≡ ok size → 1 ≤ size
unfolding parse_size
parse_size_pos (integer (pos n)) size h = ground arith
parse_size_pos raw size h = ground arith

located :
    (role path digest : Text) (offset region_end size : ℕ) (found : ℤ) (a : Artifact)
    → (lookup role expected_offsets ≡ some offset)
      × (lookup role expected_region_ends ≡ some region_end)
    → 1 ≤ size
    → raise_if (not (found == pos offset) || ltb region_end (offset + size)) outside_region ≡ ok tt
    → raise_if (role == partition_table && not (eqb size 0xC00)) table_size ≡ ok tt
    → raise_if (role == ota_data && not (eqb size 0x2000)) ota_size ≡ ok tt
    → ◌≡◌ {A = Result InstallError Artifact}
        (ok (record {
          role = role;
          path = path;
          offset = pos offset;
          size = pos size;
          sha256 = digest;
        }))
        (ok a)
    → InRegion a
located role path digest offset region_end size found a (start, stop) n inside table ota same =
    subst InRegion (ok-injective _ a same) (record {
      start = offset;
      bytes = size;
      starts = refl;
      has_size = refl;
      approved = start;
      region_end = λ e at_end. ground arith;
      not_empty = n;
      table_size = λ is_table. ground arith;
      ota_size = λ is_ota. ground arith;
    })

-- An accepted artifact lies where its role may be written.
pub check_artifact-InRegion :
    (role_raw path_raw offset_raw size_raw digest_raw : Json) (a : Artifact)
    → check_artifact role_raw path_raw offset_raw size_raw digest_raw ≡ ok a
    → InRegion a
unfolding check_artifact
check_artifact-InRegion role_raw path_raw offset_raw size_raw digest_raw a h =
    let ((role, offset, region_end), known, h₁) = >>=-eq-ok (parse_role role_raw) _ h in
    let (path, _, h₂) = >>=-eq-ok (parse_path path_raw) _ h₁ in
    let (found, _, h₃) =
      >>=-eq-ok (elim (whole offset_raw) [ none ↦ err artifact_offset | some n ↦ ok n ]) _ h₂ in
    let (size, sized, h₄) = >>=-eq-ok (parse_size size_raw) _ h₃ in
    let (_, inside, h₅) =
      >>=-eq-ok
        (raise_if (not (found == pos offset) || ltb region_end (offset + size)) outside_region) _
        h₄ in
    let (_, table, h₆) =
      >>=-eq-ok (raise_if (role == partition_table && not (eqb size 0xC00)) table_size) _ h₅ in
    let (_, ota, h₇) =
      >>=-eq-ok (raise_if (role == ota_data && not (eqb size 0x2000)) ota_size) _ h₆ in
    let (digest, _, same) = >>=-eq-ok (parse_digest digest_raw) _ h₇ in
    located role path digest offset region_end size found a
      (parse_role_inv role_raw role offset region_end known) (parse_size_pos size_raw size sized)
      inside table ota same

parse_artifact-InRegion : (raw : Json) (a : Artifact) → parse_artifact raw ≡ ok a → InRegion a
unfolding parse_artifact
parse_artifact-InRegion raw a h =
    let (d, _, h₁) = >>=-eq-ok (fields_of artifact_fields raw) _ h in
    let (_, _, h₂) =
      >>=-eq-ok (raise_if (not (has_exactly (field_names d) artifact_names)) _) _ h₁ in
    let (role, _, h₃) = >>=-eq-ok (item (codes "role") d) _ h₂ in
    let (path, _, h₄) = >>=-eq-ok (item (codes "path") d) _ h₃ in
    let (offset, _, h₅) = >>=-eq-ok (item (codes "offset") d) _ h₄ in
    let (size, _, h₆) = >>=-eq-ok (item (codes "size") d) _ h₅ in
    let (digest, _, h₇) = >>=-eq-ok (item (codes "sha256") d) _ h₆ in
    check_artifact-InRegion role path offset size digest a h₇

abbrev pub AllInRegion : List Artifact → Type 0
AllInRegion [] = Unit
AllInRegion (a ∷ l) = InRegion a × AllInRegion l

parse_artifacts-AllInRegion :
    (raws : List Json) (l : List Artifact) → parse_artifacts raws ≡ ok l → AllInRegion l
unfolding parse_artifacts
parse_artifacts-AllInRegion [] l h = subst AllInRegion (ok-injective [] l h) tt
parse_artifacts-AllInRegion (raw ∷ raws) l h =
    let (a, first, h₁) = >>=-eq-ok (parse_artifact raw) _ h in
    let (rest, others, h₂) = >>=-eq-ok (parse_artifacts raws) _ h₁ in
    subst AllInRegion (ok-injective (a ∷ rest) l h₂)
      (parse_artifact-InRegion raw a first, parse_artifacts-AllInRegion raws rest others)

check_layout-ok :
    (l : List Artifact)
    → check_layout l ≡ ok tt
    → validate_flash_layout l (pos onboarding_offset) (pos onboarding_size) ≡ ok tt
unfolding check_layout
check_layout-ok l h = ground arith

not_false : (b : Bool) (e : InstallError) → raise_if (not b) e ≡ ok tt → b ≡ true
not_false b e h = ground arith

-- The manifest's entry bears the name of the board.
abbrev pub BearsLabel : Text → Json → Type 0
BearsLabel board (object d) = get (codes "board_revision") d ≡ some (text board)
BearsLabel board _ = ⊥

equals_text-true : (r : Json) (s : Text) → equals_text r s ≡ true → r ≡ text s
equals_text-true (text t) s h = ap text (ground arith)
equals_text-true null s h = cc
equals_text-true (boolean b) s h = cc
equals_text-true (integer n) s h = cc
equals_text-true (real n) s h = cc
equals_text-true (array l) s h = cc
equals_text-true (object d) s h = cc

-- What the test of the label leaves.
label-BearsLabel :
    (board : Text) (raw revision : Json) (d : Fields)
    → fields_of variant_fields raw ≡ ok d
    → item (codes "board_revision") d ≡ ok revision
    → equals_text revision board ≡ true
    → BearsLabel board raw
label-BearsLabel board (object e) revision d h k same =
    let there : get (codes "board_revision") d ≡ some revision = ground arith in
    let at : e ≡ d = ok-injective e d h in rw (at, there, equals_text-true revision board same) refl
label-BearsLabel board null revision d h k same = cc
label-BearsLabel board (boolean b) revision d h k same = cc
label-BearsLabel board (integer n) revision d h k same = cc
label-BearsLabel board (real n) revision d h k same = cc
label-BearsLabel board (text t) revision d h k same = cc
label-BearsLabel board (array l) revision d h k same = cc

-- What an accepted variant promises about the flash.
pub record IsFlashable (board : Text) (raw : Json) (v : VariantManifest) : Type 0 where
  pub labelled : BearsLabel board raw
  pub board_is : v.board_revision ≡ board
  pub in_region : AllInRegion v.artifacts
  pub all_roles : has_exactly (roles v.artifacts) (keys expected_offsets) ≡ true
  pub flash : List Interval
  pub placed :
      intervals v.artifacts (pos onboarding_offset) (pos onboarding_size) ≡ as_regions flash
  pub safe : AllSafe flash
  pub apart : PairwiseApart flash

parse_images-IsFlashable :
    (board version : Text) (raw artifacts_raw onboarding_raw : Json) (v : VariantManifest)
    → BearsLabel board raw
    → parse_images board version artifacts_raw onboarding_raw ≡ ok v
    → IsFlashable board raw v
unfolding parse_images
parse_images-IsFlashable board version raw artifacts_raw onboarding_raw v label h =
    let (raws, _, h₁) = >>=-eq-ok (four_items artifacts_raw) _ h in
    let (l, parsed, h₂) = >>=-eq-ok (parse_artifacts raws) _ h₁ in
    let (_, complete, h₃) =
      >>=-eq-ok (raise_if (not (has_exactly (roles l) (keys expected_offsets))) incomplete_roles) _
        h₂ in
    let (_, _, h₄) = >>=-eq-ok (check_onboarding onboarding_raw) _ h₃ in
    let (_, layout, same) = >>=-eq-ok (check_layout l) _ h₄ in
    let (flash, placed, safe, apart) =
      (validate_flash_layout_iff l (pos onboarding_offset) (pos onboarding_size)).0
        (check_layout-ok l layout) in
    subst (IsFlashable board raw) (ok-injective _ v same) (record {
      labelled = label;
      board_is = refl;
      in_region = parse_artifacts-AllInRegion raws l parsed;
      all_roles =
          not_false (has_exactly (roles l) (keys expected_offsets)) incomplete_roles complete;
      flash = flash;
      placed = placed;
      safe = safe;
      apart = apart;
    })

-- A variant that is accepted bears in the manifest the name of the board that was asked for, and is
-- recorded as one for this board; each role has an image, every image lies in the region of its role, and no image touches another one, the onboarding partition,
-- the NVS or the PHY data.
pub parse_variant-IsFlashable :
    (board : Text) (raw : Json) (release_version : Text) (v : VariantManifest)
    → parse_variant board raw release_version ≡ ok v
    → IsFlashable board raw v
unfolding parse_variant
parse_variant-IsFlashable board raw release_version v h =
    let version = remove_v release_version ++ (codes "-" ++ board) in
    let (d, fields, h₁) = >>=-eq-ok (fields_of variant_fields raw) _ h in
    let (_, _, h₂) =
      >>=-eq-ok (raise_if (not (has_exactly (field_names d) variant_names)) variant_fields) _ h₁ in
    let (revision, there, h₃) = >>=-eq-ok (item (codes "board_revision") d) _ h₂ in
    let (_, same, h₄) = >>=-eq-ok (raise_if (not (equals_text revision board)) board_label) _ h₃ in
    let (found, _, h₅) = >>=-eq-ok (item (codes "firmware_version") d) _ h₄ in
    let (_, _, h₆) =
      >>=-eq-ok
        (raise_if (not (equals_text found version) || leb esp_app_field_bytes (length version))
          not_release_bound)
        _ h₅ in
    let (artifacts_raw, _, h₇) = >>=-eq-ok (item (codes "artifacts") d) _ h₆ in
    let (onboarding_raw, _, h₈) = >>=-eq-ok (item (codes "onboarding_partition") d) _ h₇ in
    let label =
      label-BearsLabel board raw revision d fields there
        (not_false (equals_text revision board) board_label same) in
    parse_images-IsFlashable board version raw artifacts_raw onboarding_raw v label h₈
