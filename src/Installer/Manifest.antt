-- ===== src/Installer/Manifest.antt =====
-- The artifacts of a release manifest, `_parse_artifact` of firmware_installer.py, and the errors of
-- the installer. A message of `FirmwareInstallError` is a constructor; `key_error` and `type_error`
-- are Python's own exceptions.
use coinbase_amoled_terminal.Prelude.{
  ℕ, ◌+◌, ◌*◌, Bool, true, false, not, ◌&&◌, ◌||◌, none, some, List, [], ◌∷◌, ◌++◌, ◌==◌, contains,
  ltb, leb, eqb, if◌then◌else◌, length, all, Result, ok, err, ◌>>=◌, ◌>>◌, raise_if, list_eq,
  nat_eq,
}
use coinbase_amoled_terminal.Prelude.Text.{Text, codes, is_lower, is_upper, is_digit}
use coinbase_amoled_terminal.Prelude.Dict.{Dict, lookup}
use coinbase_amoled_terminal.Prelude.Int.{pos, int_eq}
use coinbase_amoled_terminal.Prelude.Json.{
  Json, integer, text, array, object, Fields, whole, get, field_names, has_exactly,
}
use coinbase_amoled_terminal.Installer.Layout.{Artifact}

pub data InstallError : Type 0 where
  key_error type_error : InstallError
  artifact_fields artifact_role artifact_path unsafe_path artifact_offset artifact_size :
      InstallError
  outside_region table_size ota_size checksum : InstallError
  variant_fields board_label not_release_bound artifact_list incomplete_roles : InstallError
  onboarding_invalid onboarding_unsafe unsafe_layout : InstallError
  evidence_invalid evidence_flags contradictory hardware_evidence blocker_invalid : InstallError
  inconsistent blocker_declared blocker_missing : InstallError
  unknown_board not_ready missing_boards ambiguous_board still_ambiguous : InstallError

abbrev pub onboarding_offset : ℕ
onboarding_offset = 0xE20000

abbrev pub onboarding_size : ℕ
onboarding_size = 0x2000

abbrev pub max_artifact_bytes : ℕ
max_artifact_bytes = 8 * 1024 * 1024

abbrev pub esp_app_field_bytes : ℕ
esp_app_field_bytes = 32

abbrev pub bootloader : Text
bootloader = codes "bootloader"

abbrev pub partition_table : Text
partition_table = codes "partition_table"

abbrev pub ota_data : Text
ota_data = codes "ota_data"

abbrev pub application : Text
application = codes "application"

abbrev pub expected_offsets : Dict Text ℕ
expected_offsets =
    (bootloader, 0x0)
    ∷ (partition_table, 0x8000)
    ∷ (ota_data, 0x10000)
    ∷ (application, 0x20000)
    ∷ []

abbrev pub expected_region_ends : Dict Text ℕ
expected_region_ends =
    (bootloader, 0x8000)
    ∷ (partition_table, 0x9000)
    ∷ (ota_data, 0x20000)
    ∷ (application, 0x720000)
    ∷ []

-- `raw[name]`
abbrev pub item : Text → Fields → Result InstallError Json
item k d = elim (get k d) [ none ↦ err key_error | some v ↦ ok v ]

abbrev pub fields_of : InstallError → Json → Result InstallError Fields
fields_of e (object d) = ok d
fields_of e _ = err e

abbrev hashable : Json → Bool
hashable (array _) = false
hashable (object _) = false
hashable _ = true

-- `raw["role"] in EXPECTED_OFFSETS`
unfoldable pub parse_role : Json → Result InstallError (Text × ℕ × ℕ)
parse_role (text role) = elim (lookup role expected_offsets) [
  | none ↦ err artifact_role
  | some offset ↦ elim (lookup role expected_region_ends) [
    | none ↦ err key_error
    | some region_end ↦ ok (role, offset, region_end)
  ]
]
parse_role v = if hashable v then err artifact_role else err type_error

is_alnum : ℕ → Bool
unfolding is_lower is_upper is_digit
is_alnum c = is_lower c || (is_upper c || is_digit c)

is_path_char : ℕ → Bool
unfolding is_alnum
is_path_char c = is_alnum c || (eqb c b'.' || (eqb c b'_' || (eqb c b'/' || eqb c b'-')))

ends_with : Text → Text → Bool
ends_with suffix [] = suffix == []
ends_with suffix (c ∷ s) = let rest = ends_with suffix s in suffix == c ∷ s || rest

-- `re.fullmatch(r"[A-Za-z0-9][A-Za-z0-9._/-]*\.bin", path)`
unfoldable pub matches_bin : Text → Bool
unfolding is_path_char ends_with
matches_bin [] = false
matches_bin (c ∷ s) = is_alnum c && (all is_path_char s && ends_with (codes ".bin") s)

-- The parts of a path between its slashes.
split_slash : Text → Text → List Text
split_slash part [] = part ∷ []
split_slash part (c ∷ s) =
    let here = part ∷ split_slash [] s in
    let on = split_slash (part ++ (c ∷ [])) s in if eqb c b'/' then here else on

starts_slash : Text → Bool
starts_slash [] = false
starts_slash (c ∷ s) = eqb c b'/'

-- `pure.is_absolute() or ".." in pure.parts`
unfoldable pub escapes : Text → Bool
unfolding split_slash starts_slash
escapes path = starts_slash path || contains (split_slash [] path) (codes "..")

unfoldable pub parse_path : Json → Result InstallError Text
unfolding matches_bin escapes
parse_path (text path) =
    if ltb 180 (length path) || not (matches_bin path)
    then err artifact_path
    else if escapes path
    then err unsafe_path
    else ok path
parse_path _ = err artifact_path

unfoldable pub parse_size : Json → Result InstallError ℕ
parse_size (integer (pos n)) =
    if leb 1 n && leb n max_artifact_bytes then ok n else err artifact_size
parse_size _ = err artifact_size

is_hex : ℕ → Bool
is_hex c = is_digit c || leb b'a' c && leb c b'f'

unfoldable pub parse_digest : Json → Result InstallError Text
unfolding is_hex is_digit
parse_digest (text digest) =
    if eqb (length digest) 64 && all is_hex digest then ok digest else err checksum
parse_digest _ = err checksum

abbrev pub artifact_names : List Text
artifact_names = codes "role" ∷ codes "path" ∷ codes "offset" ∷ codes "size" ∷ codes "sha256" ∷ []

-- The checks of `_parse_artifact` on the values, after the fields are taken from `raw`.
unfoldable pub check_artifact : Json → Json → Json → Json → Json → Result InstallError Artifact
unfolding parse_role parse_path parse_size parse_digest
check_artifact role_raw path_raw offset_raw size_raw digest_raw = do
  (role, offset, region_end) ← parse_role role_raw
  path ← parse_path path_raw
  found ← elim (whole offset_raw) [ none ↦ err artifact_offset | some n ↦ ok n ]
  size ← parse_size size_raw
  raise_if (not (found == pos offset) || ltb region_end (offset + size)) outside_region
  raise_if (role == partition_table && not (eqb size 0xC00)) table_size
  raise_if (role == ota_data && not (eqb size 0x2000)) ota_size
  digest ← parse_digest digest_raw
  ok (record { role = role; path = path; offset = pos offset; size = pos size; sha256 = digest })

unfoldable pub parse_artifact : Json → Result InstallError Artifact
unfolding check_artifact
parse_artifact raw = do
  d ← fields_of artifact_fields raw
  raise_if (not (has_exactly (field_names d) artifact_names)) artifact_fields
  role ← item (codes "role") d
  path ← item (codes "path") d
  offset ← item (codes "offset") d
  size ← item (codes "size") d
  digest ← item (codes "sha256") d
  check_artifact role path offset size digest

unfoldable pub parse_artifacts : List Json → Result InstallError (List Artifact)
unfolding parse_artifact
parse_artifacts [] = ok []
parse_artifacts (raw ∷ l) = do a ← parse_artifact raw; rest ← parse_artifacts l; ok (a ∷ rest)

abbrev pub roles : List Artifact → List Text
roles [] = []
roles (a ∷ l) = a.role ∷ roles l
