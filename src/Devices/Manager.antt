-- ===== src/Devices/Manager.antt =====
-- `DeviceManager` of auth.py. The state is the device table of the configuration and the token files.
-- A call gets the faults that it meets: which of its writes raises, and whether the removal of a token
-- file does. A write that raises leaves its
-- file as it was, since the store and `write_secret_atomic` replace a file in one rename.
use coinbase_amoled_terminal.Prelude.{
  ℕ, Bool, true, false, not, ◌&&◌, ◌||◌, Option, none, some, [], ◌∷◌, ◌++◌, ◌==◌, contains, ltb,
  leb, eqb, if◌then◌else◌, length, all, Result, ok, err, ◌>>=◌, ◌>>◌, raise_if, list_eq, nat_eq,
  option_eq,
}
use coinbase_amoled_terminal.Prelude.Text.{Text, codes, is_lower, is_upper, is_digit, strip}
use coinbase_amoled_terminal.Prelude.Dict.{Dict, lookup, insert, erase, keys}
use coinbase_amoled_terminal.Prelude.Slices.{strip_prefix}

pub record Device : Type 0 where
  pub token_sha256 : Text
  pub enabled : Bool
  pub created_at : Text
  pub updated_at : Text
  pub label : Text

pub record World : Type 0 where
  pub devices : Dict Text Device
  pub files : Dict Text Text

pub data DeviceError : Type 0 where
  invalid_id control_characters too_long protected_path not_a_file invalid_token : DeviceError
  token_exists already_listed not_listed custom_exists too_large store_failed write_failed :
      DeviceError
  rollback_failed restore_failed : DeviceError

pub record Faults : Type 0 where
  pub update : Bool
  pub write : Bool
  pub unlink : Bool
  pub rollback : Bool
  pub restore : Bool

is_id_char : ℕ → Bool
unfolding is_lower is_upper is_digit
is_id_char c = is_lower c || (is_upper c || (is_digit c || (eqb c b'_' || eqb c b'-')))

-- `DEVICE_ID_RE.fullmatch(value)`
unfoldable pub is_device_id : Text → Bool
unfolding is_id_char is_lower is_upper is_digit
is_device_id [] = false
is_device_id (c ∷ s) =
    (is_lower c || (is_upper c || is_digit c))
    && (leb 11 (length s) && (leb (length s) 63 && all is_id_char s))

-- `DEVICE_TOKEN_RE.fullmatch(value)`
unfoldable pub is_device_token : Text → Bool
unfolding is_id_char
is_device_token value = elim (strip_prefix (codes "cbat_") value) [
  | none ↦ false
  | some rest ↦ eqb (length rest) 43 && all is_id_char rest
]

unfoldable pub validate_device_id : Text → Result DeviceError Text
unfolding is_device_id
validate_device_id device_id =
    if is_device_id (strip device_id) then ok (strip device_id) else err invalid_id

-- `safe_text(value, max_length=most)`
unfoldable pub safe_text : Text → ℕ → Result DeviceError Text
safe_text value most = do
  raise_if (not (all (λ c. leb 0x20 c && not (eqb c 0x7F)) value)) control_characters
  raise_if (ltb most (length value)) too_long
  ok value

abbrev pub Outcome : Type 0
Outcome = Result DeviceError Text × World

-- The paths of the state, and the digest, which is SHA-256.
module _ (is_protected is_other_kind : Text → Bool) (default_path token_digest : Text → Text) where
  -- `_validate_token_destination`
  unfoldable pub validate_destination : Text → Result DeviceError (Unit {0})
  validate_destination path = do
    raise_if (is_protected path) protected_path
    raise_if (is_other_kind path) not_a_file

  abbrev pub destination_of : Option Text → Text → Text
  destination_of none device_id = default_path device_id
  destination_of (some path) device_id = path

  -- The checks of `add`: the identity, the label and the path.
  unfoldable pub prepare_add :
      Text → Text → Option Text → Text → World → Result DeviceError (Text × Text × Text)
  unfolding validate_device_id safe_text validate_destination
  prepare_add device_id label token_path token w = do
    candidate ← validate_device_id device_id
    clean_label ← safe_text label 80
    validate_destination (destination_of token_path candidate)
    raise_if (not (is_device_token token)) invalid_token
    raise_if (contains (keys w.files) (destination_of token_path candidate)) token_exists
    ok (candidate, clean_label, destination_of token_path candidate)

  -- `destination.unlink(missing_ok=True)`, whose error is swallowed.
  abbrev pub unlink_token : Text → Bool → Dict Text Text → Dict Text Text
  unlink_token path true files = files
  unlink_token path false files = erase path files

  -- The writes of `add`: the token first, and the file removed again if the table refuses.
  unfoldable pub commit_add : Text → Text → Text → Text → Text → Faults → World → Outcome
  commit_add candidate label path token now f w =
      let files = insert path (token ++ codes "\n") w.files in
      if f.write
      then (err write_failed, w)
      else if contains (keys w.devices) candidate
      then (err already_listed, record w { files = unlink_token path f.unlink files })
      else if f.update
      then (err store_failed, record w { files = unlink_token path f.unlink files })
      else (
        ok candidate,
        record {
          devices =
              insert candidate
                (record {
                  token_sha256 = token_digest token;
                  enabled = true;
                  created_at = now;
                  updated_at = now;
                  label = label;
                })
                w.devices;
          files = files;
        },
      )

  -- `add`, with the identity and the token that are given or generated.
  unfoldable pub add : Text → Text → Option Text → Text → Text → Faults → World → Outcome
  unfolding prepare_add commit_add
  add device_id label token_path token now f w =
      elim (prepare_add device_id label token_path token w) [
        | err e ↦ (err e, w)
        | ok (candidate, clean_label, path) ↦ commit_add candidate clean_label path token now f w
      ]

  abbrev pub given : Option Text → Bool
  given none = false
  given (some _) = true

  abbrev pub file_size : Option Text → ℕ
  file_size none = 0
  file_size (some content) = length content

  -- The checks of `rotate`, and the record of the device.
  unfoldable pub prepare_rotate :
      Text → Option Text → Bool → World → Result DeviceError (Text × Text × Device)
  unfolding validate_device_id validate_destination
  prepare_rotate device_id token_path replace_token_file w = do
    candidate ← validate_device_id device_id
    let path = destination_of token_path candidate
    validate_destination path
    raise_if
        (given token_path
          && (contains (keys w.files) path
              && (not (path == default_path candidate) && not replace_token_file)))
        custom_exists
    old ← elim (lookup candidate w.devices) [ none ↦ err not_listed | some d ↦ ok d ]
    raise_if (ltb 512 (file_size (lookup path w.files))) too_large
    ok (candidate, path, old)

  abbrev put_back : Text → Option Text → Dict Text Text → Dict Text Text
  put_back path none files = files
  put_back path (some content) files = insert path content files

  -- The end of a rotation whose token file could not be written.
  unfoldable pub undo_rotate : Text → Text → Device → Option Text → Faults → World → Outcome
  undo_rotate candidate path old backup f w =
      if f.rollback
      then (err rollback_failed, w)
      else let w' = record w { devices = insert candidate old w.devices } in
        if given backup && f.restore
        then (err restore_failed, w')
        else (err write_failed, record w' { files = put_back path backup w'.files })

  -- The writes of `rotate`: the table first, and its old record again if the file cannot be written.
  unfoldable pub commit_rotate : Text → Text → Device → Text → Text → Faults → World → Outcome
  unfolding undo_rotate
  commit_rotate candidate path old token now f w =
      let backup = lookup path w.files in
      let fresh = record old { token_sha256 = token_digest token; updated_at = now } in
      let updated = record w { devices = insert candidate fresh w.devices } in
      if f.update
      then (err store_failed, w)
      else if f.write
      then undo_rotate candidate path old backup f updated
      else (ok candidate, record updated { files = insert path (token ++ codes "\n") w.files })

  -- `rotate`, with the token that is generated.
  unfoldable pub rotate : Text → Option Text → Bool → Text → Text → Faults → World → Outcome
  unfolding prepare_rotate commit_rotate
  rotate device_id token_path replace_token_file token now f w =
      elim (prepare_rotate device_id token_path replace_token_file w) [
        | err e ↦ (err e, w)
        | ok (candidate, path, old) ↦ commit_rotate candidate path old token now f w
      ]

  unfoldable pub set_enabled : Text → Bool → Text → Faults → World → Outcome
  unfolding validate_device_id
  set_enabled device_id enabled now f w = elim (validate_device_id device_id) [
    | err e ↦ (err e, w)
    | ok candidate ↦ elim (lookup candidate w.devices) [
      | none ↦ (err not_listed, w)
      | some d ↦ if f.update then (err store_failed, w) else (
        ok candidate,
        record w {
          devices = insert candidate (record d { enabled = enabled; updated_at = now }) w.devices;
        },
      )
    ]
  ]

module _ (token_digest : Text → Text) where
  -- `authenticate` on a registry that holds the table.
  unfoldable pub authenticate : Dict Text Device → Text → Text → Bool
  authenticate devices device_id token =
      is_device_id device_id
      && (is_device_token token && elim (lookup device_id devices) [
        | none ↦ false
        | some d ↦ d.enabled && token_digest token == d.token_sha256
      ])
