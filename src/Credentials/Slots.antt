-- ===== src/Credentials/Slots.antt =====
-- The versioned credential slots of auth.py. The state is the directory `secrets`: the selector file,
-- the bundles by slot name and the single bundle. An operation holds the exclusive lock and returns
-- its result beside the directory that it leaves.
use coinbase_amoled_terminal.Prelude.{
  ℕ, Bool, true, false, not, ◌&&◌, ◌||◌, Option, none, some, ◌++◌, ◌==◌, contains, ltb, leb, eqb,
  if◌then◌else◌, length, all, Result, ok, err, ◌>>=◌, ◌>>◌, raise_if, list_eq, nat_eq, option_eq,
}
use coinbase_amoled_terminal.Prelude.Text.{Text, codes, is_lower, is_upper, is_digit, strip}
use coinbase_amoled_terminal.Prelude.Dict.{Dict, insert, erase, keys}
use coinbase_amoled_terminal.Prelude.Slices.{strip_prefix, strip_suffix}

pub record Secrets : Type 0 where
  pub selector : Option Text
  pub slots : Dict Text Text
  pub bundle : Option Text

pub data CredentialError : Type 0 where
  invalid_size contains_nul invalid_selector missing_bundle invalid_name : CredentialError
  invalid_bundle struct_error already_exists missing_replacement slot_is_active : CredentialError
  invalid_key_name invalid_private_key : CredentialError

unfoldable pub is_slot_char : ℕ → Bool
unfolding is_lower is_upper is_digit
is_slot_char c = is_lower c || (is_upper c || (is_digit c || (eqb c b'_' || eqb c b'-')))

-- `CREDENTIAL_SLOT_RE.fullmatch(value)`
unfoldable pub is_slot_name : Text → Bool
unfolding is_slot_char
is_slot_name value = elim (strip_prefix (codes "onboarding_") value) [
  | none ↦ false
  | some rest ↦ elim (strip_suffix (codes ".bundle") rest) [
    | none ↦ false
    | some middle ↦ leb 20 (length middle) && (leb (length middle) 80 && all is_slot_char middle)
  ]
]

-- `_read_secret_file`, on the content of a regular file.
unfoldable pub read_secret : Text → ℕ → Result CredentialError Text
read_secret payload maximum_bytes = do
  raise_if (eqb (length payload) 0 || ltb maximum_bytes (length payload)) invalid_size
  raise_if (contains payload 0) contains_nul
  ok payload

-- `_active_credential_slot_unlocked`
unfoldable pub active_slot : Secrets → Result CredentialError (Option Text)
unfolding read_secret
active_slot s = elim s.selector [
  | none ↦ ok none
  | some content ↦ do
    payload ← read_secret content 160
    raise_if (not (all (λ c. ltb c 128) payload)) invalid_selector
    raise_if (not (is_slot_name (strip payload))) invalid_selector
    raise_if (not (contains (keys s.slots) (strip payload))) missing_bundle
    ok (some (strip payload))
]

abbrev pub Outcome : Type 0 → Type 0
Outcome A = Result CredentialError A × Secrets

-- `stage_local_credential_slot`, with the encoded bundle of the validated credentials.
unfoldable pub stage_slot : Text → Text → Secrets → Outcome (Unit {0})
stage_slot slot_name payload s =
    if not (is_slot_name slot_name)
    then (err invalid_name, s)
    else if contains (keys s.slots) slot_name
    then (err already_exists, s)
    else (ok tt, record s { slots = insert slot_name payload s.slots })

abbrev is_valid_choice : Option Text → Bool
is_valid_choice none = true
is_valid_choice (some value) = is_slot_name value

-- `compare_and_swap_local_credential_slot`
unfoldable pub compare_and_swap : Option Text → Option Text → Secrets → Outcome Bool
unfolding active_slot
compare_and_swap expected replacement s =
    if not (is_valid_choice expected) || not (is_valid_choice replacement)
    then (err invalid_name, s)
    else elim (active_slot s) [
      | err e ↦ (err e, s)
      | ok current ↦ if not (current == expected) then (ok false, s) else elim replacement [
        | none ↦ (ok true, record s { selector = none })
        | some value ↦
            if not (contains (keys s.slots) value)
            then (err missing_replacement, s)
            else (ok true, record s { selector = some (value ++ codes "\n") })
      ]
    ]

-- `remove_local_credential_slot`
unfoldable pub remove_slot : Text → Secrets → Outcome (Unit {0})
unfolding active_slot
remove_slot slot_name s =
    if not (is_slot_name slot_name) then (err invalid_name, s) else elim (active_slot s) [
      | err e ↦ (err e, s)
      | ok current ↦
          if current == some slot_name
          then (err slot_is_active, s)
          else (ok tt, record s { slots = erase slot_name s.slots })
    ]

-- `save_local_credentials_atomic`, with the encoded bundle of the validated credentials.
unfoldable pub save_atomic : Text → Bool → Secrets → Outcome (Unit {0})
save_atomic payload replace s = elim s.bundle [
  | none ↦ (ok tt, record s { bundle = some payload; selector = none })
  | some _ ↦
      if replace
      then (ok tt, record s { bundle = some payload; selector = none })
      else (err already_exists, s)
]
