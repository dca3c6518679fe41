-- ===== src/Config/Validate.antt =====
-- `validate_config` of config.py. It returns the configuration with the symbols in normal form.
use coinbase_amoled_terminal.Prelude.{
  ℕ, Bool, true, false, not, ◌&&◌, ◌||◌, Option, none, some, List, [], ◌∷◌, ◌==◌, contains, ltb,
  leb, eqb, if◌then◌else◌, length, all, Result, ok, err, ◌>>=◌, ◌>>◌, raise_if, list_eq, nat_eq,
}
use coinbase_amoled_terminal.Prelude.Text.{Text, codes, is_lower, is_upper, is_digit}
use coinbase_amoled_terminal.Prelude.Int.{pos}
use coinbase_amoled_terminal.Prelude.Json.{
  Json, Items, Fields, boolean, integer, text, array, object, nil, cons, end, field, get,
  field_names, has_exactly, to_list, equals_int,
}
use coinbase_amoled_terminal.Prelude.Slices.{strip_prefix}
use coinbase_amoled_terminal.Symbols.{SymbolSpec, normalize_symbols}
use coinbase_amoled_terminal.Symbols.Normal.{symbols_of}
use coinbase_amoled_terminal.Devices.Manager.{is_device_id}
use coinbase_amoled_terminal.Config.Secrets.{
  ConfigError, root_not_object, unknown_root, unsupported_schema, invalid_instance,
  control_characters, too_long, empty_text, settings_not_object, settings_fields, invalid_quote,
  symbols_not_texts, invalid_symbols, not_bounded, stale_order, not_boolean, devices_not_object,
  too_many_devices, invalid_device_id, device_fields, invalid_digest, put, reject_secrets,
}

abbrev pub root_names : List Text
root_names =
    codes "schema_version"
    ∷ codes "instance_id"
    ∷ codes "created_at"
    ∷ codes "settings"
    ∷ codes "devices"
    ∷ []

abbrev pub setting_names : List Text
setting_names =
    codes "symbols"
    ∷ codes "quote_currency"
    ∷ codes "refresh_seconds"
    ∷ codes "stale_after_seconds"
    ∷ codes "max_stale_seconds"
    ∷ codes "upstream_timeout_seconds"
    ∷ codes "include_cfm_positions"
    ∷ codes "include_intx_positions"
    ∷ codes "ip_rate_per_minute"
    ∷ codes "device_rate_per_minute"
    ∷ codes "rate_burst"
    ∷ codes "max_concurrent_requests"
    ∷ []

abbrev device_field_names : List Text
device_field_names =
    codes "token_sha256"
    ∷ codes "enabled"
    ∷ codes "created_at"
    ∷ codes "updated_at"
    ∷ codes "label"
    ∷ []

is_id_char : ℕ → Bool
unfolding is_lower is_upper is_digit
is_id_char c = is_lower c || (is_upper c || (is_digit c || (eqb c b'_' || eqb c b'-')))

-- `INSTANCE_ID_RE.fullmatch(value)`
unfoldable pub is_instance_id : Text → Bool
unfolding is_id_char
is_instance_id value = elim (strip_prefix (codes "bridge_") value) [
  | none ↦ false
  | some rest ↦ leb 20 (length rest) && (leb (length rest) 72 && all is_id_char rest)
]

is_hex : ℕ → Bool
unfolding is_digit
is_hex c = is_digit c || leb b'a' c && leb c b'f'

unfoldable pub check_text : Text → ℕ → Bool → Result ConfigError (Unit {0})
check_text value most allow_empty = do
  raise_if (not (all (λ c. leb 0x20 c && not (eqb c 0x7F)) value)) control_characters
  raise_if (ltb most (length value)) too_long
  raise_if (not allow_empty && value == []) empty_text

-- `_bounded_int`: what the setting holds.
unfoldable pub bounded : Option Json → ℕ → ℕ → Result ConfigError ℕ
bounded (some (integer (pos n))) minimum maximum =
    if leb minimum n && leb n maximum then ok n else err not_bounded
bounded _ minimum maximum = err not_bounded

unfoldable pub bounded_int : Fields → Text → ℕ → ℕ → Result ConfigError ℕ
unfolding bounded
bounded_int settings name minimum maximum = bounded (get name settings) minimum maximum

unfoldable pub bool_setting : Fields → Text → Result ConfigError (Unit {0})
bool_setting settings name = elim (get name settings) [
  | some (boolean _) ↦ ok tt
  | _ ↦ err not_boolean
]

-- `all(isinstance(item, str) for item in symbols)`
unfoldable pub texts_of : List Json → Option (List Text)
texts_of [] = some []
texts_of (text s ∷ l) = elim (texts_of l) [ none ↦ none | some rest ↦ some (s ∷ rest) ]
texts_of (_ ∷ l) = none

unfoldable pub symbol_texts : Option Json → Result ConfigError (List Text)
unfolding texts_of
symbol_texts (some (array items)) = elim (texts_of (to_list items)) [
  | none ↦ err symbols_not_texts
  | some l ↦ ok l
]
symbol_texts _ = err symbols_not_texts

unfoldable pub items_of : List Text → Items
items_of [] = nil
items_of (s ∷ l) = cons (text s) (items_of l)

unfoldable pub check_symbols : Fields → Result ConfigError (List SymbolSpec)
unfolding symbol_texts
check_symbols settings = do
  raw ← symbol_texts (get (codes "symbols") settings)
  elim (normalize_symbols raw (codes "USD")) [ ok specs ↦ ok specs | err _ ↦ err invalid_symbols ]

-- The numbers of the settings.
unfoldable pub check_numbers : Fields → Result ConfigError (Unit {0})
unfolding bounded_int
check_numbers settings = do
  refresh ← bounded_int settings (codes "refresh_seconds") 2 300
  stale ← bounded_int settings (codes "stale_after_seconds") 10 3600
  most ← bounded_int settings (codes "max_stale_seconds") 30 86400
  raise_if (ltb most stale) stale_order
  timeout ← bounded_int settings (codes "upstream_timeout_seconds") 2 30
  ip_rate ← bounded_int settings (codes "ip_rate_per_minute") 1 10000
  device_rate ← bounded_int settings (codes "device_rate_per_minute") 1 10000
  burst ← bounded_int settings (codes "rate_burst") 1 1000
  requests ← bounded_int settings (codes "max_concurrent_requests") 1 256
  ok tt

abbrev pub is_usd : Option Json → Bool
is_usd (some (text s)) = s == codes "USD"
is_usd _ = false

-- The checks of the settings, and the settings with their symbols in normal form.
unfoldable pub check_settings : Option Json → Result ConfigError Fields
unfolding check_symbols check_numbers bool_setting items_of
check_settings (some (object settings)) = do
  raise_if (not (has_exactly (field_names settings) setting_names)) settings_fields
  raise_if (not (is_usd (get (codes "quote_currency") settings))) invalid_quote
  specs ← check_symbols settings
  check_numbers settings
  bool_setting settings (codes "include_cfm_positions")
  bool_setting settings (codes "include_intx_positions")
  ok (put (codes "symbols") (array (items_of (symbols_of specs))) settings)
check_settings _ = err settings_not_object

abbrev is_digest : Option Json → Bool
is_digest (some (text s)) = eqb (length s) 64 && all is_hex s
is_digest _ = false

-- What `str` makes of a value that is not a string is not this program's.
module _ (str_of : Json → Text) where
  -- `str(d.get(name, ""))`
  abbrev pub text_at : Text → Fields → Text
  text_at name d = elim (get name d) [ none ↦ [] | some (text s) ↦ s | some v ↦ str_of v ]

  -- A record of the device table.
  unfoldable pub check_record : Json → Result ConfigError (Unit {0})
  unfolding is_hex is_digit
  check_record (object d) = do
    raise_if (not (has_exactly (field_names d) device_field_names)) device_fields
    raise_if (not (is_digest (get (codes "token_sha256") d))) invalid_digest
    bool_setting d (codes "enabled")
    check_text (text_at (codes "created_at") d) 40 false
    check_text (text_at (codes "updated_at") d) 40 false
    check_text (text_at (codes "label") d) 80 true
  check_record _ = err device_fields

  unfoldable pub check_records : Fields → Result ConfigError (Unit {0})
  unfolding check_record
  check_records end = ok tt
  check_records (field device_id v d) = do
    raise_if (not (is_device_id device_id)) invalid_device_id
    check_record v
    check_records d

  unfoldable pub check_devices : Option Json → Result ConfigError (Unit {0})
  unfolding check_records
  check_devices (some (object d)) = do
    raise_if (ltb 1000 (length (field_names d))) too_many_devices
    check_records d
  check_devices _ = err devices_not_object

  -- The version, the instance and the date.
  unfoldable pub check_root : Fields → Result ConfigError (Unit {0})
  check_root d = do
    raise_if (not (all (contains root_names) (field_names d))) unknown_root
    raise_if
        (not
          (elim (get (codes "schema_version") d) [ none ↦ false | some v ↦ equals_int v (pos 1) ]))
        unsupported_schema
    instance_id ← elim (get (codes "instance_id") d) [
      | some (text s) ↦ ok s
      | _ ↦ err invalid_instance
    ]
    raise_if (not (is_instance_id instance_id)) invalid_instance
    check_text instance_id 80 false
    check_text (text_at (codes "created_at") d) 40 false

  unfoldable pub validate_config : Json → Result ConfigError Json
  unfolding check_root check_settings check_devices
  validate_config (object d) = do
    reject_secrets (object d)
    check_root d
    settings ← check_settings (get (codes "settings") d)
    check_devices (get (codes "devices") d)
    ok (object (put (codes "settings") (object settings) d))
  validate_config _ = err root_not_object
