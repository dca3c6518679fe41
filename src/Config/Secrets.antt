-- ===== src/Config/Secrets.antt =====
-- `_reject_embedded_secrets` of config.py, and the fields that a JSON object is given.
use coinbase_amoled_terminal.Prelude.{
  ℕ, Bool, true, false, ◌||◌, Option, none, some, List, [], ◌∷◌, map, ◌==◌, contains, eqb,
  if◌then◌else◌, Result, ok, ◌>>◌, raise_if, list_eq, nat_eq,
}
use coinbase_amoled_terminal.Prelude.Text.{Text, codes, strip, to_lower, to_upper}
use coinbase_amoled_terminal.Prelude.Json.{
  Json, Items, Fields, null, boolean, integer, real, text, array, object, nil, cons, end, field,
}
use coinbase_amoled_terminal.Prelude.Slices.{strip_prefix}

-- A message of `ConfigError` is a constructor.
pub data ConfigError : Type 0 where
  root_not_object embedded_secret unknown_root unsupported_schema invalid_instance : ConfigError
  control_characters too_long empty_text : ConfigError
  settings_not_object settings_fields invalid_quote symbols_not_texts invalid_symbols : ConfigError
  not_bounded stale_order not_boolean : ConfigError
  devices_not_object too_many_devices invalid_device_id device_fields invalid_digest : ConfigError
  not_initialized file_too_large not_json invalid_version newer_version : ConfigError
  legacy_settings write_failed backup_failed : ConfigError

-- `settings[key] = value`
unfoldable pub put : Text → Json → Fields → Fields
put k v end = field k v end
put k v (field j w d) = let rest = put k v d in if k == j then field j v d else field j w rest

abbrev pub forbidden_keys : List Text
forbidden_keys =
    codes "api_key"
    ∷ codes "api_key_name"
    ∷ codes "api_secret"
    ∷ codes "bearer_token"
    ∷ codes "device_token"
    ∷ codes "key_name"
    ∷ codes "key_secret"
    ∷ codes "private_key"
    ∷ codes "raw_token"
    ∷ codes "secret"
    ∷ codes "token"
    ∷ []

unfoldable pub dash_to_underscore : ℕ → ℕ
dash_to_underscore c = if eqb c b'-' then b'_' else c

-- `str(key).strip().lower().replace("-", "_") in FORBIDDEN_CONFIG_KEYS`
unfoldable pub is_forbidden_key : Text → Bool
unfolding dash_to_underscore
is_forbidden_key key = contains forbidden_keys (map dash_to_underscore (map to_lower (strip key)))

abbrev pub is_some {ℓ} : {A : Type ℓ} → Option A → Bool
is_some none = false
is_some (some _) = true

-- `part in s`
unfoldable pub has_infix : Text → Text → Bool
has_infix part [] = part == []
has_infix part (c ∷ s) = is_some (strip_prefix part (c ∷ s)) || has_infix part s

abbrev pub key_marker : Text
key_marker = codes "PRIVATE KEY-----"

unfoldable pub is_key_material : Text → Bool
unfolding has_infix
is_key_material s = has_infix key_marker (map to_upper s)

unfoldable mutual
  unfolding is_forbidden_key is_key_material

  pub reject_secrets : Json → Result ConfigError (Unit {0})
  reject_secrets (object d) = reject_fields d
  reject_secrets (array items) = reject_items items
  reject_secrets (text s) = raise_if (is_key_material s) embedded_secret
  reject_secrets null = ok tt
  reject_secrets (boolean _) = ok tt
  reject_secrets (integer _) = ok tt
  reject_secrets (real _) = ok tt

  pub reject_fields : Fields → Result ConfigError (Unit {0})
  reject_fields end = ok tt
  reject_fields (field key child d) =
      raise_if (is_forbidden_key key) embedded_secret >> (reject_secrets child >> reject_fields d)

  pub reject_items : Items → Result ConfigError (Unit {0})
  reject_items nil = ok tt
  reject_items (cons child items) = reject_secrets child >> reject_items items
