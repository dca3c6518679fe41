-- ===== src/Tests/Configs.antt =====
-- Concrete configurations and directories for config.py.
use coinbase_amoled_terminal.Symbols.{is_product}
use coinbase_amoled_terminal.Prelude.Slices.{split_first}
use coinbase_amoled_terminal.Symbols.{is_base}
use coinbase_amoled_terminal.Symbols.{normalize_symbol}
use coinbase_amoled_terminal.Symbols.{normalize_symbols}
use coinbase_amoled_terminal.Prelude.Json.{has_exactly}
use coinbase_amoled_terminal.Config.Validate.{check_text}
use coinbase_amoled_terminal.Config.Validate.{is_instance_id}
use coinbase_amoled_terminal.Prelude.Int.{int_eq}
use coinbase_amoled_terminal.Prelude.Text.{to_upper}
use coinbase_amoled_terminal.Prelude.Slices.{strip_prefix}
use coinbase_amoled_terminal.Prelude.Text.{to_lower}
use coinbase_amoled_terminal.Prelude.Text.{strip}
use coinbase_amoled_terminal.Prelude.{
  ℕ, ◌≡◌, ap, arith, ◌==◌, if◌then◌else◌, length, length-replicate, refl, true, false, Option, none,
  some, List, [], ◌∷◌, ◌++◌, ok, err, inl, list_eq, nat_eq, ℕ_discrete, replicate, contains,
}
use coinbase_amoled_terminal.Prelude.Text.{Text, codes}
use coinbase_amoled_terminal.Prelude.Int.{pos}
use coinbase_amoled_terminal.Prelude.Json.{
  Json, integer, text, Fields, array, object, nil, cons, end, field, get,
}
use coinbase_amoled_terminal.Config.Secrets.{put, reject_secrets, embedded_secret, is_key_material}
use coinbase_amoled_terminal.Config.Validate.{validate_config, items_of}
use coinbase_amoled_terminal.Config.Store.{
  default_settings, Store, Draws, Faults, saved, cut_at, Call, loading, initializing, after_all,
  load, initialize,
}
use coinbase_amoled_terminal.Config.Bounds.{AreBounded}
use coinbase_amoled_terminal.Config.Hidden.{member, index}
use coinbase_amoled_terminal.Config.Names.{free_name, free_name-finds}
use coinbase_amoled_terminal.Config.Kept.{IsKept, after_all-IsKept}
use coinbase_amoled_terminal.Config.Accepted.{
  validate_config_again, no_secret_anywhere, numbers_bounded,
}

abbrev shown : Json → Text
shown _ = []

abbrev token : Text
token = replicate 24 b'A'

abbrev now : Text
now = codes "2026-01-02T03:04:05Z"

abbrev typed : List Text → Json
typed symbols = object (
    field (codes "schema_version") (integer (pos 1)) (
      field (codes "instance_id") (text (codes "bridge_" ++ token)) (
        field (codes "created_at") (text now) (
          field (codes "settings")
            (object (put (codes "symbols") (array (items_of symbols)) default_settings))
            (field (codes "devices") (object end) end)))))

abbrev by_hand : Json
by_hand = typed (codes " btc " ∷ codes "SOL/USD" ∷ codes "xbt" ∷ [])

abbrev tidy : Json
tidy = typed (codes "BTC" ∷ codes "SOL" ∷ [])

by_hand_accepted : validate_config shown by_hand ≡ ok tidy
unfolding validate_config put list_eq nat_eq ℕ_discrete reject_secrets strip to_lower strip_prefix
    to_upper get int_eq is_instance_id check_text has_exactly normalize_symbols normalize_symbol
    is_base split_first is_product
by_hand_accepted = refl

validate_config_again_example : validate_config shown tidy ≡ ok tidy
validate_config_again_example = validate_config_again shown by_hand tidy by_hand_accepted

no_secret_anywhere_example : is_key_material (codes "SOL") ≡ false
unfolding get list_eq nat_eq ℕ_discrete put items_of
no_secret_anywhere_example =
    no_secret_anywhere shown by_hand tidy
      (member (codes "settings") ∷ member (codes "symbols") ∷ index 1 ∷ []) (text (codes "SOL"))
      by_hand_accepted refl

-- A field or a text that the check refuses.
token_refused :
    reject_secrets (object (field (codes " Bearer-Token ") (text []) end)) ≡ err embedded_secret
unfolding reject_secrets list_eq strip nat_eq ℕ_discrete to_lower
token_refused = refl

key_refused :
    reject_secrets (array (cons (text (codes "--begin private key-----")) nil))
    ≡ err embedded_secret
unfolding reject_secrets strip_prefix to_upper
key_refused = refl

numbers_bounded_example :
    (d settings : Fields) × (tidy ≡ object d)
    × (get (codes "settings") d ≡ some (object settings))
    × AreBounded settings
numbers_bounded_example = numbers_bounded shown by_hand tidy by_hand_accepted

-- Numbers written in strokes.
abbrev stroke : ℕ
stroke = b'1'

strokes-injective : (i j : ℕ) → replicate i stroke ≡ replicate j stroke → i ≡ j
strokes-injective i j h =
    omega (arith, ap length h, length-replicate i stroke, length-replicate j stroke)

abbrev strokes : ℕ → Text
strokes n = replicate n stroke

free_name-finds_example :
    (found : Text) × (free_name strokes (codes "b") (codes "b-1" ∷ codes "b" ∷ []) ≡ some found)
    × (contains (codes "b-1" ∷ codes "b" ∷ []) found ≡ false)
free_name-finds_example =
    free_name-finds strokes strokes-injective (codes "b") (codes "b-1" ∷ codes "b" ∷ [])

next_free : free_name strokes (codes "b") (codes "b-1" ∷ codes "b" ∷ []) ≡ some (codes "b-11")
unfolding free_name list_eq nat_eq ℕ_discrete
next_free = refl

-- A legacy file `old`; every configuration is written the same.
abbrev parsed : Text → Option Json
parsed s =
    if s == codes "old"
    then some (
        object (
          field (codes "settings") (object (field (codes "rate_burst") (integer (pos 7)) end)) end))
    else none

abbrev draws : Draws
draws = record { token = token; now = now; backup_base = codes "b" }

abbrev sound : Faults
sound = record { write = false; backup = saved }

abbrev broken : Faults
broken = record { write = true; backup = cut_at 2 }

abbrev directory : Store
directory = record { file = some (codes "old"); backups = [] }

abbrev calls : List Call
calls = loading draws broken ∷ initializing draws sound ∷ loading draws sound ∷ []

after_all-IsKept_example :
    IsKept parsed shown shown strokes
      (some (codes "old"))
      (after_all parsed shown shown strokes calls directory)
after_all-IsKept_example =
    after_all-IsKept parsed shown shown strokes (some (codes "old")) calls directory
      (record { file = inl refl; clean = tt; names = tt })

-- The backup that was cut short stays beside the one that was saved.
legacy_migrated : after_all parsed shown shown strokes calls directory ≡ record {
  file = some (codes "\n");
  backups = (codes "b-1", codes "old") ∷ (codes "b", codes "ol") ∷ [];
}
unfolding load initialize list_eq nat_eq ℕ_discrete get strip to_lower strip_prefix to_upper int_eq
    is_instance_id check_text has_exactly normalize_symbols normalize_symbol is_base split_first
legacy_migrated = refl
