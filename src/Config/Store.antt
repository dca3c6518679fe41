-- ===== src/Config/Store.antt =====
-- `ConfigStore` of config.py. The state is the data directory: the configuration file and the backups.
-- An operation holds the exclusive lock, and returns its result beside the directory that it leaves,
-- also where it raises.
use coinbase_amoled_terminal.Prelude.{
  ℕ, zero, suc, Bool, true, Option, none, some, List, [], ◌∷◌, ◌++◌, ltb, eqb, if◌then◌else◌,
  length, take, Result, ok, err, ◌>>=◌, ◌>>◌, raise_if, list_eq, nat_eq,
}
use coinbase_amoled_terminal.Prelude.Dict.{Dict, keys}
use coinbase_amoled_terminal.Prelude.Text.{Text, codes}
use coinbase_amoled_terminal.Prelude.Int.{pos}
use coinbase_amoled_terminal.Prelude.Json.{
  Json, Fields, boolean, integer, text, array, object, end, field, get,
}
use coinbase_amoled_terminal.Config.Secrets.{
  ConfigError, root_not_object, not_initialized, file_too_large, not_json, invalid_version,
  newer_version, legacy_settings, write_failed, backup_failed, put, reject_secrets, is_some,
}
use coinbase_amoled_terminal.Config.Validate.{validate_config, items_of}
use coinbase_amoled_terminal.Config.Names.{free_name}

abbrev pub max_config_bytes : ℕ
max_config_bytes = 1048576

abbrev pub default_symbols : List Text
default_symbols = codes "BTC" ∷ codes "SOL" ∷ codes "XLM" ∷ codes "HYPE" ∷ codes "ETH" ∷ []

abbrev number : ℕ → Json
number n = integer (pos n)

abbrev pub default_settings : Fields
default_settings = field (codes "symbols") (array (items_of default_symbols)) (
    field (codes "quote_currency") (text (codes "USD")) (
      field (codes "refresh_seconds") (number 15) (
        field (codes "stale_after_seconds") (number 90) (
          field (codes "max_stale_seconds") (number 600) (
            field (codes "upstream_timeout_seconds") (number 8) (
              field (codes "include_cfm_positions") (boolean true) (
                field (codes "include_intx_positions") (boolean true) (
                  field (codes "ip_rate_per_minute") (number 120) (
                    field (codes "device_rate_per_minute") (number 60) (
                      field (codes "rate_burst") (number 20)
                        (field (codes "max_concurrent_requests") (number 16) end)))))))))))

-- `default_config()`, with the random part of the identity and the time.
abbrev pub default_config : Text → Text → Json
default_config token now = object (
    field (codes "schema_version") (number 1) (
      field (codes "instance_id") (text (codes "bridge_" ++ token)) (
        field (codes "created_at") (text now) (
          field (codes "settings") (object default_settings)
            (field (codes "devices") (object end) end)))))

-- `d.setdefault(key, value)`
unfoldable pub set_default : Text → Json → Fields → Fields
unfolding put
set_default k v d = elim (get k d) [ none ↦ put k v d | some _ ↦ d ]

-- `d.update(e)`
unfoldable pub update_with : Fields → Fields → Fields
update_with end d = d
update_with (field k v e) d = update_with e (put k v d)

abbrev incoming : Option Json → Result ConfigError Fields
incoming none = ok end
incoming (some (object settings)) = ok settings
incoming (some _) = err legacy_settings

-- `_migrate` from the version: from 0 one round of the loop, from 1 none.
unfoldable pub migrate : ℕ → Text → Text → Fields → Result ConfigError Fields
unfolding set_default update_with
migrate zero token now d =
    let d₁ = put (codes "schema_version") (number 1) d in
    let d₂ = set_default (codes "instance_id") (text (codes "bridge_" ++ token)) d₁ in
    let d₃ = set_default (codes "created_at") (text now) d₂ in
    do
      settings ← incoming (get (codes "settings") d₃)
      let merged = object (update_with settings default_settings)
      ok (set_default (codes "devices") (object end) (put (codes "settings") merged d₃))
migrate (suc _) token now d = ok d

-- `parsed.get("schema_version", 0)`, which is to be an integer that is not negative.
unfoldable pub version_of : Option Json → Result ConfigError ℕ
version_of none = ok 0
version_of (some (integer (pos n))) = ok n
version_of (some _) = err invalid_version

pub record Store : Type 0 where
  pub file : Option Text
  pub backups : Dict Text Text

-- How far the writing of a backup gets: to its end, not to the new file, or to so many bytes in it.
pub data Saving : Type 0 where
  saved not_opened : Saving
  cut_at : ℕ → Saving

-- Which of the writes of a call raises.
pub record Faults : Type 0 where
  pub write : Bool
  pub backup : Saving

-- What a call draws: the random part of an identity, the time, and the name of a backup of this time.
pub record Draws : Type 0 where
  pub token : Text
  pub now : Text
  pub backup_base : Text

-- The fields of the parsed configuration, with its bytes.
abbrev pub as_object : Json → Text → Result ConfigError (Fields × Text)
as_object (object d) raw = ok (d, raw)
as_object _ raw = err root_not_object

abbrev pub Outcome : Type 0
Outcome = Result ConfigError Json × Store

-- A call of the store by any part of the bridge.
pub data Call : Type 0 where
  loading : Draws → Faults → Call
  initializing : Draws → Faults → Call
  replacing : Json → Faults → Call
  updating : (Json → Result ConfigError Json) → Draws → Faults → Call

-- The JSON library, `str` and how it shows a value and a number are Python's.
module _ (loads : Text → Option Json) (dumps str_of : Json → Text) (str_of_nat : ℕ → Text) where
  -- `_read_unlocked`: the parsed configuration and its bytes.
  unfoldable pub read : Store → Result ConfigError (Fields × Text)
  read s = elim s.file [
    | none ↦ err not_initialized
    | some raw ↦ do
      raise_if (ltb max_config_bytes (length raw)) file_too_large
      parsed ← elim (loads raw) [ none ↦ err not_json | some v ↦ ok v ]
      as_object parsed raw
  ]

  -- `_write_unlocked`: the new file, moved into the place of the old one.
  unfoldable pub write : Json → Faults → Store → Outcome
  write config f s =
      let payload = dumps config ++ codes "\n" in
      if ltb max_config_bytes (length payload)
      then (err file_too_large, s)
      else if f.write
      then (err write_failed, s)
      else (ok config, record s { file = some payload })

  -- `_write_backup_unlocked`
  unfoldable pub write_backup :
      Text → Draws → Faults → Store → Result ConfigError (Unit {0}) × Store
  unfolding free_name
  write_backup payload draws f s = elim (free_name str_of_nat draws.backup_base (keys s.backups)) [
    | none ↦ (err backup_failed, s)
    | some name ↦ elim f.backup [
      | saved ↦ (ok tt, record s { backups = (name, payload) ∷ s.backups })
      | not_opened ↦ (err backup_failed, s)
      | cut_at n ↦ (err backup_failed, record s { backups = (name, take n payload) ∷ s.backups })
    ]
  ]

  -- The check of a legacy configuration, and what it becomes.
  unfoldable pub prepare : ℕ → Fields → Draws → Result ConfigError Json
  unfolding migrate reject_secrets
  prepare version parsed draws = do
    reject_secrets (object parsed)
    migrated ← migrate version draws.token draws.now parsed
    validate_config str_of (object migrated)

  -- The backup of the old bytes and the write of what they became.
  unfoldable pub migration : Text → Json → Draws → Faults → Store → Outcome
  unfolding write write_backup
  migration raw migrated draws f s =
      let (answer, s') = write_backup raw draws f s in
      elim answer [ err e ↦ (err e, s') | ok _ ↦ write migrated f s' ]

  -- `_load_and_migrate_unlocked` behind the read.
  unfoldable pub admit : Fields → Text → Draws → Faults → Store → Outcome
  unfolding version_of validate_config prepare migration
  admit parsed raw draws f s = elim (version_of (get (codes "schema_version") parsed)) [
    | err e ↦ (err e, s)
    | ok version ↦
        if ltb 1 version
        then (err newer_version, s)
        else if eqb version 1
        then (validate_config str_of (object parsed), s)
        else elim (prepare version parsed draws) [
          | err e ↦ (err e, s)
          | ok migrated ↦ migration raw migrated draws f s
        ]
  ]

  -- `load`
  unfoldable pub load : Draws → Faults → Store → Outcome
  unfolding read admit
  load draws f s = elim (read s) [
    | err e ↦ (err e, s)
    | ok (parsed, raw) ↦ admit parsed raw draws f s
  ]

  -- `validate_config` and the write.
  unfoldable pub replace : Json → Faults → Store → Outcome
  unfolding validate_config write
  replace config f s = elim (validate_config str_of config) [
    | err e ↦ (err e, s)
    | ok v ↦ write v f s
  ]

  unfoldable pub initialize : Draws → Faults → Store → Outcome
  unfolding load replace
  initialize draws f s =
      if is_some s.file then load draws f s else replace (default_config draws.token draws.now) f s

  -- `update`, with a mutator that may raise.
  unfoldable pub update : (Json → Result ConfigError Json) → Draws → Faults → Store → Outcome
  unfolding load replace
  update mutator draws f s =
      let (loaded, s') = load draws f s in
      elim loaded [
        | err e ↦ (err e, s')
        | ok config ↦ elim (mutator config) [
          | err e ↦ (err e, s')
          | ok candidate ↦ replace candidate f s'
        ]
      ]

  abbrev pub after : Call → Store → Store
  after (loading draws f) s = (load draws f s).1
  after (initializing draws f) s = (initialize draws f s).1
  after (replacing config f) s = (replace config f s).1
  after (updating mutator draws f) s = (update mutator draws f s).1

  abbrev pub after_all : List Call → Store → Store
  after_all [] s = s
  after_all (call ∷ calls) s = after_all calls (after call s)
