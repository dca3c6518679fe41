-- ===== src/Config/Kept.antt =====
-- What the calls of the configuration store leave in the data directory, config.py.
use coinbase_amoled_terminal.Prelude.{
  arith, eqb, raise_if, List, Result, ℕ, zero, suc, ◌≡◌, ◌⊎◌, refl, ap, sym, subst, false, Option,
  some, [], ◌∷◌, ◌++◌, ltb, contains, length, take, drop, ◌∙◌, ok, list_eq, nat_eq, inl, inr,
  Bool-cases, Option-cases, Result-cases, >>=-eq-ok,
}
use coinbase_amoled_terminal.Prelude.Dict.{Dict, keys, NodupKeys}
use coinbase_amoled_terminal.Prelude.Text.{Text, codes}
use coinbase_amoled_terminal.Prelude.Json.{
  null, boolean, integer, real, text, array, get, Json, Fields, object,
}
use coinbase_amoled_terminal.Config.Secrets.{is_some, file_too_large, ConfigError, reject_secrets}
use coinbase_amoled_terminal.Config.Validate.{validate_config}
use coinbase_amoled_terminal.Config.Accepted.{validate_config_again}
use coinbase_amoled_terminal.Config.Names.{free_name, next_name-free}
use coinbase_amoled_terminal.Config.Store.{
  as_object, replacing, updating, initializing, initialize, default_config, loading, update, after,
  after_all, version_of, Call, admit, load, read, replace, Store, Saving, saved, not_opened, cut_at,
  max_config_bytes, Faults, Draws, write, write_backup, migrate, migration, prepare,
}

append-empty : (s : Text) → s ++ [] ≡ s
append-empty [] = refl
append-empty (c ∷ s) = ap (λ r. c ∷ r) (append-empty s)

append-take-drop : (n : ℕ) (s : Text) → take n s ++ drop n s ≡ s
append-take-drop zero s = refl
append-take-drop (suc n) [] = refl
append-take-drop (suc n) (c ∷ s) = ap (λ r. c ∷ r) (append-take-drop n s)

Saving-cases : (f : Saving) → (f ≡ saved) ⊎ ((f ≡ not_opened) ⊎ ((n : ℕ) × (f ≡ cut_at n)))
Saving-cases saved = inl refl
Saving-cases not_opened = inr (inl refl)
Saving-cases (cut_at n) = inr (inr (n, refl))

module _ (loads : Text → Option Json) (dumps str_of : Json → Text) (str_of_nat : ℕ → Text) where
  -- The bytes of a configuration that the check accepts.
  abbrev pub IsWritten : Option Text → Type 0
  IsWritten file =
      (c : Json) × (validate_config str_of c ≡ ok c) × (file ≡ some (dumps c ++ codes "\n"))

  -- The bytes of a backup are the beginning of a text that holds no secret.
  abbrev pub IsClean : Text → Type 0
  IsClean raw =
      (rest : Text) × (v : Json) × (loads (raw ++ rest) ≡ some v) × (reject_secrets v ≡ ok tt)

  abbrev pub AreClean : Dict Text Text → Type 0
  AreClean [] = Unit
  AreClean ((_, raw) ∷ d) = IsClean raw × AreClean d

  -- The directory, against the file that it began with.
  pub record IsKept (start : Option Text) (s : Store) : Type 0 where
    pub file : (s.file ≡ start) ⊎ IsWritten s.file
    pub clean : AreClean s.backups
    pub names : NodupKeys s.backups

  write_cases :
      (c : Json) (f : Faults) (s : Store)
      → ((write loads dumps str_of str_of_nat c f s).1 ≡ s)
        ⊎ ((write loads dumps str_of str_of_nat c f s).1
            ≡ record s { file = some (dumps c ++ codes "\n") })
  unfolding write
  write_cases c f s = elim (Bool-cases (ltb max_config_bytes (length (dumps c ++ codes "\n")))) [
    | inl e ↦ inl (rw (e, write) refl)
    | inr e ↦ elim (Bool-cases f.write) [
      | inl e' ↦ inl (rw (e, e', write) refl)
      | inr e' ↦ inr (rw (e, e', write) refl)
    ]
  ]

  write-IsKept :
      (start : Option Text) (c : Json) (f : Faults) (s : Store)
      → validate_config str_of c ≡ ok c
      → IsKept start s
      → IsKept start (write loads dumps str_of str_of_nat c f s).1
  write-IsKept start c f s good k = elim (write_cases c f s) [
    | inl e ↦ subst (IsKept start) (sym e) k
    | inr e ↦
        subst (IsKept start) (sym e)
          (record { file = inr (c, good, refl); clean = k.clean; names = k.names })
  ]

  add_backup :
      (start : Option Text) (name raw : Text) (s : Store)
      → contains (keys s.backups) name ≡ false
      → IsClean raw
      → IsKept start s
      → IsKept start (record s { backups = (name, raw) ∷ s.backups })
  add_backup start name raw s fresh fine k = record {
    file = k.file;
    clean = (fine, k.clean);
    names = (fresh, k.names);
  }

  write_backup-IsKept :
      (start : Option Text) (raw : Text) (v : Json) (draws : Draws) (f : Faults) (s : Store)
      → loads raw ≡ some v
      → reject_secrets v ≡ ok tt
      → IsKept start s
      → IsKept start (write_backup loads dumps str_of str_of_nat raw draws f s).1
  unfolding write_backup free_name
  write_backup-IsKept start raw v draws f s parsed fine k =
      elim (Option-cases (free_name str_of_nat draws.backup_base (keys s.backups))) [
        | inl e ↦ rw (e, write_backup) k
        | inr (name, e) ↦
            let fresh =
              next_name-free str_of_nat (suc (suc (length (keys s.backups)))) draws.backup_base
                (keys s.backups) draws.backup_base 1 name e in
            elim (Saving-cases f.backup) [
              | inl at ↦
                  rw (e, at, write_backup)
                    (add_backup start name raw s fresh
                      ([], v, ap loads (append-empty raw) ∙ parsed, fine) k)
              | inr (inl at) ↦ rw (e, at, write_backup) k
              | inr (inr (n, at)) ↦
                  rw (e, at, write_backup)
                    (add_backup start name (take n raw) s fresh
                      (drop n raw, v, ap loads (append-take-drop n raw) ∙ parsed, fine) k)
            ]
      ]

  prepare-facts :
      (version : ℕ) (parsed : Fields) (draws : Draws) (c : Json)
      → prepare loads dumps str_of str_of_nat version parsed draws ≡ ok c
      → (reject_secrets (object parsed) ≡ ok tt) × (validate_config str_of c ≡ ok c)
  unfolding prepare
  prepare-facts version parsed draws c h =
      let (_, clean, h₁) = >>=-eq-ok (reject_secrets (object parsed)) _ h in
      let (migrated, _, h₂) = >>=-eq-ok (migrate version draws.token draws.now parsed) _ h₁ in
      (clean, validate_config_again str_of (object migrated) c h₂)

  migration-IsKept :
      (start : Option Text) (version : ℕ) (parsed : Fields) (raw : Text) (c : Json) (draws : Draws)
      (f : Faults) (s : Store)
      → loads raw ≡ some (object parsed)
      → prepare loads dumps str_of str_of_nat version parsed draws ≡ ok c
      → IsKept start s
      → IsKept start (migration loads dumps str_of str_of_nat raw c draws f s).1
  unfolding migration
  migration-IsKept start version parsed raw c draws f s found h k =
      let (clean, good) = prepare-facts version parsed draws c h in
      let saved = write_backup-IsKept start raw (object parsed) draws f s found clean k in
      let (answer, s') = write_backup loads dumps str_of str_of_nat raw draws f s in
      elim (Result-cases (write_backup loads dumps str_of str_of_nat raw draws f s).0) [
        | inl (_, e) ↦ rw (e, migration) (write-IsKept start c f _ good saved)
        | inr (_, e) ↦ rw (e, migration) saved
      ]

  admit-IsKept :
      (start : Option Text) (parsed : Fields) (raw : Text) (draws : Draws) (f : Faults) (s : Store)
      → loads raw ≡ some (object parsed)
      → IsKept start s
      → IsKept start (admit loads dumps str_of str_of_nat parsed raw draws f s).1
  unfolding admit
  admit-IsKept start parsed raw draws f s found k =
      elim (Result-cases (version_of (get (codes "schema_version") parsed))) [
        | inr (_, e) ↦ rw (e, admit) k
        | inl (version, e) ↦ elim (Bool-cases (ltb 1 version)) [
          | inl newer ↦ rw (e, newer, admit) k
          | inr not_newer ↦ elim (Bool-cases (eqb version 1)) [
            | inl current ↦ rw (e, not_newer, current, admit) k
            | inr old ↦
                elim (Result-cases (prepare loads dumps str_of str_of_nat version parsed draws)) [
                  | inr (_, p) ↦ rw (e, not_newer, old, p, admit) k
                  | inl (c, p) ↦
                      rw (e, not_newer, old, p, admit)
                        (migration-IsKept start version parsed raw c draws f s found p k)
                ]
          ]
        ]
      ]

  elim_object :
      (content : Text) (v : Json) (parsed : Fields) (raw : Text)
      → loads content ≡ some v
      → as_object v content ≡ ok (parsed, raw)
      → loads raw ≡ some (object parsed)
  elim_object content (object d) parsed raw found h = ground (arith, found)
  elim_object content null parsed raw found h = cc
  elim_object content (boolean _) parsed raw found h = cc
  elim_object content (integer _) parsed raw found h = cc
  elim_object content (real _) parsed raw found h = cc
  elim_object content (text _) parsed raw found h = cc
  elim_object content (array _) parsed raw found h = cc

  read-found :
      (s : Store) (parsed : Fields) (raw : Text)
      → read loads dumps str_of str_of_nat s ≡ ok (parsed, raw)
      → loads raw ≡ some (object parsed)
  unfolding read
  read-found s parsed raw h = elim (Option-cases s.file) [
    | inl e ↦ let bad = rw (e, read) at h in cc
    | inr (content, e) ↦
        let h₁ = rw (e, read) at h in
        let (_, _, h₂) =
          >>=-eq-ok (raise_if (ltb max_config_bytes (length content)) file_too_large) _ h₁ in
        elim (Option-cases (loads content)) [
          | inl e' ↦ let bad = rw e' at h₂ in cc
          | inr (v, e') ↦ elim_object content v parsed raw e' (rw e' at h₂)
        ]
  ]

  load-IsKept :
      (start : Option Text) (draws : Draws) (f : Faults) (s : Store)
      → IsKept start s
      → IsKept start (load loads dumps str_of str_of_nat draws f s).1
  unfolding load
  load-IsKept start draws f s k = elim (Result-cases (read loads dumps str_of str_of_nat s)) [
    | inr (_, e) ↦ rw (e, load) k
    | inl ((parsed, raw), e) ↦
        rw (e, load) (admit-IsKept start parsed raw draws f s (read-found s parsed raw e) k)
  ]

  replace-IsKept :
      (start : Option Text) (config : Json) (f : Faults) (s : Store)
      → IsKept start s
      → IsKept start (replace loads dumps str_of str_of_nat config f s).1
  unfolding replace
  replace-IsKept start config f s k = elim (Result-cases (validate_config str_of config)) [
    | inr (_, e) ↦ rw (e, replace) k
    | inl (c, e) ↦
        rw (e, replace) (write-IsKept start c f s (validate_config_again str_of config c e) k)
  ]

  update-IsKept :
      (start : Option Text) (mutator : Json → Result ConfigError Json) (draws : Draws) (f : Faults)
      (s : Store)
      → IsKept start s
      → IsKept start (update loads dumps str_of str_of_nat mutator draws f s).1
  unfolding update
  update-IsKept start mutator draws f s k =
      let loaded = load-IsKept start draws f s k in
      elim (Result-cases (load loads dumps str_of str_of_nat draws f s).0) [
        | inr (_, e) ↦ rw (e, update) loaded
        | inl (config, e) ↦ elim (Result-cases (mutator config)) [
          | inr (_, m) ↦ rw (e, m, update) loaded
          | inl (candidate, m) ↦ rw (e, m, update) (replace-IsKept start candidate f _ loaded)
        ]
      ]

  after-IsKept :
      (start : Option Text) (call : Call) (s : Store)
      → IsKept start s
      → IsKept start (after loads dumps str_of str_of_nat call s)
  unfolding initialize
  after-IsKept start (loading draws f) s k = load-IsKept start draws f s k
  after-IsKept start (replacing config f) s k = replace-IsKept start config f s k
  after-IsKept start (updating mutator draws f) s k = update-IsKept start mutator draws f s k
  after-IsKept start (initializing draws f) s k = elim (Bool-cases (is_some s.file)) [
    | inl e ↦ rw (e, after, initialize) (load-IsKept start draws f s k)
    | inr e ↦
        rw (e, after, initialize)
          (replace-IsKept start (default_config draws.token draws.now) f s k)
  ]

  -- After any sequence of loads, initializations, replacements and updates, whatever of their writes
  -- fails, the configuration file is the one at the start or holds a configuration that the check
  -- returns as it is; every backup, also one cut short, is the beginning of a text without secrets,
  -- and no two backups share a name. The directory begins with such backups.
  pub after_all-IsKept :
      (start : Option Text) (calls : List Call) (s : Store)
      → IsKept start s
      → IsKept start (after_all loads dumps str_of str_of_nat calls s)
  after_all-IsKept start [] s k = k
  after_all-IsKept start (call ∷ calls) s k =
      after_all-IsKept start calls (after loads dumps str_of str_of_nat call s)
        (after-IsKept start call s k)
