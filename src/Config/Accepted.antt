-- ===== src/Config/Accepted.antt =====
-- What `validate_config` of config.py accepts.
use coinbase_amoled_terminal.Prelude.{
  ◌≡◌, ◌∙◌, refl, ap, sym, subst, false, Option, none, some, List, [], ◌==◌, ok, >>=-eq-ok,
  ok-injective, list_eq, nat_eq, ℕ_discrete,
}
use coinbase_amoled_terminal.Prelude.Text.{Text, codes}
use coinbase_amoled_terminal.Prelude.Json.{
  Json, Fields, null, boolean, integer, real, text, array, object, get,
}
use coinbase_amoled_terminal.Symbols.{SymbolSpec}
use coinbase_amoled_terminal.Symbols.Normal.{symbols_of, normalize_symbols_stable, clean}
use coinbase_amoled_terminal.Config.Secrets.{put, reject_secrets, reject_fields}
use coinbase_amoled_terminal.Config.Places.{
  get-put, get-put_same, put_same, field_names-put, reject_fields-put, reject_fields-get,
}
use coinbase_amoled_terminal.Config.Validate.{
  text_at, items_of, check_settings, check_root, check_devices, validate_config,
}
use coinbase_amoled_terminal.Config.Stable.{
  IsAccepted, with_symbols, check_settings-IsAccepted, with_symbols-IsAccepted,
  check_settings_accepted, check_symbols-found,
}
use coinbase_amoled_terminal.Config.Bounds.{AreBounded, check_numbers-AreBounded}
use coinbase_amoled_terminal.Config.Hidden.{Step, at_path, IsHarmless, path_clean, symbols-hidden}

other_root :
    (j : Text) (v : Json) (d : Fields)
    → (j == codes "settings") ≡ false
    → get j (put (codes "settings") v d) ≡ get j d
other_root j v d differ = rw (get-put j (codes "settings") v d, differ) refl

put_twice : (k : Text) (v : Json) (d : Fields) → put k v (put k v d) ≡ put k v d
put_twice k v d = put_same k v (put k v d) (get-put_same k v d)

check_settings-found :
    (o : Option Json) (s' : Fields)
    → check_settings o ≡ ok s'
    → (s : Fields) × (o ≡ some (object s))
unfolding check_settings
check_settings-found none s' h = cc
check_settings-found (some (object s)) s' h = (s, refl)
check_settings-found (some null) s' h = cc
check_settings-found (some (boolean _)) s' h = cc
check_settings-found (some (integer _)) s' h = cc
check_settings-found (some (real _)) s' h = cc
check_settings-found (some (text _)) s' h = cc
check_settings-found (some (array _)) s' h = cc

module _ (str_of : Json → Text) where
  text_at-put :
      (j : Text) (v : Json) (d : Fields)
      → (j == codes "settings") ≡ false
      → text_at str_of j (put (codes "settings") v d) ≡ text_at str_of j d
  text_at-put j v d differ = rw (other_root j v d differ, text_at) refl

  check_root-put :
      (v w : Json) (d : Fields)
      → get (codes "settings") d ≡ some w
      → check_root str_of (put (codes "settings") v d) ≡ check_root str_of d
  unfolding check_root list_eq nat_eq ℕ_discrete
  check_root-put v w d there =
      rw
        (
          field_names-put (codes "settings") v w d there,
          other_root (codes "schema_version") v d refl,
          other_root (codes "instance_id") v d refl,
          text_at-put (codes "created_at") v d refl,
        )
        refl

  -- The parts of an accepted configuration.
  pub record AreParts (d : Fields) (c : Json) : Type 0 where
    pub settings : Fields
    pub specs : List SymbolSpec
    pub there : get (codes "settings") d ≡ some (object settings)
    pub accepted : IsAccepted settings specs
    pub clean_fields : reject_fields d ≡ ok tt
    pub root : check_root str_of d ≡ ok tt
    pub devices : check_devices str_of (get (codes "devices") d) ≡ ok tt
    pub same : c ≡ object (put (codes "settings") (object (with_symbols specs settings)) d)

  validate_config-AreParts :
      (d : Fields) (c : Json) → validate_config str_of (object d) ≡ ok c → AreParts d c
  unfolding validate_config reject_secrets
  validate_config-AreParts d c h =
      let (_, p₁, h₁) = >>=-eq-ok (reject_fields d) _ h in
      let (_, p₂, h₂) = >>=-eq-ok (check_root str_of d) _ h₁ in
      let (found, p₃, h₃) = >>=-eq-ok (check_settings (get (codes "settings") d)) _ h₂ in
      let (_, p₄, h₄) = >>=-eq-ok (check_devices str_of (get (codes "devices") d)) _ h₃ in
      let (s, at) = check_settings-found (get (codes "settings") d) found p₃ in
      let (specs, good, made) = check_settings-IsAccepted s found (rw at at p₃) in
      record {
        settings = s;
        specs = specs;
        there = at;
        accepted = good;
        clean_fields = p₁;
        root = p₂;
        devices = p₄;
        same =
            sym (ok-injective _ c h₄) ∙ ap (λ l. object (put (codes "settings") (object l) d)) made;
      }

  validate_config_of :
      (d s : Fields)
      → reject_fields d ≡ ok tt
      → check_root str_of d ≡ ok tt
      → check_settings (get (codes "settings") d) ≡ ok s
      → check_devices str_of (get (codes "devices") d) ≡ ok tt
      → validate_config str_of (object d) ≡ ok (object (put (codes "settings") (object s) d))
  unfolding validate_config reject_secrets
  validate_config_of d s fields root settings devices = rw (fields, root, settings, devices) refl

  fields_again :
      (d : Fields) (c : Json) (a : AreParts d c)
      → reject_fields (put (codes "settings") (object (with_symbols a.specs a.settings)) d) ≡ ok tt
  unfolding reject_secrets
  fields_again d c a =
      let s = a.settings in
      let ((v, at), (raw, made)) = check_symbols-found s a.specs a.accepted.symbols in
      let (_, (distinct, _)) = normalize_symbols_stable raw (codes "USD") a.specs made in
      let symbols = symbols-hidden (clean (codes "USD")) [] a.specs distinct in
      let old = reject_fields-get (codes "settings") (object s) d a.there a.clean_fields in
      let settings =
        reject_fields-put (codes "symbols") (array (items_of (symbols_of a.specs))) v s at symbols
          old in
      reject_fields-put (codes "settings") (object (with_symbols a.specs s)) (object s) d a.there
        settings a.clean_fields

  settings_again :
      (s : Fields) (specs : List SymbolSpec)
      → IsAccepted s specs
      → check_settings (some (object (with_symbols specs s))) ≡ ok (with_symbols specs s)
  settings_again s specs good =
      check_settings_accepted (with_symbols specs s) specs (with_symbols-IsAccepted s specs good)
      ∙ ap ok (put_twice (codes "symbols") (array (items_of (symbols_of specs))) s)

  parts_again : (d : Fields) (c : Json) → AreParts d c → validate_config str_of c ≡ ok c
  unfolding list_eq nat_eq ℕ_discrete
  parts_again d c a =
      let s' = with_symbols a.specs a.settings in
      let d' = put (codes "settings") (object s') d in
      let root = check_root-put (object s') (object a.settings) d a.there ∙ a.root in
      let settings =
        ap check_settings (get-put_same (codes "settings") (object s') d)
        ∙ settings_again a.settings a.specs a.accepted in
      let devices =
        ap (check_devices str_of) (other_root (codes "devices") (object s') d refl) ∙ a.devices in
      subst (λ j. validate_config str_of j ≡ ok j) (sym a.same)
        (validate_config_of d' s' (fields_again d c a) root settings devices
          ∙ ap (λ l. ok (object l)) (put_twice (codes "settings") (object s') d))

validate_config-object :
    (str_of : Json → Text) (v c : Json)
    → validate_config str_of v ≡ ok c
    → (d : Fields) × (v ≡ object d)
unfolding validate_config
validate_config-object str_of (object d) c h = (d, refl)
validate_config-object str_of null c h = cc
validate_config-object str_of (boolean _) c h = cc
validate_config-object str_of (integer _) c h = cc
validate_config-object str_of (real _) c h = cc
validate_config-object str_of (text _) c h = cc
validate_config-object str_of (array _) c h = cc

pub parts_of :
    (str_of : Json → Text) (v c : Json)
    → validate_config str_of v ≡ ok c
    → (d : Fields) × AreParts str_of d c
parts_of str_of v c h =
    let (d, e) = validate_config-object str_of v c h in
    (d, validate_config-AreParts str_of d c (rw e at h))

-- A configuration that the check returns is returned by the check as it is.
pub validate_config_again :
    (str_of : Json → Text) (v c : Json)
    → validate_config str_of v ≡ ok c
    → validate_config str_of c ≡ ok c
validate_config_again str_of v c h = let (d, a) = parts_of str_of v c h in parts_again str_of d c a

-- In a configuration that the check returns, whatever path of names and indices leads to a value, that
-- value is no text with the marker of a private key and no object with a field named as a secret.
pub no_secret_anywhere :
    (str_of : Json → Text) (v c : Json) (path : List Step) (w : Json)
    → validate_config str_of v ≡ ok c
    → at_path path c ≡ some w
    → IsHarmless w
unfolding reject_secrets
no_secret_anywhere str_of v c path w h at =
    let (d, a) = parts_of str_of v c h in
    path_clean path c w at
      (subst (λ j. reject_secrets j ≡ ok tt) (sym a.same) (fields_again str_of d c a))

-- The settings of a configuration that the check returns have each of the eight numbers within its
-- bounds, and the age at which the feed is refused is not below the age at which it is stale.
pub numbers_bounded :
    (str_of : Json → Text) (v c : Json)
    → validate_config str_of v ≡ ok c
    → (d settings : Fields) × (c ≡ object d)
      × (get (codes "settings") d ≡ some (object settings))
      × AreBounded settings
numbers_bounded str_of v c h =
    let (d, a) = parts_of str_of v c h in
    let s' = with_symbols a.specs a.settings in
    let good = with_symbols-IsAccepted a.settings a.specs a.accepted in
    (
      put (codes "settings") (object s') d,
      s',
      a.same,
      get-put_same (codes "settings") (object s') d,
      check_numbers-AreBounded s' good.numbers,
    )
