-- ===== src/Config/Stable.antt =====
-- Checking an accepted configuration again changes nothing, config.py.
use coinbase_amoled_terminal.Prelude.{
  ◌≡◌, ◌∙◌, refl, ap, sym, Bool, true, false, not, Option, none, some, List, [], ◌∷◌, ◌==◌, arith,
  ok, Result-cases, inl, inr, >>=-eq-ok, ok-injective, raise_if, raise_if-ok, list_eq, nat_eq,
  ℕ_discrete,
}
use coinbase_amoled_terminal.Prelude.Text.{Text, codes}
use coinbase_amoled_terminal.Prelude.Json.{
  Json, Fields, array, object, get, field_names, has_exactly, to_list,
}
use coinbase_amoled_terminal.Symbols.{SymbolSpec, normalize_symbols}
use coinbase_amoled_terminal.Symbols.Normal.{symbols_of, normalize_symbols_stable}
use coinbase_amoled_terminal.Config.Secrets.{put, settings_fields, invalid_quote}
use coinbase_amoled_terminal.Config.Places.{get-put, get-put_same, field_names-put}
use coinbase_amoled_terminal.Config.Validate.{
  setting_names, is_usd, texts_of, symbol_texts, items_of, bounded_int, bool_setting, check_symbols,
  check_numbers, check_settings,
}

texts_of-items_of : (l : List Text) → texts_of (to_list (items_of l)) ≡ some l
unfolding texts_of items_of
texts_of-items_of [] = refl
texts_of-items_of (s ∷ l) = ground (arith, texts_of-items_of l)

-- A setting that is not the list of symbols is read as before.
get_other :
    (j : Text) (v : Json) (s : Fields)
    → (j == codes "symbols") ≡ false
    → get j (put (codes "symbols") v s) ≡ get j s
get_other j v s differ = rw (get-put j (codes "symbols") v s, differ) refl

check_numbers-put :
    (v : Json) (s : Fields) → check_numbers (put (codes "symbols") v s) ≡ check_numbers s
unfolding check_numbers bounded_int list_eq nat_eq ℕ_discrete
check_numbers-put v s =
    rw
      (
        get_other (codes "refresh_seconds") v s refl,
        get_other (codes "stale_after_seconds") v s refl,
        get_other (codes "max_stale_seconds") v s refl,
        get_other (codes "upstream_timeout_seconds") v s refl,
        get_other (codes "ip_rate_per_minute") v s refl,
        get_other (codes "device_rate_per_minute") v s refl,
        get_other (codes "rate_burst") v s refl,
        get_other (codes "max_concurrent_requests") v s refl,
      )
      refl

symbol_texts-found :
    (o : Option Json) (l : List Text) → symbol_texts o ≡ ok l → (v : Json) × (o ≡ some v)
unfolding symbol_texts
symbol_texts-found none l h = cc
symbol_texts-found (some v) l h = (v, refl)

pub check_symbols-found :
    (s : Fields) (specs : List SymbolSpec)
    → check_symbols s ≡ ok specs
    → ((v : Json) × (get (codes "symbols") s ≡ some v))
      × ((l : List Text) × (normalize_symbols l (codes "USD") ≡ ok specs))
unfolding check_symbols
check_symbols-found s specs h =
    let (raw, found, h₁) = >>=-eq-ok (symbol_texts (get (codes "symbols") s)) _ h in
    elim (Result-cases (normalize_symbols raw (codes "USD"))) [
      | inl (made, e) ↦ (
        symbol_texts-found (get (codes "symbols") s) raw found,
        (raw, e ∙ ap ok (ok-injective made specs (rw e at h₁))),
      )
      | inr (e, fails) ↦ let bad = rw fails at h₁ in cc
    ]

symbol_texts-items_of : (l : List Text) → symbol_texts (some (array (items_of l))) ≡ ok l
unfolding symbol_texts
symbol_texts-items_of l = rw (texts_of-items_of l, symbol_texts) refl

check_symbols-put :
    (s : Fields) (specs : List SymbolSpec)
    → check_symbols s ≡ ok specs
    → check_symbols (put (codes "symbols") (array (items_of (symbols_of specs))) s) ≡ ok specs
unfolding check_symbols
check_symbols-put s specs h =
    let (_, (raw, made)) = check_symbols-found s specs h in
    let (_, (_, again)) = normalize_symbols_stable raw (codes "USD") specs made in
    ground (
      arith,
      get-put_same (codes "symbols") (array (items_of (symbols_of specs))) s,
      symbol_texts-items_of (symbols_of specs),
      again,
    )

pub record IsAccepted (s : Fields) (specs : List SymbolSpec) : Type 0 where
  pub names : has_exactly (field_names s) setting_names ≡ true
  pub usd : is_usd (get (codes "quote_currency") s) ≡ true
  pub symbols : check_symbols s ≡ ok specs
  pub numbers : check_numbers s ≡ ok tt
  pub cfm : bool_setting s (codes "include_cfm_positions") ≡ ok tt
  pub intx : bool_setting s (codes "include_intx_positions") ≡ ok tt

abbrev pub with_symbols : List SymbolSpec → Fields → Fields
with_symbols specs s = put (codes "symbols") (array (items_of (symbols_of specs))) s

is_true : (b : Bool) → not b ≡ false → b ≡ true
is_true true h = refl
is_true false h = cc

pub check_settings-IsAccepted :
    (s s' : Fields)
    → check_settings (some (object s)) ≡ ok s'
    → (specs : List SymbolSpec) × IsAccepted s specs × (s' ≡ with_symbols specs s)
unfolding check_settings
check_settings-IsAccepted s s' h =
    let (_, p₁, h₁) =
      >>=-eq-ok (raise_if (not (has_exactly (field_names s) setting_names)) settings_fields) _ h in
    let (_, p₂, h₂) =
      >>=-eq-ok (raise_if (not (is_usd (get (codes "quote_currency") s))) invalid_quote) _ h₁ in
    let (specs, p₃, h₃) = >>=-eq-ok (check_symbols s) _ h₂ in
    let (_, p₄, h₄) = >>=-eq-ok (check_numbers s) _ h₃ in
    let (_, p₅, h₅) = >>=-eq-ok (bool_setting s (codes "include_cfm_positions")) _ h₄ in
    let (_, p₆, h₆) = >>=-eq-ok (bool_setting s (codes "include_intx_positions")) _ h₅ in
    (
      specs,
      record {
        names = is_true _ ((raise_if-ok _ settings_fields).0 p₁);
        usd = is_true _ ((raise_if-ok _ invalid_quote).0 p₂);
        symbols = p₃;
        numbers = p₄;
        cfm = p₅;
        intx = p₆;
      },
      sym (ok-injective (with_symbols specs s) s' h₆),
    )

pub with_symbols-IsAccepted :
    (s : Fields) (specs : List SymbolSpec)
    → IsAccepted s specs
    → IsAccepted (with_symbols specs s) specs
unfolding bool_setting list_eq nat_eq ℕ_discrete
with_symbols-IsAccepted s specs a =
    let v = array (items_of (symbols_of specs)) in
    let ((w, there), _) = check_symbols-found s specs a.symbols in
    record {
      names = rw (field_names-put (codes "symbols") v w s there) a.names;
      usd = rw (get_other (codes "quote_currency") v s refl) a.usd;
      symbols = check_symbols-put s specs a.symbols;
      numbers = check_numbers-put v s ∙ a.numbers;
      cfm = rw (get_other (codes "include_cfm_positions") v s refl, bool_setting) a.cfm;
      intx = rw (get_other (codes "include_intx_positions") v s refl, bool_setting) a.intx;
    }

pub check_settings_accepted :
    (s : Fields) (specs : List SymbolSpec)
    → IsAccepted s specs
    → check_settings (some (object s)) ≡ ok (with_symbols specs s)
unfolding check_settings
check_settings_accepted s specs a = rw (a.names, a.usd, a.symbols, a.numbers, a.cfm, a.intx) refl
