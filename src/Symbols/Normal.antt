-- ===== src/Symbols/Normal.antt =====
-- What `normalize_symbols` of symbols.py returns, and that a second run changes nothing.
use mathlib.Core.List.{reverse, reverse-reverse}
use coinbase_amoled_terminal.Prelude.{
  ℕ, suc, ◌≤◌, ◌≡◌, refl, ap, subst, true, false, not, List, [], ◌∷◌, ◌++◌, map, arith, ok, all,
  eqb, ltb, contains, length, inl, inr, Bool-cases, raise_if, raise_if-ok, >>=-eq-ok, ok-injective,
  list_eq, nat_eq,
}
use coinbase_amoled_terminal.Prelude.Chars.{all-reverse_aux}
use coinbase_amoled_terminal.Prelude.Text.{
  Text, codes, to_upper, strip, lstrip, is_space, is_upper, is_lower, is_digit,
}
use coinbase_amoled_terminal.Prelude.Slices.{split_first_of_absent}
use coinbase_amoled_terminal.Symbols.{
  invalid_quote, invalid_symbol, no_symbols, too_many, no_unique, SymbolSpec, is_base, is_base_char,
  matches_class, alias, slash_to_dash, base_of, normalize_symbol, collect, normalize_symbols,
}

-- A specification in normal form: a base that is no alias, with the quote.
pub record IsNormal (quote : Text) (spec : SymbolSpec) : Type 0 where
  pub base : is_base spec.symbol ≡ true
  pub no_alias : alias spec.symbol ≡ spec.symbol
  pub product : spec.product_id ≡ spec.symbol ++ (codes "-" ++ quote)
  pub quote_is : spec.quote_currency ≡ quote

alias-alias : (s : Text) → alias (alias s) ≡ alias s
unfolding alias
alias-alias s = ground arith

-- The quote as the program reads it.
abbrev pub clean : Text → Text
clean s = map to_upper (strip s)

normalize_symbol-IsNormal :
    (value quote : Text) (spec : SymbolSpec)
    → normalize_symbol value quote ≡ ok spec
    → IsNormal (clean quote) spec
unfolding normalize_symbol
normalize_symbol-IsNormal value quote spec h =
    let raw = map slash_to_dash (map to_upper (strip value)) in
    let (_, _, h₁) = >>=-eq-ok (raise_if (not (is_base (clean quote))) invalid_quote) _ h in
    let (found, _, h₂) = >>=-eq-ok (base_of raw (clean quote)) _ h₁ in
    let (_, good, same) = >>=-eq-ok (raise_if (not (is_base (alias found))) invalid_symbol) _ h₂ in
    subst (IsNormal (clean quote)) (ok-injective _ spec same) (record {
      base = ground arith;
      no_alias = alias-alias found;
      product = refl;
      quote_is = refl;
    })

-- The specifications of a result, against the symbols seen before them.
unfoldable pub Distinct : Text → List Text → List SymbolSpec → Type 0
Distinct quote seen [] = Unit
Distinct quote seen (spec ∷ specs) =
    IsNormal quote spec
    × ((contains seen spec.symbol ≡ false) × Distinct quote (spec.symbol ∷ seen) specs)

collect-Distinct :
    (values : List Text) (quote : Text) (seen : List Text) (specs : List SymbolSpec)
    → collect values quote seen ≡ ok specs
    → Distinct (clean quote) seen specs × (length specs ≤ length values)
unfolding collect Distinct
collect-Distinct [] quote seen [] h = (tt, omega arith)
collect-Distinct [] quote seen (x ∷ specs) h = cc
collect-Distinct (value ∷ values) quote seen specs h =
    let (spec, found, h₁) = >>=-eq-ok (normalize_symbol value quote) _ h in
    elim (Bool-cases (contains seen spec.symbol)) [
      | inl old ↦
          let (distinct, short) = collect-Distinct values quote seen specs (rw old at h₁) in
          (distinct, omega (arith, short))
      | inr new ↦
          let h₂ = rw new at h₁ in
          let (rest, more, same) = >>=-eq-ok (collect values quote (spec.symbol ∷ seen)) _ h₂ in
          let (distinct, short) = collect-Distinct values quote (spec.symbol ∷ seen) rest more in
          subst (λ l. Distinct (clean quote) seen l × (length l ≤ suc (length values)))
            (ok-injective _ specs same)
            (
              (normalize_symbol-IsNormal value quote spec found, (new, distinct)),
              omega (arith, short),
            )
    ]

pub is_base_char-facts :
    (c : ℕ)
    → is_base_char c ≡ true
    → (is_space c ≡ false) × ((to_upper c ≡ c) × ((slash_to_dash c ≡ c) × (eqb b'-' c ≡ false)))
unfolding is_base_char is_upper is_digit is_space to_upper is_lower slash_to_dash
is_base_char-facts c h = (ground arith, (ground arith, (ground arith, ground arith)))

lstrip_base : (s : Text) → all is_base_char s ≡ true → lstrip s ≡ s
unfolding lstrip
lstrip_base [] h = refl
lstrip_base (c ∷ s) h = ground (arith, is_base_char-facts c)

pub upper_base : (s : Text) → all is_base_char s ≡ true → map slash_to_dash (map to_upper s) ≡ s
upper_base [] h = refl
upper_base (c ∷ s) h = ground (arith, is_base_char-facts c, upper_base s)

dashless_base : (s : Text) → all is_base_char s ≡ true → contains s b'-' ≡ false
dashless_base [] h = refl
dashless_base (c ∷ s) h = ground (arith, is_base_char-facts c, dashless_base s)

strip_base : (s : Text) → all is_base_char s ≡ true → strip s ≡ s
unfolding strip
strip_base s h =
    rw (lstrip_base s h)
      (rw (lstrip_base (reverse s) (all-reverse_aux is_base_char s [] h refl)) (reverse-reverse s))

pub is_base-chars : (s : Text) → is_base s ≡ true → all is_base_char s ≡ true
unfolding is_base matches_class
is_base-chars s h = ground arith

base_of_base : (s quote : Text) → is_base s ≡ true → base_of s quote ≡ ok s
unfolding base_of
base_of_base s quote h =
    rw (split_first_of_absent b'-' s (dashless_base s (is_base-chars s h)), base_of, h) refl

normalize_base :
    (quote : Text) (spec : SymbolSpec)
    → is_base (clean quote) ≡ true
    → IsNormal (clean quote) spec
    → normalize_symbol spec.symbol quote ≡ ok spec
unfolding normalize_symbol
normalize_base quote spec q n =
    let chars = is_base-chars spec.symbol n.base in
    rw
      (
        q,
        strip_base spec.symbol chars,
        upper_base spec.symbol chars,
        base_of_base spec.symbol (clean quote) n.base,
        n.no_alias,
        n.base,
      )
      (ap ok (ground (arith, n.product, n.quote_is)))

abbrev pub symbols_of : List SymbolSpec → List Text
symbols_of specs = map (λ (spec : SymbolSpec). spec.symbol) specs

collect_again :
    (quote : Text) (seen : List Text) (specs : List SymbolSpec)
    → is_base (clean quote) ≡ true
    → Distinct (clean quote) seen specs
    → collect (symbols_of specs) quote seen ≡ ok specs
unfolding collect Distinct
collect_again quote seen [] q d = refl
collect_again quote seen (spec ∷ specs) q (n, (new, d)) =
    ground (
      arith,
      normalize_base quote spec q n,
      new,
      collect_again quote (spec.symbol ∷ seen) specs q d,
    )

-- A run that returns has accepted the quote.
quote_ok :
    (values : List Text) (quote : Text) (seen : List Text) (specs : List SymbolSpec)
    → eqb (length values) 0 ≡ false
    → collect values quote seen ≡ ok specs
    → is_base (clean quote) ≡ true
unfolding collect normalize_symbol
quote_ok [] quote seen specs e h = cc
quote_ok (value ∷ values) quote seen specs e h =
    let (spec, found, _) = >>=-eq-ok (normalize_symbol value quote) _ h in
    let (_, good, _) = >>=-eq-ok (raise_if (not (is_base (clean quote))) invalid_quote) _ found in
    ground arith

bounded_by : (n m : ℕ) → ltb 20 n ≡ false → m ≤ n → m ≤ 20
bounded_by n m h k = ground arith

nonzero : (n : ℕ) → eqb n 0 ≡ false → 1 ≤ n
nonzero n h = ground arith

length-symbols_of : (specs : List SymbolSpec) → length (symbols_of specs) ≡ length specs
length-symbols_of [] = refl
length-symbols_of (spec ∷ specs) = ap suc (length-symbols_of specs)

normalize_again :
    (quote : Text) (specs : List SymbolSpec)
    → is_base (clean quote) ≡ true
    → eqb (length specs) 0 ≡ false
    → ltb 20 (length specs) ≡ false
    → Distinct (clean quote) [] specs
    → normalize_symbols (symbols_of specs) quote ≡ ok specs
unfolding normalize_symbols
normalize_again quote specs q some_spec few d =
    rw (length-symbols_of specs, some_spec, few, collect_again quote [] specs q d)
      (ground (arith, some_spec))

-- What `normalize_symbols` returns is not empty and has at most 20 entries, no symbol twice, each in
-- normal form for the stripped upper-case quote; and normalizing the returned symbols with the same
-- quote gives the same list again.
pub normalize_symbols_stable :
    (values : List Text) (quote : Text) (specs : List SymbolSpec)
    → normalize_symbols values quote ≡ ok specs
    → ((1 ≤ length specs) × (length specs ≤ 20))
      × (Distinct (clean quote) [] specs × (normalize_symbols (symbols_of specs) quote ≡ ok specs))
unfolding normalize_symbols
normalize_symbols_stable values quote specs h =
    let (_, some_value, h₁) = >>=-eq-ok (raise_if (eqb (length values) 0) no_symbols) _ h in
    let (_, few, h₂) = >>=-eq-ok (raise_if (ltb 20 (length values)) too_many) _ h₁ in
    let (found, made, h₃) = >>=-eq-ok (collect values quote []) _ h₂ in
    let (_, kept, same) = >>=-eq-ok (raise_if (eqb (length found) 0) no_unique) _ h₃ in
    let (distinct, short) = collect-Distinct values quote [] found made in
    let proper = quote_ok values quote [] found ((raise_if-ok _ no_symbols).0 some_value) made in
    let not_empty = (raise_if-ok (eqb (length found) 0) no_unique).0 kept in
    let bounded = (raise_if-ok (ltb 20 (length values)) too_many).0 few in
    let small : length found ≤ 20 = bounded_by _ _ bounded short in
    subst
      (λ l.
        ((1 ≤ length l) × (length l ≤ 20))
        × (Distinct (clean quote) [] l × (normalize_symbols (symbols_of l) quote ≡ ok l)))
      (ok-injective found specs same)
      (
        (nonzero _ not_empty, small),
        (distinct, normalize_again quote found proper not_empty (ground (arith, small)) distinct),
      )
