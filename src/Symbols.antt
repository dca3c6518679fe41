-- ===== src/Symbols.antt =====
-- bridge/src/coinbase_amoled_bridge/symbols.py: market symbols and product identifiers.
pub mod Normal
use coinbase_amoled_terminal.Prelude.{
  ℕ, ◌<◌, Bool, true, false, not, ◌&&◌, ◌||◌, Option, none, some, List, [], ◌∷◌, ◌++◌, map, ◌==◌,
  contains, ltb, leb, eqb, if◌then◌else◌, length, all, Result, ok, err, ◌>>=◌, ◌>>◌, raise_if,
  list_eq, nat_eq,
}
use coinbase_amoled_terminal.Prelude.Text.{Text, codes, is_upper, is_digit, to_upper, strip}
use coinbase_amoled_terminal.Prelude.Slices.{split_first}

pub data SymbolError : Type 0 where
  invalid_quote invalid_product other_quote invalid_symbol : SymbolError
  no_symbols too_many no_unique : SymbolError

unfoldable pub is_base_char : ℕ → Bool
unfolding is_upper is_digit
is_base_char c = is_upper c || is_digit c

-- `[A-Z0-9]{least,most}`
unfoldable pub matches_class : ℕ → ℕ → Text → Bool
unfolding is_base_char
matches_class least most s = leb least (length s) && (leb (length s) most && all is_base_char s)

-- `BASE_RE.fullmatch(s)`
unfoldable pub is_base : Text → Bool
unfolding matches_class
is_base s = matches_class 2 12 s

-- `PRODUCT_RE.fullmatch(s)`: the class has no dash, so the dash is the first one.
unfoldable pub is_product : Text → Bool
unfolding matches_class
is_product s = elim (split_first b'-' s) [
  | none ↦ false
  | some (base, quote) ↦ matches_class 2 12 base && matches_class 2 8 quote
]

-- `ALIASES.get(base, base)`
unfoldable pub alias : Text → Text
alias base = if base == codes "XBT" then codes "BTC" else base

pub record SymbolSpec : Type 0 where
  pub symbol : Text
  pub product_id : Text
  pub quote_currency : Text

-- `value.replace("/", "-")`
unfoldable pub slash_to_dash : ℕ → ℕ
slash_to_dash c = if eqb c b'/' then b'-' else c

-- The base that `raw` names, before the aliases.
unfoldable pub base_of : Text → Text → Result SymbolError Text
base_of raw quote = elim (split_first b'-' raw) [
  | some (base, supplied) ↦
      if not (is_product raw)
      then err invalid_product
      else if not (supplied == quote)
      then err other_quote
      else ok base
  | none ↦ if not (is_base raw) then err invalid_symbol else ok raw
]

unfoldable pub normalize_symbol : Text → Text → Result SymbolError SymbolSpec
unfolding alias base_of slash_to_dash
normalize_symbol value quote_currency =
    let raw = map slash_to_dash (map to_upper (strip value)) in
    let quote = map to_upper (strip quote_currency) in
    do
      raise_if (not (is_base quote)) invalid_quote
      found ← base_of raw quote
      let base = alias found
      raise_if (not (is_base base)) invalid_symbol
      ok (record {
        symbol = base;
        product_id = base ++ (codes "-" ++ quote);
        quote_currency = quote;
      })

-- The loop of `normalize_symbols`, with the symbols that it has seen.
unfoldable pub collect : List Text → Text → List Text → Result SymbolError (List SymbolSpec)
collect [] quote seen = ok []
collect (value ∷ values) quote seen = do
  spec ← normalize_symbol value quote
  elim (contains seen spec.symbol) [
    | true ↦ collect values quote seen
    | false ↦ (collect values quote (spec.symbol ∷ seen)) >>= (λ rest. ok (spec ∷ rest))
  ]

unfoldable pub normalize_symbols : List Text → Text → Result SymbolError (List SymbolSpec)
unfolding collect
normalize_symbols values quote_currency = do
  raise_if (eqb (length values) 0) no_symbols
  raise_if (ltb 20 (length values)) too_many
  specs ← collect values quote_currency []
  raise_if (eqb (length specs) 0) no_unique
  ok specs
