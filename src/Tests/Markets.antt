-- ===== src/Tests/Markets.antt =====
-- The symbols of symbols.py at concrete inputs.
use coinbase_amoled_terminal.Prelude.{
  ◌≤◌, ◌≡◌, refl, List, [], ◌∷◌, length, ok, list_eq, nat_eq, ℕ_discrete,
}
use coinbase_amoled_terminal.Prelude.Text.{Text, codes, strip, to_upper}
use coinbase_amoled_terminal.Prelude.Slices.{split_first}
use coinbase_amoled_terminal.Symbols.{
  SymbolSpec, normalize_symbol, normalize_symbols, is_base, is_product,
}
use coinbase_amoled_terminal.Symbols.Normal.{Distinct, clean, symbols_of, normalize_symbols_stable}

abbrev asked : List Text
asked = codes " xbt" ∷ codes "sol/usd" ∷ codes "BTC-USD" ∷ []

abbrev specs : List SymbolSpec
specs =
    record { symbol = codes "BTC"; product_id = codes "BTC-USD"; quote_currency = codes "USD" }
    ∷ record { symbol = codes "SOL"; product_id = codes "SOL-USD"; quote_currency = codes "USD" }
    ∷ []

normalize_symbols_test : normalize_symbols asked (codes "usd ") ≡ ok specs
unfolding normalize_symbols normalize_symbol split_first strip is_base is_product to_upper list_eq
    nat_eq ℕ_discrete
normalize_symbols_test = refl

normalize_symbols_stable_example :
    ((1 ≤ length specs) × (length specs ≤ 20))
    × (Distinct (clean (codes "usd ")) [] specs
        × (normalize_symbols (symbols_of specs) (codes "usd ") ≡ ok specs))
normalize_symbols_stable_example =
    normalize_symbols_stable asked (codes "usd ") specs normalize_symbols_test
