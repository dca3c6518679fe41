-- ===== src/Tests/Feeds.antt =====
-- The feed at concrete inputs, with numbers as values and one tick in a second.
use coinbase_amoled_terminal.Prelude.Dict.{insert}
use coinbase_amoled_terminal.Prelude.Json.{get}
use coinbase_amoled_terminal.Prelude.{
  ℕ, Option, ◌+◌, ◌≤◌, ◌≡◌, ◌↔◌, refl, true, false, none, some, List, [], ◌∷◌, length, all, arith,
  list_eq, nat_eq, ℕ_discrete,
}
use coinbase_amoled_terminal.Prelude.Text.{Text, codes}
use coinbase_amoled_terminal.Prelude.Dict.{lookup}
use coinbase_amoled_terminal.Prelude.Int.{ℤ, pos}
use coinbase_amoled_terminal.Prelude.Json.{Json, Fields, integer, field, end}
use coinbase_amoled_terminal.Feed.Candles.{Candle, is_consistent, normalize_candles}
use coinbase_amoled_terminal.Feed.Candles.Ordered.{Ascending, normalize_candles-Ascending}
use coinbase_amoled_terminal.Feed.{
  Component, fetched, failed, Settings, Feed, Upstream, new_feed, required_stale, empty_component,
  get_feed, refresh,
}
use coinbase_amoled_terminal.Feed.Fresh.{
  AllFresh, IsFresh, required_stale_iff, required_stale-refresh,
}
use coinbase_amoled_terminal.Feed.History.{run, known, due, last_good, run-last_good}

abbrev settings : Settings
settings = record {
  refresh_seconds = 15;
  stale_after_seconds = 90;
  max_stale_seconds = 600;
  include_cfm = true;
  include_intx = false;
}

abbrev btc : Text
btc = codes "BTC"

abbrev good : ℕ → Upstream ℕ
good n = record {
  market = λ symbol. fetched n none;
  accounts = λ markets. fetched (n + 1) none;
  cfm = failed (codes "http_403") true;
  intx = fetched n none;
}

abbrev broken : Upstream ℕ
broken = record {
  market = λ symbol. failed (codes "upstream_unreachable") false;
  accounts = λ markets. failed (codes "upstream_unreachable") false;
  cfm = failed (codes "upstream_unreachable") false;
  intx = fetched 0 none;
}

abbrev calls : List (ℕ × Upstream ℕ)
calls = (1000, good 7) ∷ (1010, good 8) ∷ (1015, broken) ∷ (1029, good 9) ∷ []

abbrev begun : Feed ℕ
begun = new_feed settings (btc ∷ [])

run-last_good_example :
    (c' : Component ℕ) × (lookup btc (run 1 settings calls begun).markets ≡ some c')
    × (known c' ≡ last_good btc (due 1 settings 0 calls) (none, none))
unfolding lookup list_eq nat_eq ℕ_discrete
run-last_good_example = run-last_good 1 settings calls begun btc (empty_component none) refl

-- The call at 1010 is served from what is there, the refresh at 1015 fails, and the one at 1029 is not
-- due: the first value stays.
kept : last_good btc (due 1 settings 0 calls) (none, none) ≡ (some 7, some 1000)
kept = refl

required_stale_iff_example :
    (required_stale 1 settings (run 1 settings calls begun) 1091 ≡ false) ↔ (
      AllFresh 1 settings (run 1 settings calls begun).markets 1091
      × IsFresh 1 settings (run 1 settings calls begun).spot 1091)
required_stale_iff_example = required_stale_iff 1 settings (run 1 settings calls begun) 1091

-- A feed whose last refresh failed is fresh again with the next good one.
required_stale-refresh_example :
    required_stale 1 settings (refresh 1 settings 2000 (good 11) (run 1 settings calls begun)) 2090
    ≡ false
unfolding run get_feed
required_stale-refresh_example =
    required_stale-refresh 1 settings (run 1 settings calls begun) (good 11) 2000 2090 (tt, tt) tt
      (omega arith) (omega arith)

not_stale_yet : required_stale 1 settings (run 1 settings calls begun) 1090 ≡ false
unfolding required_stale run get_feed
not_stale_yet = refl

stale_now : required_stale 1 settings (run 1 settings calls begun) 1091 ≡ true
unfolding required_stale run get_feed
stale_now = refl

-- A value of the answer that is an integer is read as it is.
abbrev number_of : Option Json → Option ℤ
number_of (some (integer n)) = some n
number_of _ = none

abbrev item : ℕ → ℕ → ℕ → Fields
item start high low = field (codes "start") (integer (pos start)) (
    field (codes "open") (integer (pos 5)) (
      field (codes "high") (integer (pos high)) (
        field (codes "low") (integer (pos low)) (
          field (codes "close") (integer (pos 6)) (field (codes "volume") (integer (pos 1)) end)))))

abbrev raw : List Fields
raw = item 120 9 2 ∷ item 60 8 3 ∷ item 180 4 3 ∷ item 0 8 3 ∷ item 120 7 4 ∷ end ∷ []

abbrev candle : ℕ → ℕ → ℕ → Candle
candle start high low = record {
  start = start;
  opening = 5;
  high = high;
  low = low;
  closing = 6;
  volume = 1;
}

normalize_candles-Ascending_example :
    (length (normalize_candles number_of number_of raw) ≤ 30)
    × Ascending 0 (normalize_candles number_of number_of raw)
    × (all is_consistent (normalize_candles number_of number_of raw) ≡ true)
normalize_candles-Ascending_example = normalize_candles-Ascending number_of number_of raw

normalized : normalize_candles number_of number_of raw ≡ candle 60 8 3 ∷ candle 120 7 4 ∷ []
unfolding normalize_candles get list_eq nat_eq ℕ_discrete insert
normalized = refl
