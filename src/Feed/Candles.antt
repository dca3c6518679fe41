-- ===== src/Feed/Candles.antt =====
-- `_normalize_candles` of feed.py.
pub mod Ordered
use coinbase_amoled_terminal.Prelude.{
  ℕ, ◌-◌, Bool, true, false, not, ◌&&◌, ◌||◌, Option, none, some, List, [], ◌∷◌, map, leb, ltb,
  if◌then◌else◌, min, max, length, drop, nat_eq,
}
use coinbase_amoled_terminal.Prelude.Text.{Text, codes}
use coinbase_amoled_terminal.Prelude.Int.{ℤ, pos, negsuc}
use coinbase_amoled_terminal.Prelude.Dict.{Dict, insert}
use coinbase_amoled_terminal.Prelude.Json.{Json, Fields, get}

abbrev pub expected_candles : ℕ
expected_candles = 30

-- The numbers count a unit in which every decimal of the input is whole.
pub record Candle : Type 0 where
  pub start : ℕ
  pub opening : ℕ
  pub high : ℕ
  pub low : ℕ
  pub closing : ℕ
  pub volume : ℕ

-- A decimal that is there and not negative.
abbrev pub amount : Option ℤ → Option ℕ
amount (some (pos n)) = some n
amount _ = none

-- `low <= min(opening, closing, high)`, `high >= max(opening, closing, low)`
unfoldable pub is_consistent : Candle → Bool
is_consistent c =
    not (ltb c.high (max c.opening (max c.closing c.low)))
    && not (ltb (min c.opening (min c.closing c.high)) c.low)

abbrev pub bind_option : {A B : Type 0} → Option A → (A → Option B) → Option B
bind_option none next = none
bind_option (some a) next = next a

-- A start that is positive.
abbrev pub positive : Option ℤ → Option ℕ
positive (some (pos n)) = if leb 1 n then some n else none
positive _ = none

abbrev pub consistent_only : Candle → Option Candle
consistent_only c = if is_consistent c then some c else none

-- `for key in sorted(by_start)`
unfoldable pub insert_sorted : ℕ × Candle → Dict ℕ Candle → Dict ℕ Candle
insert_sorted (k, c) [] = (k, c) ∷ []
insert_sorted (k, c) ((j, e) ∷ d) =
    let rest = insert_sorted (k, c) d in if ltb k j then (k, c) ∷ ((j, e) ∷ d) else (j, e) ∷ rest

unfoldable pub sorted : Dict ℕ Candle → Dict ℕ Candle
unfolding insert_sorted
sorted [] = []
sorted (entry ∷ d) = insert_sorted entry (sorted d)

-- `items[-30:]`
abbrev pub last_of : ℕ → List Candle → List Candle
last_of n l = drop (length l - n) l

-- `int(str(…))` and `decimal_string` of a value of the answer are Python's.
module _ (whole_of decimal_of : Option Json → Option ℤ) where
  -- The candle of an item, if it has one.
  unfoldable pub candle_of : Fields → Option Candle
  unfolding is_consistent
  candle_of item = bind_option (positive (whole_of (get (codes "start") item))) λ start.
      bind_option (amount (decimal_of (get (codes "open") item))) λ opening.
        bind_option (amount (decimal_of (get (codes "high") item))) λ high.
          bind_option (amount (decimal_of (get (codes "low") item))) λ low.
            bind_option (amount (decimal_of (get (codes "close") item))) λ closing.
              bind_option (amount (decimal_of (get (codes "volume") item))) λ volume.
                consistent_only (record {
                  start = start;
                  opening = opening;
                  high = high;
                  low = low;
                  closing = closing;
                  volume = volume;
                })

  abbrev pub add_candle : Option Candle → Dict ℕ Candle → Dict ℕ Candle
  add_candle none d = d
  add_candle (some c) d = insert c.start c d

  -- The loop: a later candle of the same start replaces the one before.
  unfoldable pub by_start : List Fields → Dict ℕ Candle → Dict ℕ Candle
  unfolding candle_of
  by_start [] d = d
  by_start (item ∷ items) d = by_start items (add_candle (candle_of item) d)

  unfoldable pub normalize_candles : List Fields → List Candle
  unfolding by_start sorted
  normalize_candles raw =
      last_of expected_candles (map (λ (entry : ℕ × Candle). entry.1) (sorted (by_start raw [])))
