-- ===== src/Feed/Candles/Ordered.antt =====
-- What `_normalize_candles` of feed.py returns.
use coinbase_amoled_terminal.Prelude.{
  ℕ, zero, suc, ◌-◌, ◌≤◌, ◌<◌, ◌≡◌, refl, sym, subst, ◌∙◌, true, false, ◌||◌, Option, none, some,
  List, [], ◌∷◌, map, length, drop, all, length-drop, arith, Bool-cases, Option-cases, inl, inr,
  nat_eq, contains, ◌==◌,
}
use coinbase_amoled_terminal.Prelude.Int.{ℤ, pos, negsuc}
use coinbase_amoled_terminal.Prelude.Json.{Json, Fields, get}
use coinbase_amoled_terminal.Prelude.Text.{codes}
use coinbase_amoled_terminal.Prelude.Dict.{Dict, insert, keys, NodupKeys, insert-NodupKeys}
use coinbase_amoled_terminal.Feed.Candles.{
  Candle, is_consistent, insert_sorted, sorted, candle_of, by_start, normalize_candles, bind_option,
  consistent_only, positive, amount,
}

-- Each key is that of its candle, which is consistent.
abbrev AreSound : Dict ℕ Candle → Type 0
AreSound [] = Unit
AreSound ((k, c) ∷ d) = (c.start ≡ k) × (1 ≤ k) × (is_consistent c ≡ true) × AreSound d

-- Every start is later than `k`, and they ascend.
abbrev pub Ascending : ℕ → List Candle → Type 0
Ascending k [] = Unit
Ascending k (c ∷ l) = (k < c.start) × Ascending c.start l

abbrev AscendingKeys : ℕ → Dict ℕ Candle → Type 0
AscendingKeys k [] = Unit
AscendingKeys k ((j, _) ∷ d) = (k < j) × AscendingKeys j d

insert-AreSound :
    (c : Candle) (d : Dict ℕ Candle)
    → 1 ≤ c.start
    → is_consistent c ≡ true
    → AreSound d
    → AreSound (insert c.start c d)
unfolding insert
insert-AreSound c [] h k s = (refl, h, k, tt)
insert-AreSound c ((j, e) ∷ d) h k (a, b, b', s) = ground (arith, insert-AreSound c d h k s)

insert_sorted-AscendingKeys :
    (least k : ℕ) (c : Candle) (d : Dict ℕ Candle)
    → least < k
    → contains (keys d) k ≡ false
    → AscendingKeys least d
    → AscendingKeys least (insert_sorted (k, c) d)
unfolding insert_sorted
insert_sorted-AscendingKeys least k c [] h fresh a = (h, tt)
insert_sorted-AscendingKeys least k c ((j, e) ∷ d) h fresh (b, a) =
    ground (arith, insert_sorted-AscendingKeys j k c d)

contains-insert_sorted :
    (x k : ℕ) (c : Candle) (d : Dict ℕ Candle)
    → contains (keys (insert_sorted (k, c) d)) x ≡ (x == k || contains (keys d) x)
unfolding insert_sorted
contains-insert_sorted x k c [] = refl
contains-insert_sorted x k c ((j, e) ∷ d) = ground (arith, contains-insert_sorted x k c d)

contains-sorted : (x : ℕ) (d : Dict ℕ Candle) → contains (keys (sorted d)) x ≡ contains (keys d) x
unfolding sorted
contains-sorted x [] = refl
contains-sorted x ((k, c) ∷ d) =
    ground (arith, contains-insert_sorted x k c (sorted d), contains-sorted x d)

insert_sorted-AreSound :
    (k : ℕ) (c : Candle) (d : Dict ℕ Candle)
    → (c.start ≡ k) × (1 ≤ k) × (is_consistent c ≡ true)
    → AreSound d
    → AreSound (insert_sorted (k, c) d)
unfolding insert_sorted
insert_sorted-AreSound k c [] (a, b, e) s = (a, b, e, tt)
insert_sorted-AreSound k c ((j, i) ∷ d) (a, b, e) (a', b', e', s) =
    ground (arith, insert_sorted-AreSound k c d)

sorted-AscendingKeys :
    (d : Dict ℕ Candle)
    → AreSound d
    → NodupKeys d
    → AscendingKeys 0 (sorted d) × AreSound (sorted d)
unfolding sorted
sorted-AscendingKeys [] s u = (tt, tt)
sorted-AscendingKeys ((k, c) ∷ d) (a, b, e, s) (fresh, u) =
    let (up, sound) = sorted-AscendingKeys d s u in
    (
      insert_sorted-AscendingKeys 0 k c (sorted d) b (contains-sorted k d ∙ fresh) up,
      insert_sorted-AreSound k c (sorted d) (a, b, e) sound,
    )

some-candle : (c e : Candle) → ◌≡◌ {A = Option Candle} (some c) (some e) → c ≡ e
some-candle c e h = cc

consistent_found : (c e : Candle) → consistent_only c ≡ some e → (c ≡ e) × (is_consistent c ≡ true)
consistent_found c e h = elim (Bool-cases (is_consistent c)) [
  | inl k ↦ (some-candle c e (rw (k, consistent_only) at h), k)
  | inr k ↦ let bad = rw (k, consistent_only) at h in cc
]

positive_found : (o : Option ℤ) (n : ℕ) → positive o ≡ some n → 1 ≤ n
positive_found none n h = cc
positive_found (some (pos m)) n h = ground arith
positive_found (some (negsuc m)) n h = cc

bind_found :
    {A B : Type 0} (o : Option A) (next : A → Option B) (b : B)
    → bind_option o next ≡ some b
    → (a : A) × (o ≡ some a) × (next a ≡ some b)
bind_found none next b h = cc
bind_found (some a) next b h = (a, refl, h)

module _ (whole_of decimal_of : Option Json → Option ℤ) where
  candle_of-found :
      (item : Fields) (c : Candle)
      → candle_of whole_of decimal_of item ≡ some c
      → (1 ≤ c.start) × (is_consistent c ≡ true)
  unfolding candle_of
  candle_of-found item c h =
      let (start, begins, h₁) = bind_found (positive (whole_of (get (codes "start") item))) _ c h in
      let (opening, _, h₂) = bind_found (amount (decimal_of (get (codes "open") item))) _ c h₁ in
      let (high, _, h₃) = bind_found (amount (decimal_of (get (codes "high") item))) _ c h₂ in
      let (low, _, h₄) = bind_found (amount (decimal_of (get (codes "low") item))) _ c h₃ in
      let (closing, _, h₅) = bind_found (amount (decimal_of (get (codes "close") item))) _ c h₄ in
      let (volume, _, h₆) = bind_found (amount (decimal_of (get (codes "volume") item))) _ c h₅ in
      let made : Candle = record {
        start = start;
        opening = opening;
        high = high;
        low = low;
        closing = closing;
        volume = volume;
      } in
      let (same, good) = consistent_found made c h₆ in
      (
        subst (λ (e : Candle). 1 ≤ e.start) same
            (positive_found (whole_of (get (codes "start") item)) start begins),
        subst (λ (e : Candle). is_consistent e ≡ true) same good,
      )

  by_start-AreSound :
      (raw : List Fields) (d : Dict ℕ Candle)
      → AreSound d
      → NodupKeys d
      → AreSound (by_start whole_of decimal_of raw d)
        × NodupKeys (by_start whole_of decimal_of raw d)
  unfolding by_start
  by_start-AreSound [] d s u = (s, u)
  by_start-AreSound (item ∷ raw) d s u = elim (Option-cases (candle_of whole_of decimal_of item)) [
    | inl e ↦ rw e (by_start-AreSound raw d s u)
    | inr (c, e) ↦
        let (first, good) = candle_of-found item c e in
        rw e (
          by_start-AreSound raw (insert c.start c d) (insert-AreSound c d first good s)
            (insert-NodupKeys c.start c d u))
  ]

values : Dict ℕ Candle → List Candle
values d = map (λ (entry : ℕ × Candle). entry.1) d

values-Ascending :
    (k : ℕ) (d : Dict ℕ Candle)
    → AscendingKeys k d
    → AreSound d
    → Ascending k (values d) × (all is_consistent (values d) ≡ true)
unfolding values
values-Ascending k [] a s = (tt, refl)
values-Ascending k ((j, c) ∷ d) (h, a) (same, _, good, s) =
    let (up, rest) = values-Ascending j d a s in
    (
      (subst (λ i. k < i) (sym same) h, subst (λ i. Ascending i (values d)) (sym same) up),
      rw (good, rest) refl,
    )

drop-Ascending : (n j k : ℕ) (l : List Candle) → j ≤ k → Ascending k l → Ascending j (drop n l)
drop-Ascending zero j k [] h a = tt
drop-Ascending zero j k (c ∷ l) h (b, a) = (omega (arith, h, b), a)
drop-Ascending (suc n) j k [] h a = tt
drop-Ascending (suc n) j k (c ∷ l) h (b, a) = drop-Ascending n j c.start l (omega (arith, h, b)) a

all-drop :
    (n : ℕ) (l : List Candle) → all is_consistent l ≡ true → all is_consistent (drop n l) ≡ true
all-drop zero l h = h
all-drop (suc n) [] h = h
all-drop (suc n) (c ∷ l) h = all-drop n l (ground arith)

-- Whatever the upstream sends, there are at most thirty candles, their starts are positive and ascend
-- strictly, and in each the low is at most the other three prices and the high at least.
pub normalize_candles-Ascending :
    (whole_of decimal_of : Option Json → Option ℤ) (raw : List Fields)
    → (length (normalize_candles whole_of decimal_of raw) ≤ 30)
      × Ascending 0 (normalize_candles whole_of decimal_of raw)
      × (all is_consistent (normalize_candles whole_of decimal_of raw) ≡ true)
unfolding normalize_candles values
normalize_candles-Ascending whole_of decimal_of raw =
    let d = by_start whole_of decimal_of raw [] in
    let (s, u) = by_start-AreSound whole_of decimal_of raw [] tt tt in
    let (keys_up, sound) = sorted-AscendingKeys d s u in
    let (up, good) = values-Ascending 0 (sorted d) keys_up sound in
    let l = values (sorted d) in
    (
      omega (arith, length-drop (length l - 30) l),
      drop-Ascending (length l - 30) 0 0 l (omega arith) up,
      all-drop (length l - 30) l good,
    )
