-- ===== src/Installer/Layout/Sorted.antt =====
-- The sort of the intervals orders their starts and keeps whether they are pairwise apart.
use coinbase_amoled_terminal.Prelude.{
  ℕ, ◌≤◌, ◌<◌, ◌≡◌, ◌⊎◌, inl, inr, ◌↔◌, true, false, List, [], ◌∷◌, arith, Bool-cases,
}
use coinbase_amoled_terminal.Installer.Layout.{
  Interval, interval_leb, insert_interval, sort_intervals,
}

-- Two intervals that share no address.
abbrev pub Apart : Interval → Interval → Type 0
Apart x y = (x.finish ≤ y.start) ⊎ (y.finish ≤ x.start)

abbrev pub ApartFrom : Interval → List Interval → Type 0
ApartFrom x [] = Unit
ApartFrom x (y ∷ l) = Apart x y × ApartFrom x l

abbrev pub PairwiseApart : List Interval → Type 0
PairwiseApart [] = Unit
PairwiseApart (x ∷ l) = ApartFrom x l × PairwiseApart l

abbrev pub StartsFrom : ℕ → List Interval → Type 0
StartsFrom n [] = Unit
StartsFrom n (y ∷ l) = (n ≤ y.start) × StartsFrom n l

abbrev pub IsSorted : List Interval → Type 0
IsSorted [] = Unit
IsSorted (x ∷ l) = StartsFrom x.start l × IsSorted l

abbrev pub Nonempty : List Interval → Type 0
Nonempty [] = Unit
Nonempty (x ∷ l) = (x.start < x.finish) × Nonempty l

StartsFrom-le : (m n : ℕ) (l : List Interval) → m ≤ n → StartsFrom n l → StartsFrom m l
StartsFrom-le m n [] h s = tt
StartsFrom-le m n (y ∷ l) h (a, s) = (omega arith, StartsFrom-le m n l h s)

interval_leb-start : (x y : Interval) → interval_leb x y ≡ true → x.start ≤ y.start
unfolding interval_leb
interval_leb-start x y h = ground arith

interval_leb-start_of_false : (x y : Interval) → interval_leb x y ≡ false → y.start ≤ x.start
unfolding interval_leb
interval_leb-start_of_false x y h = ground arith

StartsFrom-insert_interval :
    (n : ℕ) (x : Interval) (l : List Interval)
    → n ≤ x.start
    → StartsFrom n l
    → StartsFrom n (insert_interval x l)
unfolding insert_interval
StartsFrom-insert_interval n x [] h s = (h, tt)
StartsFrom-insert_interval n x (y ∷ l) h (a, s) = elim (Bool-cases (interval_leb x y)) [
  | inl le ↦ rw le (h, (a, s))
  | inr gt ↦ rw gt (a, StartsFrom-insert_interval n x l h s)
]

insert_interval-IsSorted :
    (x : Interval) (l : List Interval) → IsSorted l → IsSorted (insert_interval x l)
unfolding insert_interval
insert_interval-IsSorted x [] s = (tt, tt)
insert_interval-IsSorted x (y ∷ l) (a, s) = elim (Bool-cases (interval_leb x y)) [
  | inl le ↦
      let h = interval_leb-start x y le in rw le ((h, StartsFrom-le x.start y.start l h a), (a, s))
  | inr gt ↦ rw gt (
    StartsFrom-insert_interval y.start x l (interval_leb-start_of_false x y gt) a,
    insert_interval-IsSorted x l s,
  )
]

pub sort_intervals-IsSorted : (l : List Interval) → IsSorted (sort_intervals l)
unfolding sort_intervals
sort_intervals-IsSorted [] = tt
sort_intervals-IsSorted (x ∷ l) =
    insert_interval-IsSorted x (sort_intervals l) (sort_intervals-IsSorted l)

Apart-symm : (x y : Interval) → Apart x y → Apart y x
Apart-symm x y (inl h) = inr h
Apart-symm x y (inr h) = inl h

ApartFrom-insert_interval :
    (z x : Interval) (l : List Interval)
    → ApartFrom z (insert_interval x l) ↔ (Apart z x × ApartFrom z l)
unfolding insert_interval
ApartFrom-insert_interval z x [] = (λ h. h, λ h. h)
ApartFrom-insert_interval z x (y ∷ l) =
    let (to, from) = ApartFrom-insert_interval z x l in
    elim (Bool-cases (interval_leb x y)) [
      | inl le ↦ rw le (λ h. h, λ h. h)
      | inr gt ↦ rw gt (λ h. let (b, c) = to h.1 in (b, (h.0, c)), λ h. (h.1.0, from (h.0, h.1.1)))
    ]

PairwiseApart-insert_interval :
    (x : Interval) (l : List Interval) → PairwiseApart (insert_interval x l) ↔ PairwiseApart (x ∷ l)
unfolding insert_interval
PairwiseApart-insert_interval x [] = (λ h. h, λ h. h)
PairwiseApart-insert_interval x (y ∷ l) =
    let (to, from) = PairwiseApart-insert_interval x l in
    let (apart_to, apart_from) = ApartFrom-insert_interval y x l in
    elim (Bool-cases (interval_leb x y)) [
      | inl le ↦ rw le (λ h. h, λ h. h)
      | inr gt ↦ rw gt (
        λ h.
            let (yx, yl) = apart_to h.0 in
            let (xl, l') = to h.1 in ((Apart-symm y x yx, xl), (yl, l')),
        λ h. (apart_from (Apart-symm x y h.0.0, h.1.0), from (h.0.1, h.1.1)),
      )
    ]

ApartFrom-sort_intervals :
    (z : Interval) (l : List Interval) → ApartFrom z (sort_intervals l) ↔ ApartFrom z l
unfolding sort_intervals
ApartFrom-sort_intervals z [] = (λ h. h, λ h. h)
ApartFrom-sort_intervals z (x ∷ l) =
    let (to, from) = ApartFrom-sort_intervals z l in
    let (ins_to, ins_from) = ApartFrom-insert_interval z x (sort_intervals l) in
    (λ h. let (a, b) = ins_to h in (a, to b), λ h. ins_from (h.0, from h.1))

-- Sorting the intervals neither brings two together nor separates any.
pub PairwiseApart-sort_intervals :
    (l : List Interval) → PairwiseApart (sort_intervals l) ↔ PairwiseApart l
unfolding sort_intervals
PairwiseApart-sort_intervals [] = (λ h. h, λ h. h)
PairwiseApart-sort_intervals (x ∷ l) =
    let (to, from) = PairwiseApart-sort_intervals l in
    let (all_to, all_from) = ApartFrom-sort_intervals x l in
    let (ins_to, ins_from) = PairwiseApart-insert_interval x (sort_intervals l) in
    (λ h. let (a, b) = ins_to h in (all_to a, to b), λ h. ins_from (all_from h.0, from h.1))
