-- ===== src/Installer/Layout/Disjoint.antt =====
-- What `_validate_flash_layout` accepts, exactly.
use coinbase_amoled_terminal.Prelude.{
  ℕ, ◌≤◌, ◌<◌, ◌≡◌, refl, ap, subst, ok-injective, >>=-eq-ok, ◌⊎◌, inl, inr, ◌↔◌, false, not, ◌&&◌,
  ◌||◌, List, [], ◌∷◌, arith, ltb, leb, ◌==◌, Bool-cases, ok, raise_if, raise_if-ok, >>-ok, leb→le,
  list_eq, nat_eq,
}
use coinbase_amoled_terminal.Prelude.Int.{ℤ, pos, negsuc}
use coinbase_amoled_terminal.Installer.Layout.{
  Text, Region, natural, check_interval, Artifact, Interval, overlaps_protected, invalid,
  interval_leb, insert_interval, sort_intervals, intervals, protected, overlap, check_protected,
  check_bounds, check_against, check_overlaps, validate_flash_layout,
}
use coinbase_amoled_terminal.Installer.Layout.Sorted.{
  Apart, ApartFrom, PairwiseApart, StartsFrom, IsSorted, Nonempty, sort_intervals-IsSorted,
  PairwiseApart-sort_intervals,
}

-- The interval lies in the flash, and off the protected ones unless it bears their role.
abbrev pub OffProtected : Interval → List Interval → Type 0
OffProtected x [] = Unit
OffProtected x (p ∷ ps) = ((x.role ≡ p.role) ⊎ Apart x p) × OffProtected x ps

abbrev pub AllSafe : List Interval → Type 0
AllSafe [] = Unit
AllSafe (x ∷ l) =
    (x.start < x.finish) × (x.finish ≤ 0x1000000) × OffProtected x protected × AllSafe l

protected_test :
    (x p : Interval)
    → x.start < x.finish
    → p.start < p.finish
    → ((not (x.role == p.role) && overlap x p) ≡ false) ↔ ((x.role ≡ p.role) ⊎ Apart x p)
unfolding overlap
protected_test x p h n = (λ a. ground arith, λ a. ground arith)

check_protected_iff :
    (x : Interval) (ps : List Interval)
    → x.start < x.finish
    → Nonempty ps
    → (check_protected x ps ≡ ok tt) ↔ OffProtected x ps
unfolding check_protected
check_protected_iff x [] h e = (λ a. tt, λ a. refl)
check_protected_iff x (p ∷ ps) h (n, e) =
    let (to, from) = check_protected_iff x ps h e in
    let (split, join) = >>-ok (raise_if _ overlaps_protected) (check_protected x ps) tt in
    let (test, untest) = protected_test x p h n in
    let (passed, pass) = raise_if-ok (not (x.role == p.role) && overlap x p) overlaps_protected in
    (
      λ a. let (r, rest) = split a in (test (passed r), to rest),
      λ a. join (pass (untest a.0), from a.1),
    )

bounds_test :
    (x : Interval)
    → ((leb x.finish x.start || ltb 0x1000000 x.finish) ≡ false)
      ↔ ((x.start < x.finish) × (x.finish ≤ 0x1000000))
bounds_test x = (λ a. ground arith, λ a. ground arith)

protected-Nonempty : Nonempty protected
protected-Nonempty = (omega arith, (omega arith, tt))

-- One entry of the first loop.
check_interval_iff :
    (x : Interval)
    → (check_interval x ≡ ok tt)
      ↔ ((x.start < x.finish) × (x.finish ≤ 0x1000000) × OffProtected x protected)
unfolding check_interval
check_interval_iff x =
    let (split, join) = >>-ok (raise_if _ invalid) (check_protected x protected) tt in
    let (test, untest) = bounds_test x in
    let (passed, pass) = raise_if-ok (leb x.finish x.start || ltb 0x1000000 x.finish) invalid in
    (
      λ a.
          let (r, off) = split a in
          let (ne, within) = test (passed r) in
          (ne, within, (check_protected_iff x protected ne protected-Nonempty).0 off),
      λ (ne, within, off). join (
        pass (untest (ne, within)),
        (check_protected_iff x protected ne protected-Nonempty).1 off,
      ),
    )

-- The entries of the first loop with these ends.
abbrev pub as_regions : List Interval → List Region
as_regions [] = []
as_regions (x ∷ l) =
    record { start = pos x.start; finish = pos x.finish; role = x.role } ∷ as_regions l

abbrev region_of : ℤ → ℤ → Text → Region
region_of start finish role = record { start = start; finish = finish; role = role }

natural-ok :
    (start finish : ℤ) (role : Text) (x : Interval)
    → natural start finish role ≡ ok x
    → region_of start finish role ≡ region_of (pos x.start) (pos x.finish) x.role
unfolding natural
natural-ok (pos start) (pos finish) role x h =
    ap (λ (y : Interval). region_of (pos y.start) (pos y.finish) y.role)
      (ok-injective (record { start = start; finish = finish; role = role }) x h)
natural-ok (pos start) (negsuc finish) role x h = cc
natural-ok (negsuc start) finish role x h = cc

cons_regions :
    (r q : Region) (rs qs : List Region) → r ≡ q → rs ≡ qs → ◌≡◌ {A = List Region} (r ∷ rs) (q ∷ qs)
cons_regions r q rs qs h k = rw (h, k) refl

-- What the first loop lets through.
check_bounds-AllSafe :
    (rs : List Region) (l : List Interval)
    → check_bounds rs ≡ ok l
    → (rs ≡ as_regions l) × AllSafe l
unfolding check_bounds
check_bounds-AllSafe [] l h =
    subst (λ (k : List Interval). ([] ≡ as_regions k) × AllSafe k) (ok-injective [] l h) (refl, tt)
check_bounds-AllSafe (r ∷ rs) l h =
    let (x, first, h₁) = >>=-eq-ok (natural r.start r.finish r.role) _ h in
    let (_, checked, h₂) = >>=-eq-ok (check_interval x) _ h₁ in
    let (k, rest, h₃) = >>=-eq-ok (check_bounds rs) _ h₂ in
    let (same, safe) = check_bounds-AllSafe rs k rest in
    let (ne, within, off) = (check_interval_iff x).0 checked in
    subst (λ (m : List Interval). (r ∷ rs ≡ as_regions m) × AllSafe m) (ok-injective (x ∷ k) l h₃)
      (
        cons_regions r (region_of (pos x.start) (pos x.finish) x.role) rs (as_regions k)
            (natural-ok r.start r.finish r.role x first) same,
        (ne, within, off, safe),
      )

check_bounds-as_regions : (l : List Interval) → AllSafe l → check_bounds (as_regions l) ≡ ok l
unfolding check_bounds natural
check_bounds-as_regions [] a = refl
check_bounds-as_regions (x ∷ l) (ne, within, off, a) =
    rw ((check_interval_iff x).1 (ne, within, off), check_bounds-as_regions l a) refl

StartsFrom-ApartFrom : (x : Interval) (l : List Interval) → StartsFrom x.finish l → ApartFrom x l
StartsFrom-ApartFrom x [] s = tt
StartsFrom-ApartFrom x (y ∷ l) (a, s) = (inl a, StartsFrom-ApartFrom x l s)

StartsFrom-trans : (m n : ℕ) (l : List Interval) → m ≤ n → StartsFrom n l → StartsFrom m l
StartsFrom-trans m n [] h s = tt
StartsFrom-trans m n (y ∷ l) h (a, s) = (omega arith, StartsFrom-trans m n l h s)

-- The `break` skips only intervals that start later still.
check_against_iff :
    (x : Interval) (l : List Interval)
    → x.start < x.finish
    → Nonempty l
    → StartsFrom x.start l
    → IsSorted l
    → (check_against x l ≡ ok tt) ↔ ApartFrom x l
unfolding check_against overlap
check_against_iff x [] h e s o = (λ a. tt, λ a. refl)
check_against_iff x (y ∷ l) h (n, e) (a, s) (b, o) = elim (Bool-cases (leb x.finish y.start)) [
  | inl clear ↦
      let le : x.finish ≤ y.start = leb→le x.finish y.start clear in
      rw clear (
        λ _. (inl le, StartsFrom-ApartFrom x l (StartsFrom-trans x.finish y.start l le b)),
        λ _. refl,
      )
  | inr close ↦ rw close (λ r. ground arith, λ (near, _). ground arith)
]

check_overlaps_iff :
    (l : List Interval) → Nonempty l → IsSorted l → (check_overlaps l ≡ ok tt) ↔ PairwiseApart l
unfolding check_overlaps
check_overlaps_iff [] e o = (λ a. tt, λ a. refl)
check_overlaps_iff (x ∷ l) (n, e) (s, o) =
    let (to, from) = check_overlaps_iff l e o in
    let (against, back) = check_against_iff x l n e s o in
    let (split, join) = >>-ok (check_against x l) (check_overlaps l) tt in
    (λ a. let (r, rest) = split a in (against r, to rest), λ a. join (back a.0, from a.1))

AllSafe-Nonempty : (l : List Interval) → AllSafe l → Nonempty l
AllSafe-Nonempty [] a = tt
AllSafe-Nonempty (x ∷ l) (n, _, _, a) = (n, AllSafe-Nonempty l a)

Nonempty-insert_interval :
    (x : Interval) (l : List Interval)
    → x.start < x.finish
    → Nonempty l
    → Nonempty (insert_interval x l)
unfolding insert_interval
Nonempty-insert_interval x [] h e = (h, tt)
Nonempty-insert_interval x (y ∷ l) h (n, e) = elim (Bool-cases (interval_leb x y)) [
  | inl le ↦ rw le (h, (n, e))
  | inr gt ↦ rw gt (n, Nonempty-insert_interval x l h e)
]

Nonempty-sort_intervals : (l : List Interval) → Nonempty l → Nonempty (sort_intervals l)
unfolding sort_intervals
Nonempty-sort_intervals [] e = tt
Nonempty-sort_intervals (x ∷ l) (h, e) =
    Nonempty-insert_interval x (sort_intervals l) h (Nonempty-sort_intervals l e)

-- A layout is accepted exactly when every region, the onboarding partition included, does not start
-- below zero, is not empty, ends within the 16 MiB flash and shares no address with the NVS partition
-- unless its role is nvs, nor with the PHY partition unless its role is phy_init, and no two regions
-- share an address.
pub validate_flash_layout_iff :
    (artifacts : List Artifact) (onboarding_offset onboarding_size : ℤ)
    → (validate_flash_layout artifacts onboarding_offset onboarding_size ≡ ok tt) ↔ (
        (l : List Interval) × (intervals artifacts onboarding_offset onboarding_size ≡ as_regions l)
        × AllSafe l
        × PairwiseApart l)
unfolding validate_flash_layout
validate_flash_layout_iff artifacts o n =
    let sweep = λ (l : List Interval) (e : Nonempty l).
      check_overlaps_iff (sort_intervals l) (Nonempty-sort_intervals l e)
        (sort_intervals-IsSorted l) in
    (
      λ a.
          let (l, bounds, rest) = >>=-eq-ok (check_bounds (intervals artifacts o n)) _ a in
          let (same, safe) = check_bounds-AllSafe (intervals artifacts o n) l bounds in
          (
            l,
            same,
            safe,
            (PairwiseApart-sort_intervals l).0 ((sweep l (AllSafe-Nonempty l safe)).0 rest),
          ),
      λ (l, same, safe, apart).
          rw (same, check_bounds-as_regions l safe)
            ((sweep l (AllSafe-Nonempty l safe)).1 ((PairwiseApart-sort_intervals l).1 apart)),
    )
