-- ===== src/Installer/Layout.antt =====
-- `_validate_flash_layout` of firmware_installer.py.
pub mod Sorted
pub mod Disjoint
use coinbase_amoled_terminal.Prelude.{
  ℕ, ◌+◌, ◌<◌, min, max, Bool, true, false, not, ◌&&◌, ◌||◌, List, [], ◌∷◌, ◌++◌, ◌==◌, ltb, leb,
  eqb, if◌then◌else◌, Result, ok, err, ◌>>=◌, ◌>>◌, raise_if, list_eq, nat_eq,
}
use coinbase_amoled_terminal.Prelude.Int.{ℤ, pos, negsuc, add}
use coinbase_amoled_terminal.Prelude.Text.{Text, codes}

-- `Artifact`
pub record Artifact : Type 0 where
  pub role : Text
  pub path : Text
  pub offset : ℤ
  pub size : ℤ
  pub sha256 : Text

-- The entries of `intervals`: a start, an end and a role.
pub record Region : Type 0 where
  pub start : ℤ
  pub finish : ℤ
  pub role : Text

-- An entry that does not start or end below zero.
pub record Interval : Type 0 where
  pub start : ℕ
  pub finish : ℕ
  pub role : Text

pub data LayoutError : Type 0 where
  invalid overlaps_protected overlaps : LayoutError

-- Python's order on strings and on the tuples.
unfoldable pub text_leb : Text → Text → Bool
text_leb [] t = true
text_leb (c ∷ s) [] = false
text_leb (c ∷ s) (d ∷ t) = let rest = text_leb s t in ltb c d || eqb c d && rest

unfoldable pub interval_leb : Interval → Interval → Bool
unfolding text_leb
interval_leb x y =
    ltb x.start y.start
    || eqb x.start y.start
      && (ltb x.finish y.finish || eqb x.finish y.finish && text_leb x.role y.role)

-- `sorted(intervals)`
unfoldable pub insert_interval : Interval → List Interval → List Interval
unfolding interval_leb
insert_interval x [] = x ∷ []
insert_interval x (y ∷ l) =
    let rest = insert_interval x l in if interval_leb x y then x ∷ y ∷ l else y ∷ rest

unfoldable pub sort_intervals : List Interval → List Interval
unfolding insert_interval
sort_intervals [] = []
sort_intervals (x ∷ l) = insert_interval x (sort_intervals l)

unfoldable pub intervals : List Artifact → ℤ → ℤ → List Region
intervals [] onboarding_offset onboarding_size =
    record {
      start = onboarding_offset;
      finish = add onboarding_offset onboarding_size;
      role = codes "onboarding";
    }
    ∷ []
intervals (a ∷ artifacts) onboarding_offset onboarding_size =
    record { start = a.offset; finish = add a.offset a.size; role = a.role }
    ∷ intervals artifacts onboarding_offset onboarding_size

abbrev pub protected : List Interval
protected =
    record { start = 0x9000; finish = 0xF000; role = codes "nvs" }
    ∷ record { start = 0xF000; finish = 0x10000; role = codes "phy_init" }
    ∷ []

-- `max(start, other_start) < min(end, other_end)`
unfoldable pub overlap : Interval → Interval → Bool
overlap x y = ltb (max x.start y.start) (min x.finish y.finish)

unfoldable pub check_protected : Interval → List Interval → Result LayoutError (Unit {0})
check_protected x [] = ok tt
check_protected x (p ∷ ps) =
    raise_if (not (x.role == p.role) && overlap x p) overlaps_protected >> check_protected x ps

-- `start < 0 or end <= start`, as far as it is about a number below zero.
unfoldable pub natural : ℤ → ℤ → Text → Result LayoutError Interval
natural (pos start) (pos finish) role = ok (record { start = start; finish = finish; role = role })
natural (pos start) (negsuc finish) role = err invalid
natural (negsuc start) finish role = err invalid

unfoldable pub check_interval : Interval → Result LayoutError (Unit {0})
unfolding check_protected
check_interval x =
    raise_if (leb x.finish x.start || ltb 0x1000000 x.finish) invalid >> check_protected x protected

-- The first loop, with the entries that it lets through.
unfoldable pub check_bounds : List Region → Result LayoutError (List Interval)
unfolding natural check_interval
check_bounds [] = ok []
check_bounds (r ∷ rs) = do
  x ← natural r.start r.finish r.role
  check_interval x
  l ← check_bounds rs
  ok (x ∷ l)

-- The inner loop of the second one, with its `break`.
unfoldable pub check_against : Interval → List Interval → Result LayoutError (Unit {0})
check_against x [] = ok tt
check_against x (y ∷ l) =
    let rest = check_against x l in
    if leb x.finish y.start then ok tt else if overlap x y then err overlaps else rest

unfoldable pub check_overlaps : List Interval → Result LayoutError (Unit {0})
unfolding check_against
check_overlaps [] = ok tt
check_overlaps (x ∷ l) = check_against x l >> check_overlaps l

unfoldable pub validate_flash_layout : List Artifact → ℤ → ℤ → Result LayoutError (Unit {0})
unfolding intervals check_bounds check_overlaps sort_intervals
validate_flash_layout artifacts onboarding_offset onboarding_size = do
  l ← check_bounds (intervals artifacts onboarding_offset onboarding_size)
  check_overlaps (sort_intervals l)
