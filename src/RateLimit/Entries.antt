-- ===== src/RateLimit/Entries.antt =====
-- How many buckets the limiter of ratelimit.py keeps, and that none holds more than the burst.
use coinbase_amoled_terminal.Prelude.{
  ℕ, zero, suc, ◌+◌, ◌-◌, ◌≤◌, ◌≡◌, refl, ◌∙◌, ap, inl, inr, true, false, ◌||◌, none, List, [], ◌∷◌,
  arith, ◌==◌, contains, ltb, if◌then◌else◌, length, take, list_eq, nat_eq, Bool-cases, sym, ltb→lt,
}
use coinbase_amoled_terminal.Prelude.Text.{Text}
use coinbase_amoled_terminal.Prelude.Dict.{
  Dict, lookup, erase, keys, NodupKeys, lookup-erase, length-erase, contains-keys-erase,
  erase-NodupKeys, length-erase_of_mem,
}
use coinbase_amoled_terminal.RateLimit.{
  Bucket, erase_all, insert_by_seen, sort_by_seen, drop_oldest,
}

pub lookup-erase_all :
    (j : Text) (ks : List Text) (d : Dict Text Bucket)
    → lookup j (erase_all ks d) ≡ (if contains ks j then none else lookup j d)
unfolding erase_all
lookup-erase_all j [] d = refl
lookup-erase_all j (k ∷ ks) d =
    ground (arith, lookup-erase_all j ks (erase k d), lookup-erase j k d)

pub erase_all-NodupKeys :
    (ks : List Text) (d : Dict Text Bucket) → NodupKeys d → NodupKeys (erase_all ks d)
unfolding erase_all
erase_all-NodupKeys [] d u = u
erase_all-NodupKeys (k ∷ ks) d u = erase_all-NodupKeys ks (erase k d) (erase-NodupKeys k d u)

pub length-erase_all : (ks : List Text) (d : Dict Text Bucket) → length (erase_all ks d) ≤ length d
unfolding erase_all
length-erase_all [] d = omega arith
length-erase_all (k ∷ ks) d = omega (arith, length-erase_all ks (erase k d), length-erase k d)

-- The keys of a duplicate-free list are each found once.
abbrev Distinct : List Text → Dict Text Bucket → Type 0
Distinct [] d = Unit
Distinct (k ∷ ks) d = (contains ks k ≡ false) × (contains (keys d) k ≡ true) × Distinct ks d

Distinct-erase :
    (k : Text) (ks : List Text) (d : Dict Text Bucket)
    → contains ks k ≡ false
    → Distinct ks d
    → Distinct ks (erase k d)
Distinct-erase k [] d fresh h = tt
Distinct-erase k (j ∷ ks) d fresh (a, b, c) =
    ground (arith, Distinct-erase k ks d, contains-keys-erase j k d)

length-erase_all_of_mem :
    (ks : List Text) (d : Dict Text Bucket)
    → NodupKeys d
    → Distinct ks d
    → length (erase_all ks d) + length ks ≡ length d
unfolding erase_all
length-erase_all_of_mem [] d u h = omega arith
length-erase_all_of_mem (k ∷ ks) d u (fresh, present, rest) = omega (
  arith,
  length-erase_all_of_mem ks (erase k d) (erase-NodupKeys k d u) (Distinct-erase k ks d fresh rest),
  length-erase_of_mem k d u present,
)

contains-insert_by_seen :
    (j : Text) (x : Text × Bucket) (d : Dict Text Bucket)
    → contains (keys (insert_by_seen x d)) j ≡ (j == x.0 || contains (keys d) j)
unfolding insert_by_seen
contains-insert_by_seen j x [] = refl
contains-insert_by_seen j x (y ∷ d) = ground (arith, contains-insert_by_seen j x d)

insert_by_seen-NodupKeys :
    (x : Text × Bucket) (d : Dict Text Bucket)
    → contains (keys d) x.0 ≡ false
    → NodupKeys d
    → NodupKeys (insert_by_seen x d)
unfolding insert_by_seen
insert_by_seen-NodupKeys x [] fresh u = (refl, tt)
insert_by_seen-NodupKeys x (y ∷ d) fresh (a, u) =
    ground (arith, insert_by_seen-NodupKeys x d, contains-insert_by_seen y.0 x d)

contains-sort_by_seen :
    (j : Text) (d : Dict Text Bucket) → contains (keys (sort_by_seen d)) j ≡ contains (keys d) j
unfolding sort_by_seen
contains-sort_by_seen j [] = refl
contains-sort_by_seen j ((k, b) ∷ d) =
    ground (arith, contains-sort_by_seen j d, contains-insert_by_seen j (k, b) (sort_by_seen d))

sort_by_seen-NodupKeys : (d : Dict Text Bucket) → NodupKeys d → NodupKeys (sort_by_seen d)
unfolding sort_by_seen
sort_by_seen-NodupKeys [] u = tt
sort_by_seen-NodupKeys ((k, b) ∷ d) (fresh, u) =
    insert_by_seen-NodupKeys (k, b) (sort_by_seen d) (contains-sort_by_seen k d ∙ fresh)
      (sort_by_seen-NodupKeys d u)

contains-take :
    (j : Text) (n : ℕ) (d : Dict Text Bucket)
    → contains (keys d) j ≡ false
    → contains (keys (take n d)) j ≡ false
contains-take j zero d h = refl
contains-take j (suc n) [] h = refl
contains-take j (suc n) (x ∷ d) h = ground (arith, contains-take j n d)

-- Any first part of a duplicate-free list over the keys of `d` can be erased from `d` one by one.
Distinct-take :
    (n : ℕ) (s d : Dict Text Bucket)
    → NodupKeys s
    → ((j : Text) → contains (keys s) j ≡ true → contains (keys d) j ≡ true)
    → Distinct (keys (take n s)) d
Distinct-take zero s d u sub = tt
Distinct-take (suc n) [] d u sub = tt
Distinct-take (suc n) ((k, b) ∷ s) d (fresh, u) sub = (
  contains-take k n s fresh,
  sub k (ground arith),
  Distinct-take n s d u (λ j h. sub j (ground arith)),
)

length-insert_by_seen :
    (x : Text × Bucket) (d : Dict Text Bucket) → length (insert_by_seen x d) ≡ length d + 1
unfolding insert_by_seen
length-insert_by_seen x [] = omega arith
length-insert_by_seen x (y ∷ d) = ground (arith, length-insert_by_seen x d)

length-sort_by_seen : (d : Dict Text Bucket) → length (sort_by_seen d) ≡ length d
unfolding sort_by_seen
length-sort_by_seen [] = refl
length-sort_by_seen (x ∷ d) =
    omega (arith, length-insert_by_seen x (sort_by_seen d), length-sort_by_seen d)

length-keys-take : (n : ℕ) (d : Dict Text Bucket) → n ≤ length d → length (keys (take n d)) ≡ n
length-keys-take zero d h = refl
length-keys-take (suc n) [] h = absurd (omega arith)
length-keys-take (suc n) (x ∷ d) h = ap suc (length-keys-take n d (omega arith))

pub length-drop_oldest :
    (most : ℕ) (d : Dict Text Bucket) → NodupKeys d → length (drop_oldest most d) ≤ most
unfolding drop_oldest
length-drop_oldest most d u = elim (Bool-cases (ltb most (length d))) [
  | inl over ↦
      let n = length d - most in
      let gone = keys (take n (sort_by_seen d)) in
      let there =
        Distinct-take n (sort_by_seen d) d (sort_by_seen-NodupKeys d u)
          (λ j h. sym (contains-sort_by_seen j d) ∙ h) in
      rw over (
        omega (
          arith,
          length-erase_all_of_mem gone d u there,
          length-keys-take n (sort_by_seen d) (omega (arith, length-sort_by_seen d)),
          ltb→lt most (length d) over,
        ))
  | inr fits ↦ rw fits (ground arith)
]

pub drop_oldest-NodupKeys :
    (most : ℕ) (d : Dict Text Bucket) → NodupKeys d → NodupKeys (drop_oldest most d)
unfolding drop_oldest
drop_oldest-NodupKeys most d u =
    ground (arith, erase_all-NodupKeys (keys (take (length d - most) (sort_by_seen d))) d u)
