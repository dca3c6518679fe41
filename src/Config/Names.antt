-- ===== src/Config/Names.antt =====
-- The search for a free backup name in `_write_backup_unlocked` of config.py: the names are the base,
-- then the base with a counter.
use coinbase_amoled_terminal.Prelude.{
  ℕ, zero, suc, ◌≤◌, ◌<◌, ◌≡◌, ◌≢◌, ◌∙◌, ap, sym, true, false, Option, none, some, List, [], ◌∷◌,
  ◌++◌, contains, ◌==◌, if◌then◌else◌, arith, Bool-cases, inl, inr, length, length-append, drop,
  drop-append, list_eq, nat_eq,
}
use coinbase_amoled_terminal.Prelude.Text.{Text, codes}

-- `str` of a counter is Python's.
module _ (str_of_nat : ℕ → Text) where
  abbrev pub numbered : Text → ℕ → Text
  numbered base counter = base ++ (codes "-" ++ str_of_nat counter)

  -- The loop from `counter` on, where `path` is taken so far.
  unfoldable pub next_name : ℕ → Text → List Text → Text → ℕ → Option Text
  next_name zero base taken path counter = none
  next_name (suc fuel) base taken path counter =
      let rest = next_name fuel base taken (numbered base counter) (suc counter) in
      if contains taken path then rest else some path

  unfoldable pub free_name : Text → List Text → Option Text
  unfolding next_name
  free_name base taken = next_name (suc (suc (length taken))) base taken base 1

pub next_name-free :
    (str_of_nat : ℕ → Text) (fuel : ℕ) (base : Text) (taken : List Text) (path : Text) (counter : ℕ)
    (found : Text)
    → next_name str_of_nat fuel base taken path counter ≡ some found
    → contains taken found ≡ false
unfolding next_name
next_name-free str_of_nat zero base taken path counter found h = cc
next_name-free str_of_nat (suc fuel) base taken path counter found h =
    elim (Bool-cases (contains taken path)) [
      | inl e ↦
          next_name-free str_of_nat fuel base taken (numbered str_of_nat base counter) (suc counter)
            found (ground arith)
      | inr e ↦ ground arith
    ]

remove : Text → List Text → List Text
remove x [] = []
remove x (y ∷ l) = let rest = remove x l in if x == y then rest else y ∷ rest

length-remove : (x : Text) (l : List Text) → length (remove x l) ≤ length l
unfolding remove
length-remove x [] = omega arith
length-remove x (y ∷ l) = ground (arith, length-remove x l)

length-remove_of_mem :
    (x : Text) (l : List Text) → contains l x ≡ true → length (remove x l) < length l
unfolding remove
length-remove_of_mem x [] h = cc
length-remove_of_mem x (y ∷ l) h = ground (arith, length-remove x l, length-remove_of_mem x l)

contains-remove :
    (x y : Text) (l : List Text) → contains l y ≡ true → y ≢ x → contains (remove x l) y ≡ true
unfolding remove
contains-remove x y [] h differ = cc
contains-remove x y (z ∷ l) h differ = ground (arith, contains-remove x y l, differ)

append_cancel : (p a b : Text) → p ++ a ≡ p ++ b → a ≡ b
append_cancel p a b h = sym (drop-append p a) ∙ (ap (drop (length p)) h ∙ drop-append p b)

module _ (str_of_nat : ℕ → Text) (injective : (i j : ℕ) → str_of_nat i ≡ str_of_nat j → i ≡ j) where
  numbered-injective :
      (base : Text) (i j : ℕ) → numbered str_of_nat base i ≡ numbered str_of_nat base j → i ≡ j
  numbered-injective base i j h = injective i j (
      append_cancel (codes "-") (str_of_nat i) (str_of_nat j)
        (append_cancel base (codes "-" ++ str_of_nat i) (codes "-" ++ str_of_nat j) h))

  numbered_differs : (base : Text) (i : ℕ) → numbered str_of_nat base i ≢ base
  numbered_differs base i h =
      omega (arith, ap length h, length-append base (codes "-" ++ str_of_nat i))

  -- `live` has the taken names that the loop may still meet.
  next_name-finds :
      (fuel : ℕ) (base : Text) (taken live : List Text) (path : Text) (counter : ℕ)
      → (contains taken path ≡ true → contains live path ≡ true)
      → ((i : ℕ)
          → counter ≤ i
          → contains taken (numbered str_of_nat base i) ≡ true
          → contains live (numbered str_of_nat base i) ≡ true)
      → ((i : ℕ) → counter ≤ i → numbered str_of_nat base i ≢ path)
      → length live < fuel
      → (found : Text) × (next_name str_of_nat fuel base taken path counter ≡ some found)
  unfolding next_name
  next_name-finds zero base taken live path counter here later fresh enough =
      let absurd : ⊥ = omega (arith, enough) in elim absurd [ ]
  next_name-finds (suc fuel) base taken live path counter here later fresh enough =
      elim (Bool-cases (contains taken path)) [
        | inr e ↦ (path, ground arith)
        | inl e ↦
            let next = numbered str_of_nat base counter in
            let shorter = length-remove_of_mem path live (here e) in
            let (found, p) =
              next_name-finds fuel base taken (remove path live) next (suc counter)
                (λ h.
                  contains-remove path next live (later counter (omega arith) h)
                    (fresh counter (omega arith)))
                (λ i above h.
                  contains-remove path (numbered str_of_nat base i) live
                    (later i (omega (arith, above)) h) (fresh i (omega (arith, above))))
                (λ i above same. omega (arith, above, numbered-injective base i counter same))
                (omega (arith, shorter, enough)) in
            (found, ground (arith, p))
      ]

  -- The search for a backup name ends with a name that is not taken, within two rounds more than
  -- there are files in the directory, if no two numbers are written the same.
  pub free_name-finds :
      (base : Text) (taken : List Text)
      → (found : Text) × (free_name str_of_nat base taken ≡ some found)
        × (contains taken found ≡ false)
  unfolding free_name
  free_name-finds base taken =
      let (found, p) =
        next_name-finds (suc (suc (length taken))) base taken taken base 1 (λ h. h) (λ i above h. h)
          (λ i above. numbered_differs base i) (omega arith) in
      (found, p, next_name-free str_of_nat (suc (suc (length taken))) base taken base 1 found p)
