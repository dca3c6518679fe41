-- ===== src/Credentials/Swap.antt =====
-- What a swap of the selector does, and that of two swaps from the same slot one wins.
use coinbase_amoled_terminal.Prelude.{
  ◌≡◌, ◌↔◌, inl, inr, true, Option, none, some, ◌++◌, contains, ok, arith, Option-cases, list_eq,
  nat_eq, option_eq,
}
use coinbase_amoled_terminal.Prelude.Text.{Text, codes}
use coinbase_amoled_terminal.Prelude.Dict.{keys}
use coinbase_amoled_terminal.Credentials.Slots.{Secrets, is_slot_name, compare_and_swap}
use coinbase_amoled_terminal.Credentials.Selector.{
  IsSelectable, selected, selected_of_none, selected_of_some, active_slot-eq-selected, strip_name,
  swap-IsSelectable,
}

selected_valid :
    (s : Secrets) (c : Text) → IsSelectable s → selected s ≡ some c → is_slot_name c ≡ true
selected_valid s c h e = elim (Option-cases s.selector) [
  | inl at ↦ ground (arith, selected_of_none s at)
  | inr (line, at) ↦ ground (arith, selected_of_some s line at, h.named line at)
]

swap_to :
    (s : Secrets) (expected : Option Text) (name : Text)
    → IsSelectable s
    → (compare_and_swap expected (some name) s).0 ≡ ok true
    → (selected s ≡ expected)
      × (is_slot_name name ≡ true)
      × (contains (keys s.slots) name ≡ true)
      × ((compare_and_swap expected (some name) s).1.selector ≡ some (name ++ codes "\n"))
unfolding compare_and_swap
swap_to s expected name h =
    rw (active_slot-eq-selected s h, compare_and_swap) (λ answer. ground arith)

swap_from :
    (s : Secrets) (expected : Option Text) (name : Text)
    → IsSelectable s
    → selected s ≡ expected
    → is_slot_name name ≡ true
    → contains (keys s.slots) name ≡ true
    → (compare_and_swap expected (some name) s).0 ≡ ok true
unfolding compare_and_swap
swap_from s none name h same good there =
    rw (active_slot-eq-selected s h, compare_and_swap) (ground arith)
swap_from s (some old) name h same good there =
    rw (active_slot-eq-selected s h, compare_and_swap) (ground (arith, selected_valid s old h same))

-- On a directory whose selector is in order, a swap to a slot answers true exactly if the expected
-- slot, or none, is selected, the new name is well formed and its bundle is there.
pub compare_and_swap_iff :
    (s : Secrets) (expected : Option Text) (name : Text)
    → IsSelectable s
    → ((compare_and_swap expected (some name) s).0 ≡ ok true) ↔ (
        (selected s ≡ expected)
        × (is_slot_name name ≡ true)
        × (contains (keys s.slots) name ≡ true))
compare_and_swap_iff s expected name h = (
  λ answer. let (same, good, there, _) = swap_to s expected name h answer in (same, good, there),
  λ (same, good, there). swap_from s expected name h same good there,
)

-- Of two swaps that expect the same slot, one after the other, at most one answers true, if the first
-- one's slot is not the expected one.
pub one_swap_wins :
    (s : Secrets) (expected : Option Text) (one two : Text)
    → IsSelectable s
    → ¬ (some one ≡ expected)
    → (compare_and_swap expected (some one) s).0 ≡ ok true
    → ¬ (
        (compare_and_swap expected (some two) (compare_and_swap expected (some one) s).1).0
        ≡ ok true)
one_swap_wins s expected one two h other first second =
    let s₁ = (compare_and_swap expected (some one) s).1 in
    let (_, good, _, at) = swap_to s expected one h first in
    let again = (swap_to s₁ expected two (swap-IsSelectable expected (some one) s h) second).0 in
    other (ground (arith, selected_of_some s₁ (one ++ codes "\n") at, strip_name one good, again))
