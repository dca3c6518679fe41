-- ===== src/Credentials/Selector.antt =====
-- The selector always names a bundle that is there.
use mathlib.Core.List.{reverse, reverse-append, reverse-reverse}
use coinbase_amoled_terminal.Prelude.{
  ℕ, ◌≤◌, ◌≡◌, refl, ap, inl, inr, Bool, true, false, ◌||◌, Option, none, some, List, [], ◌∷◌, ◌++◌,
  contains, ltb, leb, eqb, length, all, ok, arith, Option-cases, length-append, list_eq, nat_eq,
  option_eq,
}
use coinbase_amoled_terminal.Prelude.Text.{
  Text, codes, is_lower, is_upper, is_digit, is_space, lstrip, strip,
}
use coinbase_amoled_terminal.Prelude.Dict.{keys, contains-keys-insert, contains-keys-erase}
use coinbase_amoled_terminal.Prelude.Chars.{all-append, all_mono, contains_of_all, all-reverse_aux}
use coinbase_amoled_terminal.Prelude.Slices.{
  strip_prefix, strip_suffix, strip_prefix-eq, strip_suffix-eq,
}
use coinbase_amoled_terminal.Credentials.Slots.{
  Secrets, is_slot_char, is_slot_name, read_secret, active_slot, stage_slot, compare_and_swap,
  remove_slot, save_atomic,
}

-- The characters of a slot's name.
is_name_char : ℕ → Bool
unfolding is_slot_char is_lower is_upper is_digit
is_name_char c = is_slot_char c || eqb c b'.'

slot_name_char : (c : ℕ) → is_slot_char c ≡ true → is_name_char c ≡ true
unfolding is_name_char
slot_name_char c h = ground arith

name_text :
    (name : Text)
    → is_slot_name name ≡ true
    → (all is_name_char name ≡ true) × (length name ≤ 98) × (1 ≤ length name)
unfolding is_slot_name is_name_char is_lower
name_text name h = elim (Option-cases (strip_prefix (codes "onboarding_") name)) [
  | inl e ↦ ground arith
  | inr (rest, e) ↦ elim (Option-cases (strip_suffix (codes ".bundle") rest)) [
    | inl f ↦ ground arith
    | inr (middle, f) ↦
        let chars : all is_slot_char middle ≡ true = ground arith in
        let short : length middle ≤ 80 = ground arith in
        rw
          (
            strip_prefix-eq (codes "onboarding_") name rest e,
            strip_suffix-eq (codes ".bundle") rest middle f,
          )
          (
            all-append is_name_char middle (codes ".bundle")
                (all_mono is_slot_char is_name_char middle slot_name_char chars) refl,
            omega (arith, short, length-append middle (codes ".bundle")),
            omega arith,
          )
  ]
]

name_char_facts :
    (c : ℕ) → is_name_char c ≡ true → (is_space c ≡ false) × (ltb c 128 ≡ true) × (eqb 0 c ≡ false)
unfolding is_name_char is_slot_char is_lower is_upper is_digit is_space
name_char_facts c h = (ground arith, ground arith, ground arith)

lstrip_name :
    (name rest : Text)
    → all is_name_char name ≡ true
    → 1 ≤ length name
    → lstrip (name ++ rest) ≡ name ++ rest
unfolding lstrip
lstrip_name [] rest h n = ground arith
lstrip_name (c ∷ name) rest h n = ground (arith, name_char_facts c)

lstrip_text : (s : Text) → all is_name_char s ≡ true → lstrip s ≡ s
unfolding lstrip
lstrip_text [] h = refl
lstrip_text (c ∷ s) h = ground (arith, name_char_facts c)

lstrip_newline : (s : Text) → all is_name_char s ≡ true → lstrip (codes "\n" ++ s) ≡ s
unfolding lstrip is_space
lstrip_newline s h = lstrip_text s h

strip_line :
    (name : Text)
    → all is_name_char name ≡ true
    → 1 ≤ length name
    → strip (name ++ codes "\n") ≡ name
unfolding strip
strip_line name h n =
    rw
      (
        lstrip_name name (codes "\n") h n,
        reverse-append name (codes "\n"),
        lstrip_newline (reverse name) (all-reverse_aux is_name_char name [] h refl),
      )
      (reverse-reverse name)

-- A line that is read from the selector's file.
line_facts :
    (name : Text)
    → is_slot_name name ≡ true
    → (all (λ c. ltb c 128) (name ++ codes "\n") ≡ true)
      × (contains (name ++ codes "\n") 0 ≡ false)
      × (length (name ++ codes "\n") ≤ 160)
      × (1 ≤ length (name ++ codes "\n"))
      × (strip (name ++ codes "\n") ≡ name)
line_facts name good =
    let (chars, short, long) = name_text name good in
    let ascii =
      all_mono is_name_char (λ c. ltb c 128) name (λ c h. (name_char_facts c h).1) chars in
    let positive =
      all_mono is_name_char (λ c. leb 1 c) name (λ c h. ground (arith, name_char_facts c)) chars in
    (
      all-append (λ c. ltb c 128) name (codes "\n") ascii refl,
      contains_of_all (λ c. leb 1 c) (name ++ codes "\n") 0
          (all-append (λ c. leb 1 c) name (codes "\n") positive refl) refl,
      omega (arith, short, length-append name (codes "\n")),
      omega (arith, length-append name (codes "\n")),
      strip_line name chars long,
    )

pub strip_name : (name : Text) → is_slot_name name ≡ true → strip (name ++ codes "\n") ≡ name
strip_name name good = (line_facts name good).4

-- The selector is absent, or it is one line with the name of a slot that is there.
pub record IsSelectable (s : Secrets) : Type 0 where
  pub named : (c : Text) → s.selector ≡ some c → is_slot_name (strip c) ≡ true
  pub line : (c : Text) → s.selector ≡ some c → c ≡ strip c ++ codes "\n"
  pub there : (c : Text) → s.selector ≡ some c → contains (keys s.slots) (strip c) ≡ true

read_line :
    (name : Text)
    → is_slot_name name ≡ true
    → read_secret (name ++ codes "\n") 160 ≡ ok (name ++ codes "\n")
unfolding read_secret
read_line name good =
    let (ascii, no_nul, short, long, line) = line_facts name good in
    rw no_nul (ground (arith, short, long))

active_of_line :
    (s : Secrets) (name : Text)
    → is_slot_name name ≡ true
    → s.selector ≡ some (name ++ codes "\n")
    → contains (keys s.slots) name ≡ true
    → active_slot s ≡ ok (some name)
unfolding active_slot
active_of_line s name good at there =
    let (ascii, no_nul, short, long, line) = line_facts name good in
    rw at (rw (read_line name good) (ground (arith, ascii, line, good, there)))

-- What a selectable directory selects.
pub selected : Secrets → Option Text
selected s = elim s.selector [ none ↦ none | some c ↦ some (strip c) ]

active_of_none : (s : Secrets) → s.selector ≡ none → active_slot s ≡ ok none
unfolding active_slot
active_of_none s at = rw at refl

pub selected_of_none : (s : Secrets) → s.selector ≡ none → selected s ≡ none
unfolding selected
selected_of_none s at = rw at refl

pub selected_of_some : (s : Secrets) (c : Text) → s.selector ≡ some c → selected s ≡ some (strip c)
unfolding selected
selected_of_some s c at = rw at refl

pub active_slot-eq-selected : (s : Secrets) → IsSelectable s → active_slot s ≡ ok (selected s)
active_slot-eq-selected s h = elim (Option-cases s.selector) [
  | inl at ↦ rw (selected_of_none s at) (active_of_none s at)
  | inr (c, at) ↦
      rw (selected_of_some s c at)
        (active_of_line s (strip c) (h.named c at) (rw at (ap some (h.line c at))) (h.there c at))
]

pub selector-eq-selected : (s s' : Secrets) → s'.selector ≡ s.selector → selected s' ≡ selected s
unfolding selected
selector-eq-selected s s' e = rw (e, selected) refl

pub selected-there :
    (s : Secrets) (c : Text)
    → IsSelectable s
    → selected s ≡ some c
    → contains (keys s.slots) c ≡ true
selected-there s c h e = elim (Option-cases s.selector) [
  | inl at ↦ ground (arith, selected_of_none s at)
  | inr (line, at) ↦ ground (arith, selected_of_some s line at, h.there line at)
]

-- The operations on the directory.
pub data Operation : Type 0 where
  stage : Text → Text → Operation
  swap : Option Text → Option Text → Operation
  remove : Text → Operation
  save : Text → Bool → Operation

unfoldable pub perform : Operation → Secrets → Secrets
perform (stage slot_name payload) s = (stage_slot slot_name payload s).1
perform (swap expected replacement) s = (compare_and_swap expected replacement s).1
perform (remove slot_name) s = (remove_slot slot_name s).1
perform (save payload replace) s = (save_atomic payload replace s).1

unfoldable pub run : Secrets → List Operation → Secrets
run s [] = s
run s (o ∷ operations) = run (perform o s) operations

pub stage-IsSelectable :
    (name payload : Text) (s : Secrets)
    → IsSelectable s
    → IsSelectable (stage_slot name payload s).1
unfolding stage_slot
stage-IsSelectable name payload s h = record {
  named = λ c e. ground (arith, h.named c);
  line = λ c e. ground (arith, h.line c);
  there = λ c e. ground (arith, h.there c, contains-keys-insert (strip c) name payload s.slots);
}

save-IsSelectable :
    (payload : Text) (replace : Bool) (s : Secrets)
    → IsSelectable s
    → IsSelectable (save_atomic payload replace s).1
unfolding save_atomic
save-IsSelectable payload replace s h = record {
  named = λ c e. ground (arith, h.named c);
  line = λ c e. ground (arith, h.line c);
  there = λ c e. ground (arith, h.there c);
}

pub remove-IsSelectable :
    (name : Text) (s : Secrets) → IsSelectable s → IsSelectable (remove_slot name s).1
unfolding remove_slot selected
remove-IsSelectable name s h = rw (active_slot-eq-selected s h) (record {
  named = λ c e. ground (arith, h.named c);
  line = λ c e. ground (arith, h.line c);
  there = λ c e. ground (arith, h.there c, contains-keys-erase (strip c) name s.slots);
})

pub swap-IsSelectable :
    (expected replacement : Option Text) (s : Secrets)
    → IsSelectable s
    → IsSelectable (compare_and_swap expected replacement s).1
unfolding compare_and_swap selected
swap-IsSelectable expected none s h = rw (active_slot-eq-selected s h) (record {
  named = λ c e. ground (arith, h.named c);
  line = λ c e. ground (arith, h.line c);
  there = λ c e. ground (arith, h.there c);
})
swap-IsSelectable expected (some name) s h = rw (active_slot-eq-selected s h) (record {
  named = λ c e. ground (arith, h.named c, strip_name name);
  line = λ c e. ground (arith, h.line c, strip_name name);
  there = λ c e. ground (arith, h.there c, strip_name name);
})

perform-IsSelectable : (o : Operation) (s : Secrets) → IsSelectable s → IsSelectable (perform o s)
unfolding perform
perform-IsSelectable (stage name payload) s h = stage-IsSelectable name payload s h
perform-IsSelectable (swap expected replacement) s h = swap-IsSelectable expected replacement s h
perform-IsSelectable (remove name) s h = remove-IsSelectable name s h
perform-IsSelectable (save payload replace) s h = save-IsSelectable payload replace s h

run-IsSelectable :
    (s : Secrets) (operations : List Operation) → IsSelectable s → IsSelectable (run s operations)
unfolding run
run-IsSelectable s [] h = h
run-IsSelectable s (o ∷ operations) h =
    run-IsSelectable (perform o s) operations (perform-IsSelectable o s h)

-- However slots are staged, swapped in, removed and replaced by the single bundle, from a directory
-- whose selector is in order, the selector can always be read: it is absent or names a slot that is
-- there, and is never found invalid or without its bundle.
pub active_slot-run :
    (s : Secrets) (operations : List Operation)
    → IsSelectable s
    → active_slot (run s operations) ≡ ok (selected (run s operations))
active_slot-run s operations h =
    active_slot-eq-selected (run s operations) (run-IsSelectable s operations h)
