-- ===== src/Prelude/Chars.antt =====
-- Texts all of whose characters are of a class.
use Prim.Native.Nat.{ℕ}
use mathlib.Core.Path.{◌≡◌, refl}
use mathlib.Core.Bool.{Bool, true, false}
use mathlib.Core.List.{[], ◌∷◌, ◌++◌, reverse_aux}
use native.Mathlib.Omega.{arith}
use coinbase_amoled_terminal.Prelude.Tests.{contains, nat_eq}
use coinbase_amoled_terminal.Prelude.Lists.{all}
use coinbase_amoled_terminal.Prelude.Text.{Text}

pub contains-append : (r t : Text) (c : ℕ) → contains (r ++ (c ∷ t)) c ≡ true
contains-append [] t c = ground arith
contains-append (d ∷ r) t c = ground (arith, contains-append r t c)

-- A character outside a class is in no text of the class.
pub contains_of_all :
    (p : ℕ → Bool) (s : Text) (c : ℕ) → all p s ≡ true → p c ≡ false → contains s c ≡ false
contains_of_all p [] c h e = refl
contains_of_all p (d ∷ s) c h e = ground (arith, contains_of_all p s c)

pub all-append :
    (p : ℕ → Bool) (s t : Text) → all p s ≡ true → all p t ≡ true → all p (s ++ t) ≡ true
all-append p [] t h k = k
all-append p (c ∷ s) t h k = ground (arith, all-append p s t)

pub all_mono :
    (p q : ℕ → Bool) (s : Text)
    → ((c : ℕ) → p c ≡ true → q c ≡ true)
    → all p s ≡ true
    → all q s ≡ true
all_mono p q [] f h = refl
all_mono p q (c ∷ s) f h = ground (arith, f c, all_mono p q s f)

pub all-reverse_aux :
    (p : ℕ → Bool) (s acc : Text)
    → all p s ≡ true
    → all p acc ≡ true
    → all p (reverse_aux s acc) ≡ true
all-reverse_aux p [] acc h k = k
all-reverse_aux p (c ∷ s) acc h k = all-reverse_aux p s (c ∷ acc) (ground arith) (ground arith)
