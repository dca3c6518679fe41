-- ===== src/Prelude/Slices.antt =====
-- Prefixes, suffixes and splits of texts: `s[len(p):]` behind `s.startswith(p)`, `s[:-len(x)]`
-- behind `s.endswith(x)`, and `s.split(c, 1)`.
use Prim.Native.Nat.{ℕ}
use mathlib.Core.Path.{◌≡◌, refl, ap}
use mathlib.Core.Logic.{inl, inr}
use mathlib.Core.Bool.{false}
use mathlib.Core.Option.{Option, none, some}
use mathlib.Core.List.{[], ◌∷◌, ◌++◌}
use native.Mathlib.Omega.{arith}
use coinbase_amoled_terminal.Prelude.Tests.{
  ◌==◌, eqb, if◌then◌else◌, list_eq, nat_eq, Option-cases, Bool-cases, contains,
}
use coinbase_amoled_terminal.Prelude.Lists.{length, length-append}
use coinbase_amoled_terminal.Prelude.Text.{Text}

unfoldable pub strip_prefix : Text → Text → Option Text
strip_prefix [] s = some s
strip_prefix (c ∷ p) [] = none
strip_prefix (c ∷ p) (d ∷ s) = let rest = strip_prefix p s in if eqb c d then rest else none

unfoldable pub strip_suffix : Text → Text → Option Text
strip_suffix x [] = if x == [] then some [] else none
strip_suffix x (c ∷ s) =
    let rest = strip_suffix x s in
    if x == c ∷ s then some [] else elim rest [ none ↦ none | some r ↦ some (c ∷ r) ]

unfoldable pub split_first : ℕ → Text → Option (Text × Text)
split_first c [] = none
split_first c (d ∷ s) =
    let rest = split_first c s in
    if eqb c d then some ([], s) else elim rest [ none ↦ none | some (a, b) ↦ some (d ∷ a, b) ]

pub strip_prefix-eq : (p s r : Text) → strip_prefix p s ≡ some r → s ≡ p ++ r
unfolding strip_prefix
strip_prefix-eq [] s r h = cc
strip_prefix-eq (c ∷ p) [] r h = cc
strip_prefix-eq (c ∷ p) (d ∷ s) r h = ground (arith, strip_prefix-eq p s r)

pub strip_prefix-append : (p r : Text) → strip_prefix p (p ++ r) ≡ some r
unfolding strip_prefix
strip_prefix-append [] r = refl
strip_prefix-append (c ∷ p) r = ground (arith, strip_prefix-append p r)

pub strip_suffix-eq : (x s r : Text) → strip_suffix x s ≡ some r → s ≡ r ++ x
unfolding strip_suffix
strip_suffix-eq x [] r h = elim (Bool-cases (x == [])) [
  | inl e ↦ ground arith
  | inr e ↦ ground arith
]
strip_suffix-eq x (c ∷ s) r h = elim (Option-cases (strip_suffix x s)) [
  | inl e ↦ ground arith
  | inr (q, e) ↦ ground (arith, strip_suffix-eq x s q e)
]

longer : (x r : Text) (c : ℕ) → x ≡ c ∷ (r ++ x) → ⊥
longer x r c h = omega (arith, ap length h, length-append r x)

pub strip_suffix-append : (x r : Text) → strip_suffix x (r ++ x) ≡ some r
unfolding strip_suffix list_eq
strip_suffix-append [] [] = refl
strip_suffix-append (d ∷ x) [] = ground arith
strip_suffix-append x (c ∷ r) = ground (arith, strip_suffix-append x r, longer x r c)

pub split_first-eq : (c : ℕ) (s a b : Text) → split_first c s ≡ some (a, b) → s ≡ a ++ (c ∷ b)
unfolding split_first
split_first-eq c [] a b h = cc
split_first-eq c (d ∷ s) a b h = elim (Option-cases (split_first c s)) [
  | inl e ↦ ground arith
  | inr ((a', b'), e) ↦ ground (arith, split_first-eq c s a' b' e)
]

pub split_first-append :
    (c : ℕ) (a b : Text) → contains a c ≡ false → split_first c (a ++ (c ∷ b)) ≡ some (a, b)
unfolding split_first
split_first-append c [] b h = ground arith
split_first-append c (d ∷ a) b h = ground (arith, split_first-append c a b)

pub split_first_of_absent : (c : ℕ) (s : Text) → contains s c ≡ false → split_first c s ≡ none
unfolding split_first
split_first_of_absent c [] h = refl
split_first_of_absent c (d ∷ s) h = ground (arith, split_first_of_absent c s)
