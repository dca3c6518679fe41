-- ===== src/Prelude/Int.antt =====
-- Python's integers over the native numbers, under the library's name. `negsuc n` is -(n + 1).
use Prim.Native.Nat.{ℕ, ◌-◌, ◌+◌}
use mathlib.Core.Path.{ap}
use mathlib.Core.Logic.{dite}
use native.Mathlib.Decide.{ℕ_discrete}
use coinbase_amoled_terminal.Prelude.Tests.{Eq, leb, if◌then◌else◌}

pub data ℤ : Type 0 where
  pos : ℕ → ℤ
  negsuc : ℕ → ℤ

int_dec : Discrete ℤ
int_dec (pos m) (pos n) =
    dite (ℕ_discrete m n) (λ p. yes (ap pos p)) (λ differ. no (λ r. differ (cc)))
int_dec (pos m) (negsuc n) = no (λ p. cc)
int_dec (negsuc m) (pos n) = no (λ p. cc)
int_dec (negsuc m) (negsuc n) =
    dite (ℕ_discrete m n) (λ p. yes (ap negsuc p)) (λ differ. no (λ r. differ (cc)))

instance unfoldable pub int_eq : Eq ℤ
unfolding int_dec
int_eq = record { dec = int_dec }

-- `m + n`
abbrev pub add : ℤ → ℤ → ℤ
add (pos m) (pos n) = pos (m + n)
add (pos m) (negsuc n) = if leb (n + 1) m then pos (m - (n + 1)) else negsuc (n - m)
add (negsuc m) (pos n) = if leb (m + 1) n then pos (n - (m + 1)) else negsuc (m - n)
add (negsuc m) (negsuc n) = negsuc (m + n + 1)

-- `m - n`
abbrev pub minus : ℕ → ℕ → ℤ
minus m n = if leb n m then pos (m - n) else negsuc (n - m - 1)
