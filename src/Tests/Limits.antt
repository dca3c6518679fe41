-- ===== src/Tests/Limits.antt =====
-- The limiter of ratelimit.py at concrete inputs, with a clock of one tick in a second.
use coinbase_amoled_terminal.Prelude.{
  ℕ, ◌+◌, ◌-◌, ◌*◌, ◌≤◌, ◌≡◌, refl, true, false, List, [], ◌∷◌, ◌++◌, arith, length, ok, list_eq,
  nat_eq, ℕ_discrete, list_eq,
}
use coinbase_amoled_terminal.Prelude.Text.{Text, codes}
use coinbase_amoled_terminal.Prelude.Dict.{Dict, lookup, insert, NodupKeys}
use coinbase_amoled_terminal.RateLimit.{Bucket, Limiter, capacity, allow}
use coinbase_amoled_terminal.RateLimit.Level.{IsSound}
use coinbase_amoled_terminal.RateLimit.Bounds.{allow_bounds}
use coinbase_amoled_terminal.RateLimit.Grants.{after_call, HasRoom, granted, granted-le-capacity}
use coinbase_amoled_terminal.RateLimit.Waiting.{retry_suffices}

-- 60 tokens in a minute, a burst of two tokens, which are 120 units.
abbrev limiter_with : Dict Text Bucket → Limiter
limiter_with d = record {
  rate_per_minute = 60;
  burst = 2;
  max_entries = 8;
  buckets = d;
  next_cleanup = 100;
}

abbrev fresh : Limiter
fresh = limiter_with []

abbrev spent : Limiter
spent = limiter_with ((codes "a", record { tokens = 0; updated_at = 10; last_seen = 10 }) ∷ [])

fresh-IsSound : IsSound 1 fresh
unfolding lookup NodupKeys
fresh-IsSound = record { nodup = tt; seen = λ k b e. cc; within = λ k b e. cc }

-- Ten calls by two keys, more than the limiter has room for buckets.
abbrev four_calls : ℕ → List (Text × ℕ × ℕ)
four_calls now =
    (codes "a", 60, now) ∷ (codes "b", 60, now) ∷ (codes "a", 60, now) ∷ (codes "a", 60, now) ∷ []

abbrev calls : List (Text × ℕ × ℕ)
calls = four_calls 1 ++ (four_calls 2 ++ ((codes "b", 60, 3) ∷ (codes "a", 60, 3) ∷ []))

refused_test : allow 1 spent (codes "a") 60 10 ≡ ok (spent, (false, 1))
unfolding allow lookup insert list_eq nat_eq ℕ_discrete
refused_test = refl

calls_room : HasRoom 1 fresh calls
unfolding after_call allow lookup insert list_eq nat_eq ℕ_discrete
calls_room = (
  omega arith,
  (
    omega arith,
    (
      omega arith,
      (
        omega arith,
        (
          omega arith,
          (omega arith, (omega arith, (omega arith, (omega arith, (omega arith, tt))))),
        ),
      ),
    ),
  ),
)

granted-le-capacity_example : granted 1 (codes "a") fresh calls ≤ capacity 1 fresh + (3 - 0) * 60
granted-le-capacity_example =
    granted-le-capacity 1 (codes "a") fresh calls 0 3 fresh-IsSound calls_room (
      omega arith,
      (
        omega arith,
        (
          omega arith,
          (
            omega arith,
            (
              omega arith,
              (
                omega arith,
                (omega arith, (omega arith, (omega arith, (omega arith, omega arith)))),
              ),
            ),
          ),
        ),
      ),
    )

retry_suffices_example : (l : Limiter) × (allow 1 spent (codes "a") 60 11 ≡ ok (l, (true, 0)))
unfolding capacity
retry_suffices_example =
    retry_suffices 1 spent spent (codes "a") 60 10 1 11 (omega arith) (omega arith) refused_test
      (omega arith)

abbrev after_one : Limiter
after_one = limiter_with ((codes "a", record { tokens = 60; updated_at = 1; last_seen = 1 }) ∷ [])

allowed_test : allow 1 fresh (codes "a") 60 1 ≡ ok (after_one, (true, 0))
unfolding allow lookup insert list_eq nat_eq ℕ_discrete
allowed_test = refl

allow_bounds_example : IsSound 1 after_one × (length after_one.buckets ≤ 8 + 1)
allow_bounds_example =
    allow_bounds 1 fresh after_one (codes "a") 60 1 (true, 0) fresh-IsSound allowed_test
