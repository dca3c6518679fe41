-- ===== src/RateLimit/Level.antt =====
-- The tokens that a key has at a time, and what a cleanup of ratelimit.py does to them.
use native.Mathlib.Nat.{div-add-mod, mod-lt}
use coinbase_amoled_terminal.Prelude.{
  ℕ, ◌+◌, ◌-◌, ◌*◌, ◌/◌, ◌≤◌, ◌<◌, min, max, ◌≡◌, refl, inl, inr, ◌⊎◌, Bool, true, false, Option,
  none, some, [], ◌∷◌, arith, contains, sym, if◌then◌else◌, length, take, list_eq, nat_eq,
  Bool-cases, Option-cases, ltb→lt,
}
use coinbase_amoled_terminal.Prelude.Text.{Text}
use coinbase_amoled_terminal.Prelude.Dict.{Dict, lookup, keys, NodupKeys, lookup_of_absent}
use coinbase_amoled_terminal.RateLimit.{
  Bucket, Limiter, sort_by_seen, capacity, is_stale, stale_keys, drop_stale, drop_oldest,
  maybe_cleanup, refill, retry_after,
}
use coinbase_amoled_terminal.RateLimit.Entries.{lookup-erase_all}

-- Each bucket was last seen when it was last updated, and holds at most the burst.
pub record IsSound (hz : ℕ) (l : Limiter) : Type 0 where
  pub nodup : NodupKeys l.buckets
  pub seen : (k : Text) (b : Bucket) → lookup k l.buckets ≡ some b → b.updated_at ≡ b.last_seen
  pub within : (k : Text) (b : Bucket) → lookup k l.buckets ≡ some b → b.tokens ≤ capacity hz l

pub mul_mono : (a b r : ℕ) → a ≤ b → a * r ≤ b * r
mul_mono a b r h = grind arith

-- Waiting long enough earns the whole capacity `c`.
earned : (c x now seen r : ℕ) → seen * r + x < now * r → c ≤ x → c ≤ (now - seen) * r
earned c x now seen r h k = omega (arith, mul_mono now ((now - seen) + seen) r (omega arith))

module _ (hz : ℕ) where
  unfoldable pub level : Limiter → Text → ℕ → ℕ
  unfolding refill
  level l key now = (refill hz l key now).tokens

  -- The level as a function of the bucket that is found.
  unfoldable pub level_of : Limiter → Option Bucket → ℕ → ℕ
  level_of l none now = capacity hz l
  level_of l (some b) now =
      min (capacity hz l) (b.tokens + (now - b.updated_at) * l.rate_per_minute)

  pub level-eq-level_of :
      (l : Limiter) (key : Text) (now : ℕ) → level l key now ≡ level_of l (lookup key l.buckets) now
  unfolding level level_of
  level-eq-level_of l key now = ground arith

  -- A bucket that the cleanup finds idle is full again.
  stale_is_full :
      (l : Limiter) (b : Bucket) (now : ℕ)
      → b.updated_at ≡ b.last_seen
      → is_stale hz l now b ≡ true
      → level_of l (some b) now ≡ capacity hz l
  unfolding is_stale level_of capacity
  stale_is_full l b now e h = rw e (
      omega (
        arith,
        earned (l.burst * (60 * hz))
            (max (300 * hz * l.rate_per_minute) (4 * (l.burst * (60 * hz)))) now b.last_seen
            l.rate_per_minute (ltb→lt _ _ h) (omega arith),
      ))

  contains-stale_keys_of_absent :
      (l : Limiter) (now : ℕ) (k : Text) (d : Dict Text Bucket)
      → contains (keys d) k ≡ false
      → contains (stale_keys hz l now d) k ≡ false
  unfolding stale_keys
  contains-stale_keys_of_absent l now k [] h = refl
  contains-stale_keys_of_absent l now k (x ∷ d) h =
      ground (arith, contains-stale_keys_of_absent l now k d)

  abbrev stale_option : Limiter → ℕ → Option Bucket → Bool
  stale_option l now none = false
  stale_option l now (some b) = is_stale hz l now b

  contains-stale_keys :
      (l : Limiter) (now : ℕ) (k : Text) (d : Dict Text Bucket)
      → NodupKeys d
      → contains (stale_keys hz l now d) k ≡ stale_option l now (lookup k d)
  unfolding stale_keys lookup
  contains-stale_keys l now k [] u = refl
  contains-stale_keys l now k ((j, b) ∷ d) (fresh, u) = ground (
    arith,
    contains-stale_keys l now k d u,
    contains-stale_keys_of_absent l now k d,
    lookup_of_absent k d,
  )

  pub lookup-drop_stale :
      (l : Limiter) (now : ℕ) (k : Text)
      → NodupKeys l.buckets
      → lookup k (drop_stale hz l now)
        ≡ (if stale_option l now (lookup k l.buckets) then none else lookup k l.buckets)
  unfolding drop_stale
  lookup-drop_stale l now k u = rw (lookup-erase_all, contains-stale_keys l now k l.buckets u) refl

  -- Dropping the idle buckets changes no level.
  pub level-drop_stale :
      (l : Limiter) (now : ℕ) (k : Text)
      → IsSound hz l
      → level_of l (lookup k (drop_stale hz l now)) now ≡ level l k now
  unfolding level_of capacity
  level-drop_stale l now k s = elim (Option-cases (lookup k l.buckets)) [
    | inl e ↦ rw (lookup-drop_stale l now k s.nodup, level-eq-level_of, e)
    | inr (b, e) ↦ elim (Bool-cases (is_stale hz l now b)) [
      | inl old ↦
          rw (lookup-drop_stale l now k s.nodup, level-eq-level_of, e, old)
            (sym (stale_is_full l b now (s.seen k b e) old))
      | inr young ↦ rw (lookup-drop_stale l now k s.nodup, level-eq-level_of, e, young)
    ]
  ]

  -- A cleanup leaves a bucket alone or drops it.
  lookup-drop_oldest :
      (most : ℕ) (d : Dict Text Bucket) (k : Text)
      → (lookup k (drop_oldest most d) ≡ none) ⊎ (lookup k (drop_oldest most d) ≡ lookup k d)
  unfolding drop_oldest
  lookup-drop_oldest most d k =
      ground (arith, lookup-erase_all k (keys (take (length d - most) (sort_by_seen d))) d)

  pub lookup-maybe_cleanup :
      (l : Limiter) (now : ℕ) (k : Text)
      → (lookup k (maybe_cleanup hz l now).buckets ≡ none)
        ⊎ (lookup k (maybe_cleanup hz l now).buckets ≡ lookup k l.buckets)
  unfolding maybe_cleanup drop_stale
  lookup-maybe_cleanup l now k = ground (
    arith,
    lookup-drop_oldest l.max_entries (drop_stale hz l now) k,
    lookup-erase_all k (stale_keys hz l now l.buckets) l.buckets,
  )

  ceil_div : (d q : ℕ) → 0 < q → d ≤ (d + (q - 1)) / q * q
  ceil_div d q h = grind (arith, div-add-mod (d + (q - 1)) q, mod-lt (d + (q - 1)) h)

  pub retry_after-enough :
      (l : Limiter) (d : ℕ)
      → 0 < hz * l.rate_per_minute
      → d ≤ retry_after hz l d * (hz * l.rate_per_minute)
  unfolding retry_after
  retry_after-enough l d h = grind (arith, ceil_div d (hz * l.rate_per_minute))
