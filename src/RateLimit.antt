-- ===== src/RateLimit.antt =====
-- bridge/src/coinbase_amoled_bridge/ratelimit.py: `TokenBucketLimiter`.
-- The clock counts ticks, `hz` of them in a second, and tokens are counted in units of 1 / (60 * hz)
-- of a token. A bucket then gains `rate_per_minute` units in each tick, and the arithmetic that the
-- program does in floats is exact.
pub mod Entries
pub mod Level
pub mod Bounds
pub mod Grants
pub mod Waiting
use coinbase_amoled_terminal.Prelude.{
  ℕ, suc, ◌+◌, ◌-◌, ◌*◌, ◌/◌, ◌<◌, min, max, Bool, true, false, ◌&&◌, ◌||◌, Option, none, some,
  List, [], ◌∷◌, eqb, ltb, leb, if◌then◌else◌, length, take, Result, ok, err, list_eq, nat_eq,
}
use coinbase_amoled_terminal.Prelude.Text.{Text}
use coinbase_amoled_terminal.Prelude.Dict.{Dict, lookup, insert, erase, keys}

pub record Bucket : Type 0 where
  pub tokens : ℕ
  pub updated_at : ℕ
  pub last_seen : ℕ

-- `burst` is in tokens; `next_cleanup` is a time.
pub record Limiter : Type 0 where
  pub rate_per_minute : ℕ
  pub burst : ℕ
  pub max_entries : ℕ
  pub buckets : Dict Text Bucket
  pub next_cleanup : ℕ

pub data LimitError : Type 0 where
  value_error : LimitError

unfoldable pub new_limiter : ℕ → ℕ → ℕ → Result LimitError Limiter
new_limiter rate burst max_entries =
    if eqb rate 0 || (eqb burst 0 || eqb max_entries 0)
    then err value_error
    else ok (record {
      rate_per_minute = rate;
      burst = burst;
      max_entries = max_entries;
      buckets = [];
      next_cleanup = 0;
    })

-- `for key in keys: self._buckets.pop(key, None)`
unfoldable pub erase_all : List Text → Dict Text Bucket → Dict Text Bucket
erase_all [] d = d
erase_all (k ∷ ks) d = erase_all ks (erase k d)

-- `sorted(items, key=last_seen)`, which is stable.
unfoldable pub insert_by_seen : Text × Bucket → Dict Text Bucket → Dict Text Bucket
insert_by_seen x [] = x ∷ []
insert_by_seen x (y ∷ d) =
    if leb (x.1).last_seen (y.1).last_seen then x ∷ y ∷ d else y ∷ insert_by_seen x d

unfoldable pub sort_by_seen : Dict Text Bucket → Dict Text Bucket
unfolding insert_by_seen
sort_by_seen [] = []
sort_by_seen (x ∷ d) = insert_by_seen x (sort_by_seen d)

unfoldable pub drop_oldest : ℕ → Dict Text Bucket → Dict Text Bucket
unfolding erase_all sort_by_seen
drop_oldest most d =
    if ltb most (length d) then erase_all (keys (take (length d - most) (sort_by_seen d))) d else d

module _ (hz : ℕ) where
  -- `self.burst` in units
  unfoldable pub capacity : Limiter → ℕ
  capacity l = l.burst * (60 * hz)

  -- `last_seen < now - max(300.0, burst / rate_per_second * 4)`, multiplied by the rate
  unfoldable pub is_stale : Limiter → ℕ → Bucket → Bool
  is_stale l now b =
      ltb
        (b.last_seen * l.rate_per_minute
          + max (300 * hz * l.rate_per_minute) (4 * (l.burst * (60 * hz))))
        (now * l.rate_per_minute)

  unfoldable pub stale_keys : Limiter → ℕ → Dict Text Bucket → List Text
  stale_keys l now [] = []
  stale_keys l now ((k, b) ∷ d) =
      let rest = stale_keys l now d in if is_stale l now b then k ∷ rest else rest

  unfoldable pub drop_stale : Limiter → ℕ → Dict Text Bucket
  unfolding is_stale stale_keys erase_all
  drop_stale l now = erase_all (stale_keys l now l.buckets) l.buckets

  -- `_cleanup`
  unfoldable pub cleanup : Limiter → ℕ → Limiter
  unfolding drop_stale drop_oldest
  cleanup l now = record l {
    buckets = drop_oldest l.max_entries (drop_stale l now);
    next_cleanup = now + 60 * hz;
  }

  -- The test at the top of `allow`.
  unfoldable pub maybe_cleanup : Limiter → ℕ → Limiter
  unfolding cleanup
  maybe_cleanup l now =
      if leb l.next_cleanup now || ltb l.max_entries (length l.buckets) then cleanup l now else l

  -- The bucket of a key, a full one if it is new, brought up to `now`.
  unfoldable pub refill : Limiter → Text → ℕ → Bucket
  unfolding capacity
  refill l key now = elim (lookup key l.buckets) [
    | none ↦ record {
      tokens = min (capacity l) (capacity l + 0 * l.rate_per_minute);
      updated_at = now;
      last_seen = now;
    }
    | some b ↦ record {
      tokens = min (capacity l) (b.tokens + (now - b.updated_at) * l.rate_per_minute);
      updated_at = now;
      last_seen = now;
    }
  ]

  -- `max(1, math.ceil(deficit / self.rate_per_second))`
  unfoldable pub retry_after : Limiter → ℕ → ℕ
  retry_after l deficit =
      max 1 ((deficit + (hz * l.rate_per_minute - 1)) / (hz * l.rate_per_minute))

  -- The end of `allow`, after the refill.
  unfoldable pub charge : Limiter → Text → ℕ → Bucket → Limiter × (Bool × ℕ)
  unfolding retry_after
  charge l key cost b =
      if leb cost b.tokens
      then (
        record l { buckets = insert key (record b { tokens = b.tokens - cost }) l.buckets },
        (true, 0),
      )
      else (record l { buckets = insert key b l.buckets }, (false, retry_after l (cost - b.tokens)))

  -- `allow(key, cost=cost)` at the time `now`.
  unfoldable pub allow : Limiter → Text → ℕ → ℕ → Result LimitError (Limiter × (Bool × ℕ))
  unfolding maybe_cleanup refill charge
  allow l key cost now =
      if eqb cost 0
      then err value_error
      else (let l' = maybe_cleanup l now in ok (charge l' key cost (refill l' key now)))
