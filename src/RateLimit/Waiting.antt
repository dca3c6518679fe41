-- ===== src/RateLimit/Waiting.antt =====
-- The waiting time that a refusal of `allow` of ratelimit.py names.
use coinbase_amoled_terminal.Prelude.{
  ℕ, ◌+◌, ◌-◌, ◌*◌, ◌≤◌, ◌<◌, min, ◌≡◌, refl, subst, Bool, true, false, some, arith, eqb, ok,
  list_eq, nat_eq,
}
use coinbase_amoled_terminal.Prelude.Text.{Text}
use coinbase_amoled_terminal.Prelude.Dict.{lookup, lookup-insert}
use coinbase_amoled_terminal.RateLimit.{
  Bucket, Limiter, capacity, maybe_cleanup, refill, charge, allow,
}
use coinbase_amoled_terminal.RateLimit.Level.{
  level, level_of, level-eq-level_of, lookup-maybe_cleanup, mul_mono, retry_after-enough,
}
use coinbase_amoled_terminal.RateLimit.Bounds.{
  maybe_cleanup_settings, capacity-charge, charged, buckets-charge, charged_bounds, after_cleanup,
  allow-eq-ok, max_entries-charge,
}

module _ (hz : ℕ) where
  refused_charge :
      (l : Limiter) (key : Text) (cost now retry : ℕ)
      → 0 < hz * l.rate_per_minute
      → (charge hz l key cost (refill hz l key now)).1 ≡ (false, retry)
      → cost ≤ (charged hz l key cost now).tokens + retry * (hz * l.rate_per_minute)
  unfolding charge charged
  refused_charge l key cost now retry pos h =
      ground (arith, retry_after-enough hz l (cost - (refill hz l key now).tokens))

  enough_charge :
      (l : Limiter) (key : Text) (cost now : ℕ)
      → cost ≤ level hz l key now
      → (charge hz l key cost (refill hz l key now)).1 ≡ (true, 0)
  unfolding charge level
  enough_charge l key cost now h = ground arith

  -- A cleanup lowers no level below the capacity or what it was.
  level-maybe_cleanup_ge :
      (l : Limiter) (key : Text) (now t : ℕ)
      → min (capacity hz l) (level hz l key t) ≤ level hz (maybe_cleanup hz l now) key t
  unfolding level_of capacity
  level-maybe_cleanup_ge l key now t = ground (
    arith,
    level-eq-level_of hz l key t,
    level-eq-level_of hz (maybe_cleanup hz l now) key t,
    lookup-maybe_cleanup hz l now key,
    maybe_cleanup_settings hz l now,
  )

  -- The level after waiting from a refusal on.
  level_after_wait :
      (l : Limiter) (b : Bucket) (key : Text) (cost now retry later rate : ℕ)
      → lookup key l.buckets ≡ some b
      → b.updated_at ≡ now
      → l.rate_per_minute ≡ rate
      → cost ≤ b.tokens + retry * (hz * rate)
      → now + retry * hz ≤ later
      → min (capacity hz l) cost ≤ level hz l key later
  unfolding level_of
  level_after_wait l b key cost now retry later rate e at_now same enough wait =
      rw (level-eq-level_of hz l key later, e, at_now, same)
        (omega (arith, enough, mul_mono (retry * hz) (later - now) rate (omega arith)))

  -- What a refusal leaves behind.
  abbrev RefusedAt : Limiter → Text → ℕ → ℕ → ℕ → Limiter → Type 0
  RefusedAt l key cost now retry l' =
      (b : Bucket) × (lookup key l'.buckets ≡ some b)
      × (b.updated_at ≡ now)
      × (cost ≤ b.tokens + retry * (hz * l.rate_per_minute))
      × (l'.rate_per_minute ≡ l.rate_per_minute)
      × (capacity hz l' ≡ capacity hz l)

  cost-ne-zero :
      (l : Limiter) (key : Text) (cost now : ℕ) (r : Limiter × (Bool × ℕ))
      → allow hz l key cost now ≡ ok r
      → eqb cost 0 ≡ false
  unfolding allow
  cost-ne-zero l key cost now r h = ground arith

  refused_state :
      (l l' : Limiter) (key : Text) (cost now retry : ℕ)
      → 0 < hz * l.rate_per_minute
      → allow hz l key cost now ≡ ok (l', (false, retry))
      → RefusedAt l key cost now retry l'
  unfolding capacity
  refused_state l l' key cost now retry pos h =
      let l₀ = maybe_cleanup hz l now in
      subst
        (λ (r : Limiter × (Bool × ℕ)). r.1 ≡ (false, retry) → RefusedAt l key cost now retry r.0)
        (allow-eq-ok hz l key cost now (l', (false, retry)) h)
        (λ refused. (
          charged hz l₀ key cost now,
          rw (buckets-charge hz, lookup-insert) (ground arith),
          (charged_bounds hz l₀ key cost now).0,
          ground (arith, refused_charge l₀ key cost now retry, maybe_cleanup_settings hz l now),
          ground (
            arith,
            max_entries-charge hz l₀ key cost (refill hz l₀ key now),
            maybe_cleanup_settings hz l now,
          ),
          ground (
            arith,
            capacity-charge hz l₀ key cost (refill hz l₀ key now),
            maybe_cleanup_settings hz l now,
          ),
        ))
        refl

  -- After a refusal that names `retry` seconds, the same call is granted at any time from then on,
  -- whatever a cleanup drops in between, if its cost is within the burst.
  pub retry_suffices :
      (l l' : Limiter) (key : Text) (cost now retry later : ℕ)
      → 0 < hz * l.rate_per_minute
      → cost ≤ capacity hz l
      → allow hz l key cost now ≡ ok (l', (false, retry))
      → now + retry * hz ≤ later
      → (l'' : Limiter) × (allow hz l' key cost later ≡ ok (l'', (true, 0)))
  unfolding allow capacity
  retry_suffices l l' key cost now retry later pos small h wait =
      let (b, found, at_now, enough, same, full) = refused_state l l' key cost now retry pos h in
      let nonzero = cost-ne-zero l key cost now (l', (false, retry)) h in
      (
        (after_cleanup hz l' key cost later).0,
        ground (
          arith,
          enough_charge (maybe_cleanup hz l' later) key cost later,
          level-maybe_cleanup_ge l' key later later,
          level_after_wait l' b key cost now retry later l.rate_per_minute,
        ),
      )
