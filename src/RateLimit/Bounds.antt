-- ===== src/RateLimit/Bounds.antt =====
-- What one call of `allow` of ratelimit.py does to the limiter, and the invariant.
use coinbase_amoled_terminal.Prelude.{
  ℕ, ◌+◌, ◌-◌, ◌≤◌, ◌≡◌, subst, Bool, arith, leb, if◌then◌else◌, length, take, ok, list_eq, nat_eq,
}
use coinbase_amoled_terminal.Prelude.Text.{Text}
use coinbase_amoled_terminal.Prelude.Dict.{
  insert, keys, NodupKeys, lookup-insert, insert-NodupKeys, length-insert,
}
use coinbase_amoled_terminal.RateLimit.{
  Bucket, Limiter, sort_by_seen, capacity, stale_keys, drop_stale, maybe_cleanup, refill, charge,
  allow,
}
use coinbase_amoled_terminal.RateLimit.Entries.{
  length-drop_oldest, drop_oldest-NodupKeys, erase_all-NodupKeys, length-erase_all,
}
use coinbase_amoled_terminal.RateLimit.Level.{IsSound, level, lookup-maybe_cleanup}

module _ (hz : ℕ) where
  drop_stale-NodupKeys :
      (l : Limiter) (now : ℕ) → NodupKeys l.buckets → NodupKeys (drop_stale hz l now)
  unfolding drop_stale
  drop_stale-NodupKeys l now u = erase_all-NodupKeys (stale_keys hz l now l.buckets) l.buckets u

  maybe_cleanup-NodupKeys :
      (l : Limiter) (now : ℕ) → NodupKeys l.buckets → NodupKeys (maybe_cleanup hz l now).buckets
  unfolding maybe_cleanup
  maybe_cleanup-NodupKeys l now u = ground (
    arith,
    drop_oldest-NodupKeys l.max_entries (drop_stale hz l now) (drop_stale-NodupKeys l now u),
  )

  length-maybe_cleanup :
      (l : Limiter) (now : ℕ)
      → NodupKeys l.buckets
      → length (maybe_cleanup hz l now).buckets ≤ l.max_entries
  unfolding maybe_cleanup
  length-maybe_cleanup l now u =
      ground (
        arith,
        length-drop_oldest l.max_entries (drop_stale hz l now) (drop_stale-NodupKeys l now u),
      )

  pub length-maybe_cleanup_le :
      (l : Limiter) (now : ℕ) → length (maybe_cleanup hz l now).buckets ≤ length l.buckets
  unfolding maybe_cleanup drop_stale
  length-maybe_cleanup_le l now =
      let d = drop_stale hz l now in
      ground (
        arith,
        length-erase_all (stale_keys hz l now l.buckets) l.buckets,
        length-erase_all (keys (take (length d - l.max_entries) (sort_by_seen d))) d,
      )

  -- The settings do not change.
  pub maybe_cleanup_settings :
      (l : Limiter) (now : ℕ)
      → ((maybe_cleanup hz l now).burst ≡ l.burst)
        × ((maybe_cleanup hz l now).rate_per_minute ≡ l.rate_per_minute)
        × ((maybe_cleanup hz l now).max_entries ≡ l.max_entries)
  unfolding maybe_cleanup
  maybe_cleanup_settings l now = ground arith

  pub capacity-charge :
      (l : Limiter) (key : Text) (cost : ℕ) (b : Bucket)
      → capacity hz (charge hz l key cost b).0 ≡ capacity hz l
  unfolding charge capacity
  capacity-charge l key cost b = ground arith

  maybe_cleanup-IsSound :
      (l : Limiter) (now : ℕ) → IsSound hz l → IsSound hz (maybe_cleanup hz l now)
  unfolding capacity
  maybe_cleanup-IsSound l now s = record {
    nodup = maybe_cleanup-NodupKeys l now s.nodup;
    seen = λ k b e. ground (arith, lookup-maybe_cleanup hz l now k, s.seen k b);
    within = λ k b e.
        ground (arith, lookup-maybe_cleanup hz l now k, s.within k b, maybe_cleanup_settings l now);
  }

  -- What the refill and the charge leave in the bucket of the key.
  unfoldable pub charged : (l : Limiter) (key : Text) (cost now : ℕ) → Bucket
  charged l key cost now =
      let b = refill hz l key now in
      if leb cost b.tokens then record b { tokens = b.tokens - cost } else b

  pub buckets-charge :
      (l : Limiter) (key : Text) (cost now : ℕ)
      → (charge hz l key cost (refill hz l key now)).0.buckets
        ≡ insert key (charged l key cost now) l.buckets
  unfolding charge charged
  buckets-charge l key cost now = ground arith

  pub charged_bounds :
      (l : Limiter) (key : Text) (cost now : ℕ)
      → let b = charged l key cost now in
        (b.updated_at ≡ now)
        × (b.last_seen ≡ now)
        × (b.tokens ≤ level hz l key now)
        × (level hz l key now ≤ capacity hz l)
  unfolding charged refill level
  charged_bounds l key cost now = ground arith

  charge-IsSound :
      (l : Limiter) (key : Text) (cost now : ℕ)
      → IsSound hz l
      → IsSound hz (charge hz l key cost (refill hz l key now)).0
  charge-IsSound l key cost now s =
      let b' = charged l key cost now in
      record {
        nodup = rw buckets-charge (insert-NodupKeys key b' l.buckets s.nodup);
        seen = λ k b e. ground (
          arith,
          rw buckets-charge at e,
          lookup-insert k key b' l.buckets,
          s.seen k b,
          charged_bounds l key cost now,
        );
        within = λ k b e. rw capacity-charge (
            ground (
              arith,
              rw buckets-charge at e,
              lookup-insert k key b' l.buckets,
              s.within k b,
              charged_bounds l key cost now,
            ));
      }

  abbrev pub after_cleanup : Limiter → Text → ℕ → ℕ → Limiter × (Bool × ℕ)
  after_cleanup l key cost now =
      let l₀ = maybe_cleanup hz l now in charge hz l₀ key cost (refill hz l₀ key now)

  pub allow-eq-ok :
      (l : Limiter) (key : Text) (cost now : ℕ) (r : Limiter × (Bool × ℕ))
      → allow hz l key cost now ≡ ok r
      → after_cleanup l key cost now ≡ r
  unfolding allow
  allow-eq-ok l key cost now r h = ground arith

  pub length-charge :
      (l : Limiter) (key : Text) (cost now : ℕ)
      → length (charge hz l key cost (refill hz l key now)).0.buckets ≤ length l.buckets + 1
  length-charge l key cost now =
      rw buckets-charge (length-insert key (charged l key cost now) l.buckets)

  pub max_entries-charge :
      (l : Limiter) (key : Text) (cost : ℕ) (b : Bucket)
      → ((charge hz l key cost b).0.max_entries ≡ l.max_entries)
        × ((charge hz l key cost b).0.rate_per_minute ≡ l.rate_per_minute)
  unfolding charge
  max_entries-charge l key cost b = ground arith

  -- After every call the limiter holds no key twice, no bucket above the burst, and at most one
  -- bucket more than `max_entries`.
  pub allow_bounds :
      (l l' : Limiter) (key : Text) (cost now : ℕ) (answer : Bool × ℕ)
      → IsSound hz l
      → allow hz l key cost now ≡ ok (l', answer)
      → IsSound hz l' × (length l'.buckets ≤ l'.max_entries + 1)
  allow_bounds l l' key cost now answer s h =
      let l₀ = maybe_cleanup hz l now in
      subst
        (λ (r : Limiter × (Bool × ℕ)). IsSound hz r.0 × (length r.0.buckets ≤ r.0.max_entries + 1))
        (allow-eq-ok l key cost now (l', answer) h)
        (
          charge-IsSound l₀ key cost now (maybe_cleanup-IsSound l now s),
          omega (
            arith,
            length-charge l₀ key cost now,
            length-maybe_cleanup l now s.nodup,
            maybe_cleanup_settings l now,
            max_entries-charge l₀ key cost (refill hz l₀ key now),
          ),
        )
