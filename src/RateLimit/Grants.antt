-- ===== src/RateLimit/Grants.antt =====
-- What `allow` of ratelimit.py grants to one key over any run of calls.
use coinbase_amoled_terminal.Prelude.{
  ℕ, ◌+◌, ◌-◌, ◌*◌, ◌≤◌, ◌≡◌, refl, ap, subst, inl, inr, Bool, ◌||◌, Option, none, some, List, [],
  ◌∷◌, arith, ◌==◌, ltb, leb, if◌then◌else◌, length, ok, err, list_eq, nat_eq, Bool-cases,
  Option-cases, Result-cases,
}
use coinbase_amoled_terminal.Prelude.Text.{Text}
use coinbase_amoled_terminal.Prelude.Dict.{Dict, lookup, lookup-insert}
use coinbase_amoled_terminal.RateLimit.{
  Bucket, Limiter, capacity, stale_keys, drop_stale, drop_oldest, cleanup, maybe_cleanup, refill,
  charge, allow,
}
use coinbase_amoled_terminal.RateLimit.Entries.{length-erase_all}
use coinbase_amoled_terminal.RateLimit.Level.{
  IsSound, level, level_of, level-eq-level_of, level-drop_stale, mul_mono,
}
use coinbase_amoled_terminal.RateLimit.Bounds.{
  length-maybe_cleanup_le, maybe_cleanup_settings, charged, buckets-charge, charged_bounds,
  allow-eq-ok, length-charge, max_entries-charge, allow_bounds,
}

module _ (hz : ℕ) where
  -- With room for its keys the limiter's cleanup changes no level.
  drop_oldest_room : (most : ℕ) (d : Dict Text Bucket) → length d ≤ most → drop_oldest most d ≡ d
  unfolding drop_oldest
  drop_oldest_room most d h = ground arith

  length-drop_stale : (l : Limiter) (now : ℕ) → length (drop_stale hz l now) ≤ length l.buckets
  unfolding drop_stale
  length-drop_stale l now = length-erase_all (stale_keys hz l now l.buckets) l.buckets

  buckets-cleanup :
      (l : Limiter) (now : ℕ)
      → length l.buckets ≤ l.max_entries
      → (cleanup hz l now).buckets ≡ drop_stale hz l now
  unfolding cleanup
  buckets-cleanup l now room =
      drop_oldest_room l.max_entries (drop_stale hz l now) (omega (arith, length-drop_stale l now))

  level_of-cleanup :
      (l : Limiter) (o : Option Bucket) (now t : ℕ)
      → level_of hz (cleanup hz l now) o t ≡ level_of hz l o t
  unfolding cleanup level_of capacity
  level_of-cleanup l none now t = refl
  level_of-cleanup l (some b) now t = refl

  level_of-charge :
      (l : Limiter) (key : Text) (cost : ℕ) (b : Bucket) (o : Option Bucket) (t : ℕ)
      → level_of hz (charge hz l key cost b).0 o t ≡ level_of hz l o t
  unfolding charge level_of capacity
  level_of-charge l key cost b o t = ground arith

  level-cleanup :
      (l : Limiter) (now : ℕ) (k : Text)
      → IsSound hz l
      → length l.buckets ≤ l.max_entries
      → level hz (cleanup hz l now) k now ≡ level hz l k now
  level-cleanup l now k s room =
      rw (level-eq-level_of hz (cleanup hz l now), level_of-cleanup, buckets-cleanup l now room)
        (level-drop_stale hz l now k s)

  level-maybe_cleanup :
      (l : Limiter) (now : ℕ) (k : Text)
      → IsSound hz l
      → length l.buckets ≤ l.max_entries
      → level hz (maybe_cleanup hz l now) k now ≡ level hz l k now
  unfolding maybe_cleanup
  level-maybe_cleanup l now k s room =
      elim (Bool-cases (leb l.next_cleanup now || ltb l.max_entries (length l.buckets))) [
        | inl due ↦ rw (due, maybe_cleanup) (level-cleanup l now k s room)
        | inr early ↦ rw (early, maybe_cleanup)
      ]

  granted_by_charge : (l : Limiter) (key : Text) (cost now : ℕ) → ℕ
  granted_by_charge l key cost now =
      if (charge hz l key cost (refill hz l key now)).1.0 then cost else 0

  -- A call takes from its key at least what it grants, and from no other key.
  tokens-charged :
      (l : Limiter) (key : Text) (cost now : ℕ)
      → (charged hz l key cost now).tokens + granted_by_charge l key cost now ≡ level hz l key now
  unfolding charged granted_by_charge charge level
  tokens-charged l key cost now = ground arith

  level-charge :
      (l : Limiter) (key k : Text) (cost now : ℕ)
      → level hz (charge hz l key cost (refill hz l key now)).0 k now
          + (if key == k then granted_by_charge l key cost now else 0)
        ≤ level hz l k now
  unfolding level_of
  level-charge l key k cost now =
      rw
        (
          level-eq-level_of hz (charge hz l key cost (refill hz l key now)).0,
          level_of-charge,
          buckets-charge hz,
          lookup-insert,
        )
        (ground (
          arith,
          level-eq-level_of hz l k now,
          tokens-charged l key cost now,
          charged_bounds hz l key cost now,
        ))

  -- One call, seen by any key.
  level-allow :
      (l l' : Limiter) (key k : Text) (cost now : ℕ) (granted : Bool) (retry : ℕ)
      → IsSound hz l
      → length l.buckets ≤ l.max_entries
      → allow hz l key cost now ≡ ok (l', (granted, retry))
      → level hz l' k now + (if key == k then (if granted then cost else 0) else 0)
        ≤ level hz l k now
  unfolding granted_by_charge
  level-allow l l' key k cost now granted retry s room h =
      let l₀ = maybe_cleanup hz l now in
      subst
        (λ (r : Limiter × (Bool × ℕ)).
          level hz r.0 k now + (if key == k then (if r.1.0 then cost else 0) else 0)
          ≤ level hz l k now)
        (allow-eq-ok hz l key cost now (l', (granted, retry)) h)
        (rw (level-maybe_cleanup l now k s room) at (level-charge l₀ key k cost now))

  length-allow :
      (l l' : Limiter) (key : Text) (cost now : ℕ) (answer : Bool × ℕ)
      → length l.buckets ≤ l.max_entries
      → allow hz l key cost now ≡ ok (l', answer)
      → (length l'.buckets ≤ length l.buckets + 1)
        × (l'.max_entries ≡ l.max_entries)
        × (l'.rate_per_minute ≡ l.rate_per_minute)
  length-allow l l' key cost now answer room h =
      let l₀ = maybe_cleanup hz l now in
      subst
        (λ (r : Limiter × (Bool × ℕ)).
          (length r.0.buckets ≤ length l.buckets + 1)
          × (r.0.max_entries ≡ l.max_entries)
          × (r.0.rate_per_minute ≡ l.rate_per_minute))
        (allow-eq-ok hz l key cost now (l', answer) h)
        (ground (
          arith,
          length-charge hz l₀ key cost now,
          length-maybe_cleanup_le hz l now,
          maybe_cleanup_settings hz l now,
          max_entries-charge hz l₀ key cost (refill hz l₀ key now),
        ))

  -- What a run of calls grants to the key `k`; a call that raises grants nothing.
  unfoldable pub granted : Text → Limiter → List (Text × ℕ × ℕ) → ℕ
  granted k l [] = 0
  granted k l ((key, cost, now) ∷ calls) = elim (allow hz l key cost now) [
    | ok (l', (yes?, _)) ↦ (if key == k then (if yes? then cost else 0) else 0) + granted k l' calls
    | err _ ↦ granted k l calls
  ]

  -- The calls come in order, from `start` on and not after `finish`.
  abbrev pub Ordered : ℕ → List (Text × ℕ × ℕ) → ℕ → Type 0
  Ordered start [] finish = start ≤ finish
  Ordered start ((_, _, now) ∷ calls) finish = (start ≤ now) × Ordered now calls finish

  -- The limiter after a call; one that raises changes nothing.
  unfoldable pub after_call : Limiter → Text × ℕ × ℕ → Limiter
  after_call l (key, cost, now) = elim (allow hz l key cost now) [ ok (l', _) ↦ l' | err _ ↦ l ]

  -- Whenever a call begins, the limiter holds no more buckets than its maximum.
  abbrev pub HasRoom : Limiter → List (Text × ℕ × ℕ) → Type 0
  HasRoom l [] = Unit
  HasRoom l (call ∷ calls) = (length l.buckets ≤ l.max_entries) × HasRoom (after_call l call) calls

  later_product :
      (k : Text) (l : Limiter) (s t : ℕ)
      → s ≤ t
      → (u : ℕ)
      → (t - u) * l.rate_per_minute ≤ (s - u) * l.rate_per_minute + (t - s) * l.rate_per_minute
  later_product k l s t h u =
      omega (arith, mul_mono (t - u) ((s - u) + (t - s)) l.rate_per_minute (omega arith))

  level_later :
      (l : Limiter) (k : Text) (s t : ℕ)
      → s ≤ t
      → level hz l k t ≤ level hz l k s + (t - s) * l.rate_per_minute
  unfolding level_of
  level_later l k s t h = elim (Option-cases (lookup k l.buckets)) [
    | inl e ↦ rw (level-eq-level_of hz l k t, level-eq-level_of hz l k s, e) (omega arith)
    | inr (b, e) ↦
        rw (level-eq-level_of hz l k t, level-eq-level_of hz l k s, e)
          (omega (arith, later_product k l s t h b.updated_at))
  ]

  Ordered-le :
      (start finish : ℕ) (calls : List (Text × ℕ × ℕ)) → Ordered start calls finish → start ≤ finish
  Ordered-le start finish [] o = o
  Ordered-le start finish ((_, _, now) ∷ calls) (o, os) =
      omega (arith, Ordered-le now finish calls os)

  -- One step of the induction.
  spend :
      (granted_now rest level_start level_now level_next start now finish rate : ℕ)
      → start ≤ now
      → now ≤ finish
      → level_now ≤ level_start + (now - start) * rate
      → level_next + granted_now ≤ level_now
      → rest ≤ level_next + (finish - now) * rate
      → granted_now + rest ≤ level_start + (finish - start) * rate
  spend g rest ls ln lx start now finish rate a b h₁ h₂ h₃ = omega (
    arith,
    ap (λ (t : ℕ). t * rate)
        (let e : finish - start ≡ (now - start) + (finish - now) = omega arith in e),
  )

  granted-le-level :
      (k : Text) (l : Limiter) (calls : List (Text × ℕ × ℕ)) (start finish : ℕ)
      → IsSound hz l
      → HasRoom l calls
      → Ordered start calls finish
      → granted k l calls ≤ level hz l k start + (finish - start) * l.rate_per_minute
  unfolding granted after_call
  granted-le-level k l [] start finish s room o = omega arith
  granted-le-level k l ((key, cost, now) ∷ calls) start finish s (room, rooms) (o, os) =
      elim (Result-cases (allow hz l key cost now)) [
        | inl ((l', (yes?, retry)), e) ↦
            let (fits, most, rate) = length-allow l l' key cost now (yes?, retry) room e in
            let left = rw (e, after_call) at rooms in
            let ih =
              granted-le-level k l' calls now finish
                (allow_bounds hz l l' key cost now (yes?, retry) s e).0 left os in
            rw (e, granted)
              (spend _ _ _ _ _ start now finish l.rate_per_minute o (Ordered-le now finish calls os)
                (level_later l k start now o) (level-allow l l' key k cost now yes? retry s room e)
                (subst (λ (q : ℕ). granted k l' calls ≤ level hz l' k now + (finish - now) * q) rate
                  ih))
        | inr (x, e) ↦
            let left = rw (e, after_call) at rooms in
            let ih = granted-le-level k l calls now finish s left os in
            let both =
              spend 0 (granted k l calls) (level hz l k start) (level hz l k now) (level hz l k now)
                start now finish l.rate_per_minute o (Ordered-le now finish calls os)
                (level_later l k start now o) (omega arith) ih in
            rw (e, granted) (omega arith)
      ]

  level-le-capacity : (l : Limiter) (k : Text) (now : ℕ) → level hz l k now ≤ capacity hz l
  level-le-capacity l k now = (charged_bounds hz l k 1 now).3

  -- Over any run of calls in order, however long and by any keys, in which the limiter holds no more
  -- buckets than its maximum whenever a call begins, the costs granted to one key add up to at most the burst and what the rate earns in the meantime.
  pub granted-le-capacity :
      (k : Text) (l : Limiter) (calls : List (Text × ℕ × ℕ)) (start finish : ℕ)
      → IsSound hz l
      → HasRoom l calls
      → Ordered start calls finish
      → granted k l calls ≤ capacity hz l + (finish - start) * l.rate_per_minute
  granted-le-capacity k l calls start finish s room o =
      omega (arith, granted-le-level k l calls start finish s room o, level-le-capacity l k start)
