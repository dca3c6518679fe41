-- ===== src/Feed/Fresh.antt =====
-- When the feed says that it is fresh, and what a refresh makes of it, feed.py.
use coinbase_amoled_terminal.Prelude.{
  ℕ, ◌≡◌, ◌≤◌, ◌-◌, ◌/◌, ◌↔◌, refl, subst, Option, none, Bool, true, false, ◌||◌, some, [], ◌∷◌,
  arith,
}
use coinbase_amoled_terminal.Prelude.Text.{Text}
use coinbase_amoled_terminal.Prelude.Dict.{Dict}
use coinbase_amoled_terminal.Feed.{
  Component, Settings, Feed, is_some, exceeds, age_of, is_old, component_meta, any_stale,
  required_stale, Fetched, fetched, failed, Upstream, update_market, update_spot, refresh_markets,
  refresh,
}

-- A value is there, and if it has a time, then the seconds since are at most both ages.
pub record IsFresh {V : Type 0} (hz : ℕ) (settings : Settings) (c : Component V) (now : ℕ)
    : Type 0 where
  pub there : (v : V) × (c.value ≡ some v)
  pub recent : (t : ℕ) → c.as_of ≡ some t → (now - t) / hz ≤ settings.stale_after_seconds
  pub kept : (t : ℕ) → c.as_of ≡ some t → (now - t) / hz ≤ settings.max_stale_seconds

is_some_iff : {V : Type 0} (o : Option V) → (is_some o ≡ true) ↔ ((v : V) × (o ≡ some v))
is_some_iff none = (λ h. cc, λ (v, h). cc)
is_some_iff (some v) = (λ h. (v, refl), λ h. refl)

-- The age does not exceed a limit.
exceeds_iff :
    (hz now limit : ℕ) (o : Option ℕ)
    → (exceeds (age_of hz o now) limit ≡ false) ↔ ((t : ℕ) → o ≡ some t → (now - t) / hz ≤ limit)
exceeds_iff hz now limit none = (λ h t k. cc, λ h. refl)
exceeds_iff hz now limit (some u) = (
  λ h t k.
      let same : u ≡ t = cc in subst (λ (x : ℕ). (now - x) / hz ≤ limit) same (ground (arith, h)),
  λ h. ground (arith, h u refl),
)

same_age : (hz now u t limit : ℕ) → u ≡ t → (now - u) / hz ≤ limit → (now - t) / hz ≤ limit
same_age hz now u t limit h young = subst (λ (x : ℕ). (now - x) / hz ≤ limit) h young

both_false : (a b : Bool) → (a || b) ≡ false → (a ≡ false) × (b ≡ false)
both_false true b h = cc
both_false false b h = (refl, h)

neither : {a b : Bool} → a ≡ false → b ≡ false → (a || b) ≡ false
neither {a} {b} h k = rw (h, k) refl

-- The upstream gave a value.
abbrev pub IsFetched : {V : Type 0} → Fetched V → Type 0
IsFetched (fetched _ _) = Unit
IsFetched (failed _ _) = ⊥

module _ (hz : ℕ) (settings : Settings) {V : Type 0} where
  -- Every market of the list is fresh.
  abbrev pub AllFresh : Dict Text (Component V) → ℕ → Type 0
  AllFresh [] now = Unit
  AllFresh ((_, c) ∷ d) now = IsFresh hz settings c now × AllFresh d now

  IsFresh-iff :
      (c : Component V) (now : ℕ)
      → (is_old (component_meta hz settings c now false) ≡ false) ↔ IsFresh hz settings c now
  unfolding component_meta
  IsFresh-iff c now = (
    λ h. record {
      there = (is_some_iff c.value).0 (ground arith);
      recent = (exceeds_iff hz now settings.stale_after_seconds c.as_of).0 (ground arith);
      kept = (exceeds_iff hz now settings.max_stale_seconds c.as_of).0 (ground arith);
    },
    λ h. ground (
      arith,
      (is_some_iff c.value).1 h.there,
      (exceeds_iff hz now settings.stale_after_seconds c.as_of).1 h.recent,
      (exceeds_iff hz now settings.max_stale_seconds c.as_of).1 h.kept,
    ),
  )

  markets_iff :
      (d : Dict Text (Component V)) (now : ℕ)
      → (any_stale hz settings d now ≡ false) ↔ AllFresh d now
  unfolding any_stale
  markets_iff [] now = (λ h. tt, λ h. refl)
  markets_iff ((k, c) ∷ d) now = (
    λ h.
        let (first, rest) =
          both_false (is_old (component_meta hz settings c now false)) (any_stale hz settings d now)
            h in
        ((IsFresh-iff c now).0 first, (markets_iff d now).0 rest),
    λ (first, rest). neither ((IsFresh-iff c now).1 first) ((markets_iff d now).1 rest),
  )

  -- The feed does not call itself stale exactly if every market and the accounts have a value whose age
  -- exceeds neither the age for stale nor the one at which a value is dropped.
  pub required_stale_iff :
      (f : Feed V) (now : ℕ)
      → (required_stale hz settings f now ≡ false)
        ↔ (AllFresh f.markets now × IsFresh hz settings f.spot now)
  unfolding required_stale
  required_stale_iff f now = (
    λ h.
        let (first, rest) =
          both_false (any_stale hz settings f.markets now)
            (is_old (component_meta hz settings f.spot now false)) h in
        ((markets_iff f.markets now).0 first, (IsFresh-iff f.spot now).0 rest),
    λ (first, rest).
        neither ((markets_iff f.markets now).1 first) ((IsFresh-iff f.spot now).1 rest),
  )

  -- The upstream answers for every market of the list.
  abbrev pub AllFetched : (Text → Fetched V) → Dict Text (Component V) → Type 0
  AllFetched market [] = Unit
  AllFetched market ((symbol, _) ∷ d) = IsFetched (market symbol) × AllFetched market d

  -- What was just taken is fresh until it is too old.
  new_value-IsFresh :
      (c : Component V) (v : V) (now t : ℕ)
      → c.value ≡ some v
      → c.as_of ≡ some now
      → (t - now) / hz ≤ settings.stale_after_seconds
      → settings.stale_after_seconds ≤ settings.max_stale_seconds
      → IsFresh hz settings c t
  new_value-IsFresh c v now t h k young limits = record {
    there = (v, h);
    recent = λ u at.
        let same : now ≡ u = cc in same_age hz t now u settings.stale_after_seconds same young;
    kept = λ u at.
        let same : now ≡ u = cc in
        same_age hz t now u settings.max_stale_seconds same (omega (arith, young, limits));
  }

  update_market-IsFresh :
      (answer : Fetched V) (c : Component V) (now t : ℕ)
      → IsFetched answer
      → (t - now) / hz ≤ settings.stale_after_seconds
      → settings.stale_after_seconds ≤ settings.max_stale_seconds
      → IsFresh hz settings (update_market now answer c) t
  unfolding update_market
  update_market-IsFresh (fetched v warning) c now t _ young limits =
      new_value-IsFresh (update_market now (fetched v warning) c) v now t refl refl young limits
  update_market-IsFresh (failed code applies) c now t absurd young limits = elim absurd [ ]

  update_spot-IsFresh :
      (answer : Fetched V) (c : Component V) (now t : ℕ)
      → IsFetched answer
      → (t - now) / hz ≤ settings.stale_after_seconds
      → settings.stale_after_seconds ≤ settings.max_stale_seconds
      → IsFresh hz settings (update_spot now answer c) t
  unfolding update_spot
  update_spot-IsFresh (fetched v warning) c now t _ young limits =
      new_value-IsFresh (update_spot now (fetched v warning) c) v now t refl refl young limits
  update_spot-IsFresh (failed code applies) c now t absurd young limits = elim absurd [ ]

  refresh_markets-AllFresh :
      (market : Text → Fetched V) (d : Dict Text (Component V)) (now t : ℕ)
      → AllFetched market d
      → (t - now) / hz ≤ settings.stale_after_seconds
      → settings.stale_after_seconds ≤ settings.max_stale_seconds
      → AllFresh (refresh_markets now market d) t
  unfolding refresh_markets
  refresh_markets-AllFresh market [] now t _ young limits = tt
  refresh_markets-AllFresh market ((symbol, c) ∷ d) now t (first, rest) young limits = (
    update_market-IsFresh (market symbol) c now t first young limits,
    refresh_markets-AllFresh market d now t rest young limits,
  )

  -- If the upstream answers for every market and for the accounts in a refresh, then whatever the feed
  -- held before, it does not call itself stale at any time whose age since that refresh, in whole
  -- seconds, does not exceed the age for stale, provided that this age does not exceed the one at which
  -- a value is dropped.
  pub required_stale-refresh :
      (f : Feed V) (up : Upstream V) (now t : ℕ)
      → AllFetched up.market f.markets
      → IsFetched (up.accounts (refresh_markets now up.market f.markets))
      → (t - now) / hz ≤ settings.stale_after_seconds
      → settings.stale_after_seconds ≤ settings.max_stale_seconds
      → required_stale hz settings (refresh hz settings now up f) t ≡ false
  unfolding refresh
  required_stale-refresh f up now t markets accounts young limits =
      (required_stale_iff (refresh hz settings now up f) t).1 (
        refresh_markets-AllFresh up.market f.markets now t markets young limits,
        update_spot-IsFresh (up.accounts (refresh_markets now up.market f.markets)) f.spot now t
            accounts young limits,
      )
