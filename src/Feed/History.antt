-- ===== src/Feed/History.antt =====
-- What the feed keeps over a history of calls, and how often it asks the upstream, feed.py.
use coinbase_amoled_terminal.Prelude.{
  ℕ, ◌+◌, ◌*◌, ◌≤◌, ◌≡◌, ◌∙◌, sym, refl, ap, true, false, Option, some, List, [], ◌∷◌, ◌==◌, leb,
  if◌then◌else◌, arith, Bool-cases, inl, inr, list_eq, nat_eq,
}
use coinbase_amoled_terminal.Prelude.Text.{Text}
use coinbase_amoled_terminal.Prelude.Dict.{Dict, lookup}
use coinbase_amoled_terminal.Feed.{
  Component, Fetched, fetched, failed, Settings, Feed, Upstream, update_market, refresh_markets,
  refresh, get_feed,
}

module _ {V : Type 0} where
  abbrev pub learn : ℕ → Fetched V → Option V × Option ℕ → Option V × Option ℕ
  learn now (fetched v _) known = (some v, some now)
  learn now (failed _ _) known = known

  -- The value of a market and its time, by the answers in their order: the last good one.
  abbrev pub last_good : Text → List (ℕ × Upstream V) → Option V × Option ℕ → Option V × Option ℕ
  last_good symbol [] known = known
  last_good symbol ((now, up) ∷ l) known = last_good symbol l (learn now (up.market symbol) known)

  abbrev pub known : Component V → Option V × Option ℕ
  known c = (c.value, c.as_of)

  known-update_market :
      (now : ℕ) (a : Fetched V) (c : Component V)
      → known (update_market now a c) ≡ learn now a (known c)
  unfolding update_market
  known-update_market now (fetched v w) c = refl
  known-update_market now (failed code b) c = refl

  lookup-refresh_markets :
      (now : ℕ) (market : Text → Fetched V) (symbol : Text) (c : Component V)
      (d : Dict Text (Component V))
      → lookup symbol d ≡ some c
      → lookup symbol (refresh_markets now market d) ≡ some (update_market now (market symbol) c)
  unfolding lookup refresh_markets
  lookup-refresh_markets now market symbol c [] h = cc
  lookup-refresh_markets now market symbol c ((k, e) ∷ d) h = elim (Bool-cases (symbol == k)) [
    | inl same ↦ ground (arith, same)
    | inr other ↦ ground (arith, other, lookup-refresh_markets now market symbol c d)
  ]

module _ (hz : ℕ) (settings : Settings) {V : Type 0} where
  unfoldable pub run : List (ℕ × Upstream V) → Feed V → Feed V
  run [] f = f
  run ((now, up) ∷ l) f = run l (get_feed hz settings now up f)

  -- The calls that come when a refresh is due.
  abbrev pub due : ℕ → List (ℕ × Upstream V) → List (ℕ × Upstream V)
  due next [] = []
  due next ((now, up) ∷ l) =
      let rest = due next l in
      let later = due (now + settings.refresh_seconds * hz) l in
      if leb next now then (now, up) ∷ later else rest

  due_taken :
      (next now : ℕ) (up : Upstream V) (l : List (ℕ × Upstream V))
      → leb next now ≡ true
      → due next ((now, up) ∷ l) ≡ (now, up) ∷ due (now + settings.refresh_seconds * hz) l
  due_taken next now up l e = rw e refl

  due_skipped :
      (next now : ℕ) (up : Upstream V) (l : List (ℕ × Upstream V))
      → leb next now ≡ false
      → due next ((now, up) ∷ l) ≡ due next l
  due_skipped next now up l e = rw e refl

  get_feed_due :
      (now : ℕ) (up : Upstream V) (f : Feed V)
      → leb f.next_refresh now ≡ true
      → get_feed hz settings now up f ≡ refresh hz settings now up f
  unfolding get_feed
  get_feed_due now up f e = rw (e, get_feed) refl

  get_feed_early :
      (now : ℕ) (up : Upstream V) (f : Feed V)
      → leb f.next_refresh now ≡ false
      → get_feed hz settings now up f ≡ f
  unfolding get_feed
  get_feed_early now up f e = rw (e, get_feed) refl

  -- Whatever the calls and their times: what a market holds is the value of its last good answer among
  -- the refreshes that were due, with the time of that refresh; a failed one leaves it as it was.
  pub run-last_good :
      (calls : List (ℕ × Upstream V)) (f : Feed V) (symbol : Text) (c : Component V)
      → lookup symbol f.markets ≡ some c
      → (c' : Component V) × (lookup symbol (run calls f).markets ≡ some c')
        × (known c' ≡ last_good symbol (due f.next_refresh calls) (known c))
  unfolding run refresh
  run-last_good [] f symbol c h = (c, h, refl)
  run-last_good ((now, up) ∷ l) f symbol c h = elim (Bool-cases (leb f.next_refresh now)) [
    | inl e ↦
        let c₁ = update_market now (up.market symbol) c in
        let f₁ = refresh hz settings now up f in
        let at = lookup-refresh_markets now up.market symbol c f.markets h in
        let (c', found, good) = run-last_good l f₁ symbol c₁ at in
        let taken = ap (λ d. last_good symbol d (known c)) (due_taken f.next_refresh now up l e) in
        (
          c',
          ap (λ (g : Feed V). lookup symbol (run l g).markets) (get_feed_due now up f e) ∙ found,
          good
              ∙ (ap (last_good symbol (due f₁.next_refresh l))
                    (known-update_market now (up.market symbol) c)
                  ∙ sym taken),
        )
    | inr e ↦
        let (c', found, good) = run-last_good l f symbol c h in
        let skipped =
          ap (λ d. last_good symbol d (known c)) (due_skipped f.next_refresh now up l e) in
        (
          c',
          ap (λ (g : Feed V). lookup symbol (run l g).markets) (get_feed_early now up f e) ∙ found,
          good ∙ sym skipped,
        )
  ]

  -- No call of the list is later than `T`.
  abbrev pub Until : ℕ → List (ℕ × Upstream V) → Type 0
  Until T [] = Unit
  Until T ((now, _) ∷ l) = (now ≤ T) × Until T l

  -- How many of the calls ask the upstream.
  unfoldable pub asked : List (ℕ × Upstream V) → Feed V → ℕ
  asked [] f = 0
  asked ((now, up) ∷ l) f =
      (if leb f.next_refresh now then 1 else 0) + asked l (get_feed hz settings now up f)
