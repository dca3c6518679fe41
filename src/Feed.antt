-- ===== src/Feed.antt =====
-- bridge/src/coinbase_amoled_bridge/feed.py: `FeedService`, which refreshes its components and keeps
-- what it has when a refresh fails. Times are in ticks, `hz` of them in a second. What the client
-- returns and how it is parsed are arguments.
pub mod Candles
pub mod Fresh
pub mod History
use coinbase_amoled_terminal.Prelude.{
  ℕ, ◌+◌, ◌-◌, ◌*◌, ◌/◌, Bool, true, false, not, ◌&&◌, ◌||◌, Option, none, some, List, [], ◌∷◌,
  ◌==◌, ltb, leb, if◌then◌else◌, max, list_eq, nat_eq, option_eq,
}
use coinbase_amoled_terminal.Prelude.Text.{Text, codes}
use coinbase_amoled_terminal.Prelude.Dict.{Dict}

-- `_Component`
pub record Component (V : Type 0) : Type 0 where
  pub value : Option V
  pub as_of : Option ℕ
  pub error_code : Option Text
  pub warning_code : Option Text

-- What a refresh of a component gets: a value with a warning, or an error, which for an optional
-- component may say that it does not apply.
pub data Fetched (V : Type 0) : Type 0 where
  fetched : V → Option Text → Fetched V
  failed : Text → Bool → Fetched V

pub record Settings : Type 0 where
  pub refresh_seconds : ℕ
  pub stale_after_seconds : ℕ
  pub max_stale_seconds : ℕ
  pub include_cfm : Bool
  pub include_intx : Bool

-- `FeedService`
pub record Feed (V : Type 0) : Type 0 where
  pub next_refresh : ℕ
  pub last_attempt : Option ℕ
  pub markets : Dict Text (Component V)
  pub spot : Component V
  pub cfm : Component V
  pub intx : Component V

-- The answers of the upstream in one refresh. The accounts are valued by the markets.
pub record Upstream (V : Type 0) : Type 0 where
  pub market : Text → Fetched V
  pub accounts : Dict Text (Component V) → Fetched V
  pub cfm : Fetched V
  pub intx : Fetched V

pub data Status : Type 0 where
  disabled not_applicable expired degraded error stale healthy : Status

-- What `_component_meta` returns.
pub record Meta : Type 0 where
  pub available : Bool
  pub optional : Bool
  pub as_of : Option ℕ
  pub age_seconds : Option ℕ
  pub stale : Bool
  pub expired : Bool
  pub status : Status

abbrev pub is_some {ℓ} : {A : Type ℓ} → Option A → Bool
is_some none = false
is_some (some _) = true

abbrev pub exceeds : Option ℕ → ℕ → Bool
exceeds none limit = false
exceeds (some age) limit = ltb limit age

abbrev pub unless_included : Bool → Option Text
unless_included true = none
unless_included false = some (codes "disabled")

-- `max(0, int(now - as_of))`, with `hz` ticks in a second.
abbrev pub age_of : ℕ → Option ℕ → ℕ → Option ℕ
age_of hz none now = none
age_of hz (some as_of) now = some ((now - as_of) / hz)

abbrev pub is_old : Meta → Bool
is_old meta = meta.stale || not meta.available

-- `max(required_ages, default=None)`
abbrev pub later_age : Option ℕ → Option ℕ → Option ℕ
later_age none b = b
later_age (some a) none = some a
later_age (some a) (some b) = some (max a b)

module _ {V : Type 0} where
  abbrev pub empty_component : Option Text → Component V
  empty_component code = record {
    value = none;
    as_of = none;
    error_code = code;
    warning_code = none;
  }

  -- `__init__`
  abbrev pub empty_markets : List Text → Dict Text (Component V)
  empty_markets [] = []
  empty_markets (symbol ∷ symbols) = (symbol, empty_component none) ∷ empty_markets symbols

  abbrev pub new_feed : Settings → List Text → Feed V
  new_feed settings symbols = record {
    next_refresh = 0;
    last_attempt = none;
    markets = empty_markets symbols;
    spot = empty_component none;
    cfm = empty_component (unless_included settings.include_cfm);
    intx = empty_component (unless_included settings.include_intx);
  }

  unfoldable pub update_market : ℕ → Fetched V → Component V → Component V
  update_market now (fetched v warning) c = record {
    value = some v;
    as_of = some now;
    error_code = none;
    warning_code = warning;
  }
  update_market now (failed code _) c = record c { error_code = some code }

  unfoldable pub update_spot : ℕ → Fetched V → Component V → Component V
  update_spot now (fetched v _) c = record c { value = some v; as_of = some now; error_code = none }
  update_spot now (failed code _) c = record c { error_code = some code }

  unfoldable pub update_optional : Bool → ℕ → Fetched V → Component V → Component V
  update_optional false now answer c = c
  update_optional true now (fetched v _) c = record c {
    value = some v;
    as_of = some now;
    error_code = none;
  }
  update_optional true now (failed code false) c = record c { error_code = some code }
  update_optional true now (failed code true) c = record c {
    value = none;
    as_of = none;
    error_code = some (codes "not_applicable");
  }

  -- The futures of the pool: each updates the component of its own symbol.
  unfoldable pub refresh_markets :
      ℕ → (Text → Fetched V) → Dict Text (Component V) → Dict Text (Component V)
  unfolding update_market
  refresh_markets now market [] = []
  refresh_markets now market ((symbol, c) ∷ d) =
      (symbol, update_market now (market symbol) c) ∷ refresh_markets now market d

-- The ticks of a second.
module _ (hz : ℕ) (settings : Settings) {V : Type 0} where
  -- `_refresh`
  unfoldable pub refresh : ℕ → Upstream V → Feed V → Feed V
  unfolding refresh_markets update_spot update_optional
  refresh now up f =
      let markets = refresh_markets now up.market f.markets in
      record {
        next_refresh = now + settings.refresh_seconds * hz;
        last_attempt = some now;
        markets = markets;
        spot = update_spot now (up.accounts markets) f.spot;
        cfm = update_optional settings.include_cfm now up.cfm f.cfm;
        intx = update_optional settings.include_intx now up.intx f.intx;
      }

  unfoldable pub status_of : Component V → Bool → Bool → Bool → Bool → Status
  status_of c optional available is_expired is_stale =
      if optional && c.error_code == some (codes "disabled")
      then disabled
      else if optional && c.error_code == some (codes "not_applicable")
      then not_applicable
      else if is_expired
      then expired
      else if available && (is_some c.error_code || is_some c.warning_code)
      then degraded
      else if is_some c.error_code && not available
      then error
      else if is_stale
      then stale
      else healthy

  -- `_component_meta`
  unfoldable pub component_meta : Component V → ℕ → Bool → Meta
  unfolding status_of
  component_meta c now optional =
      let age = age_of hz c.as_of now in
      let is_expired = exceeds age settings.max_stale_seconds in
      let available = is_some c.value && not is_expired in
      let is_stale = not available || exceeds age settings.stale_after_seconds in
      record {
        available = available;
        optional = optional;
        as_of = c.as_of;
        age_seconds = age;
        stale = is_stale;
        expired = is_expired;
        status = status_of c optional available is_expired is_stale;
      }

  -- The value that the feed shows of a component.
  unfoldable pub shown : Component V → ℕ → Option V
  unfolding component_meta
  shown c now = if (component_meta c now false).available then c.value else none

  -- `required_stale` of `_assemble`: the markets, then the accounts.
  unfoldable pub any_stale : Dict Text (Component V) → ℕ → Bool
  unfolding component_meta
  any_stale [] now = false
  any_stale ((_, c) ∷ d) now = is_old (component_meta c now false) || any_stale d now

  unfoldable pub required_stale : Feed V → ℕ → Bool
  unfolding any_stale
  required_stale f now = any_stale f.markets now || is_old (component_meta f.spot now false)

  unfoldable pub markets_age : Dict Text (Component V) → ℕ → Option ℕ
  markets_age [] now = none
  markets_age ((_, c) ∷ d) now = later_age (age_of hz c.as_of now) (markets_age d now)

  unfoldable pub required_age : Feed V → ℕ → Option ℕ
  unfolding markets_age
  required_age f now = later_age (markets_age f.markets now) (age_of hz f.spot.as_of now)

  -- `get_feed`: the refresh that is due; what is assembled is read off the state that it leaves.
  unfoldable pub get_feed : ℕ → Upstream V → Feed V → Feed V
  unfolding refresh
  get_feed now up f = if leb f.next_refresh now then refresh now up f else f
