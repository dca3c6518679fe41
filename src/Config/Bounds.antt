-- ===== src/Config/Bounds.antt =====
-- What the numbers of an accepted configuration are, config.py.
use coinbase_amoled_terminal.Prelude.{
  ℕ, ◌≤◌, ◌≡◌, false, Option, none, some, arith, ok, >>=-eq-ok, raise_if, raise_if-ok, ltb, list_eq,
  nat_eq,
}
use coinbase_amoled_terminal.Prelude.Int.{pos, negsuc}
use coinbase_amoled_terminal.Prelude.Text.{Text, codes}
use coinbase_amoled_terminal.Prelude.Json.{
  Json, Fields, null, boolean, integer, real, text, array, object, get,
}
use coinbase_amoled_terminal.Config.Secrets.{stale_order}
use coinbase_amoled_terminal.Config.Validate.{bounded, bounded_int, check_numbers}

-- The setting is the number `n`, between the bounds.
pub record IsIn (settings : Fields) (name : Text) (least most n : ℕ) : Type 0 where
  pub found : get name settings ≡ some (integer (pos n))
  pub above : least ≤ n
  pub below : n ≤ most

pub bounded-found :
    (o : Option Json) (least most n : ℕ)
    → bounded o least most ≡ ok n
    → (o ≡ some (integer (pos n))) × (least ≤ n) × (n ≤ most)
unfolding bounded
bounded-found none least most n h = cc
bounded-found (some null) least most n h = cc
bounded-found (some (boolean b)) least most n h = cc
bounded-found (some (integer (pos m))) least most n h = (ground arith, ground arith, ground arith)
bounded-found (some (integer (negsuc m))) least most n h = cc
bounded-found (some (real r)) least most n h = cc
bounded-found (some (text s)) least most n h = cc
bounded-found (some (array l)) least most n h = cc
bounded-found (some (object d)) least most n h = cc

bounded_int-IsIn :
    (settings : Fields) (name : Text) (least most n : ℕ)
    → bounded_int settings name least most ≡ ok n
    → IsIn settings name least most n
unfolding bounded_int
bounded_int-IsIn settings name least most n h =
    let (found, above, below) = bounded-found (get name settings) least most n h in
    record { found = found; above = above; below = below }

-- Every number that the bridge reads of its settings.
pub record AreBounded (settings : Fields) : Type 0 where
  pub refresh : (n : ℕ) × IsIn settings (codes "refresh_seconds") 2 300 n
  pub stale : ℕ
  pub most : ℕ
  pub stale_in : IsIn settings (codes "stale_after_seconds") 10 3600 stale
  pub most_in : IsIn settings (codes "max_stale_seconds") 30 86400 most
  pub ordered : stale ≤ most
  pub timeout : (n : ℕ) × IsIn settings (codes "upstream_timeout_seconds") 2 30 n
  pub ip_rate : (n : ℕ) × IsIn settings (codes "ip_rate_per_minute") 1 10000 n
  pub device_rate : (n : ℕ) × IsIn settings (codes "device_rate_per_minute") 1 10000 n
  pub burst : (n : ℕ) × IsIn settings (codes "rate_burst") 1 1000 n
  pub requests : (n : ℕ) × IsIn settings (codes "max_concurrent_requests") 1 256 n

not_less : (n m : ℕ) → ltb n m ≡ false → m ≤ n
not_less n m h = ground arith

pub check_numbers-AreBounded :
    (settings : Fields) → check_numbers settings ≡ ok tt → AreBounded settings
unfolding check_numbers
check_numbers-AreBounded settings h =
    let (refresh, p₁, h₁) = >>=-eq-ok (bounded_int settings (codes "refresh_seconds") 2 300) _ h in
    let (stale, p₂, h₂) =
      >>=-eq-ok (bounded_int settings (codes "stale_after_seconds") 10 3600) _ h₁ in
    let (most, p₃, h₃) =
      >>=-eq-ok (bounded_int settings (codes "max_stale_seconds") 30 86400) _ h₂ in
    let (_, kept, h₄) = >>=-eq-ok (raise_if (ltb most stale) stale_order) _ h₃ in
    let (timeout, p₅, h₅) =
      >>=-eq-ok (bounded_int settings (codes "upstream_timeout_seconds") 2 30) _ h₄ in
    let (ip_rate, p₆, h₆) =
      >>=-eq-ok (bounded_int settings (codes "ip_rate_per_minute") 1 10000) _ h₅ in
    let (device_rate, p₇, h₇) =
      >>=-eq-ok (bounded_int settings (codes "device_rate_per_minute") 1 10000) _ h₆ in
    let (burst, p₈, h₈) = >>=-eq-ok (bounded_int settings (codes "rate_burst") 1 1000) _ h₇ in
    let (requests, p₉, _) =
      >>=-eq-ok (bounded_int settings (codes "max_concurrent_requests") 1 256) _ h₈ in
    record {
      refresh = (refresh, bounded_int-IsIn settings _ 2 300 refresh p₁);
      stale = stale;
      most = most;
      stale_in = bounded_int-IsIn settings _ 10 3600 stale p₂;
      most_in = bounded_int-IsIn settings _ 30 86400 most p₃;
      ordered = not_less most stale ((raise_if-ok (ltb most stale) stale_order).0 kept);
      timeout = (timeout, bounded_int-IsIn settings _ 2 30 timeout p₅);
      ip_rate = (ip_rate, bounded_int-IsIn settings _ 1 10000 ip_rate p₆);
      device_rate = (device_rate, bounded_int-IsIn settings _ 1 10000 device_rate p₇);
      burst = (burst, bounded_int-IsIn settings _ 1 1000 burst p₈);
      requests = (requests, bounded_int-IsIn settings _ 1 256 requests p₉);
    }
