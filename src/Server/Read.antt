-- ===== src/Server/Read.antt =====
-- `_handle_read` of server.py: the gates of a GET, in their order. Logging and the sending of the
-- reply are left out; the semaphore counts its free slots.
use coinbase_amoled_terminal.Prelude.{
  ℕ, ◌+◌, ◌-◌, ◌*◌, Bool, true, not, ◌||◌, Option, none, some, List, [], ◌∷◌, ◌==◌, contains, ltb,
  eqb, if◌then◌else◌, length, all, Result, ok, err, ◌>>◌, raise_if, list_eq, nat_eq, option_eq,
}
use coinbase_amoled_terminal.Prelude.Text.{Text, codes, is_space}
use coinbase_amoled_terminal.Prelude.Dict.{Dict}
use coinbase_amoled_terminal.Prelude.Int.{ℤ, pos, int_eq}
use coinbase_amoled_terminal.Prelude.Slices.{strip_prefix}
use coinbase_amoled_terminal.RateLimit.{Limiter, allow}
use coinbase_amoled_terminal.Devices.Manager.{Device, authenticate}

-- The parts of a request that the handler reads. `content_lengths` has what `int` makes of each
-- header; `has_extras` says that the target has a scheme, a host, a query or a fragment.
pub record Request : Type 0 where
  pub remote : Text
  pub target_length : ℕ
  pub header_size : ℕ
  pub hosts : ℕ
  pub content_lengths : List (Option ℤ)
  pub has_transfer_encoding : Bool
  pub has_expect : Bool
  pub has_extras : Bool
  pub path : Text
  pub authorizations : List Text
  pub device_ids : List Text

pub record App : Type 0 where
  pub free_slots : ℕ
  pub ip_limiter : Limiter
  pub device_limiter : Limiter
  pub devices : Dict Text Device
  pub ready : Bool

pub data Reply : Type 0 where
  server_busy target_too_long headers_too_large invalid_headers body_not_allowed : Reply
  invalid_target healthy not_found unauthorized not_ready pending_ready internal_error : Reply
  rate_limited : ℕ → Reply
  readiness : Bool → Reply
  feed : Text → Reply

abbrev pub feed_path : Text
feed_path = codes "/v1/device-feed"

abbrev pub status_path : Text
status_path = codes "/v1/onboarding/status"

abbrev is_zero_body : List (Option ℤ) → Bool
is_zero_body [] = true
is_zero_body (n ∷ _) = n == some (pos 0)

-- The checks of the target and the headers.
unfoldable pub check_request : Request → Result Reply (Unit {0})
check_request r = do
  raise_if (ltb 2048 r.target_length) target_too_long
  raise_if (ltb 16384 r.header_size) headers_too_large
  raise_if
      (not (eqb r.hosts 1)
        || (ltb 1 (length r.content_lengths) || (r.has_transfer_encoding || r.has_expect)))
      invalid_headers
  raise_if (not (is_zero_body r.content_lengths)) body_not_allowed
  raise_if r.has_extras invalid_target

-- Longer than allowed, or with a blank.
unfoldable pub is_unusable : ℕ → Text → Bool
is_unusable most value = ltb most (length value) || not (all (λ c. not (is_space c)) value)

-- The identity and the bearer token of one `X-Device-ID` and one `Authorization`.
unfoldable pub read_credentials : Text → Text → Option Text × Option Text
unfolding is_unusable
read_credentials authorization device_id = elim (strip_prefix (codes "Bearer ") authorization) [
  | none ↦ (some device_id, none)
  | some token ↦
      if token == [] || is_unusable 256 token
      then (some device_id, none)
      else if is_unusable 128 device_id
      then (none, some token)
      else (some device_id, some token)
]

-- `_device_credentials`
unfoldable pub device_credentials : Request → Option Text × Option Text
unfolding read_credentials
device_credentials r = elim r.authorizations [
  | authorization ∷ [] ↦ elim r.device_ids [
    | device_id ∷ [] ↦ read_credentials authorization device_id
    | _ ↦ (none, none)
  ]
  | _ ↦ (none, none)
]

-- `value or ""`
abbrev pub or_empty : Option Text → Text
or_empty none = []
or_empty (some s) = s

-- The clock has `hz` ticks in a second; the digest is SHA-256. A request costs one token.
module _ (hz : ℕ) (token_digest : Text → Text) where
  abbrev pub admits : App → Request → Bool
  admits app r =
      let (device_id, token) = device_credentials r in
      authenticate token_digest app.devices (or_empty device_id) (or_empty token)

  -- The gates of a device. `current` is what the feed service gives, or nothing if it raises.
  unfoldable pub serve_device : Option Text → App → Request → ℕ → Reply × App
  unfolding device_credentials
  serve_device current app r now =
      if not (admits app r)
      then (unauthorized, app)
      else elim (allow hz app.device_limiter (or_empty (device_credentials r).0) (60 * hz) now) [
        | err _ ↦ (internal_error, app)
        | ok (l, (granted, retry)) ↦
            let app' = record app { device_limiter = l } in
            if not granted
            then (rate_limited retry, app')
            else if not app.ready
            then (not_ready, app')
            else if r.path == status_path
            then (pending_ready, app')
            else elim current [
              | none ↦ (internal_error, app')
              | some content ↦ (feed content, app')
            ]
      ]

  unfoldable pub route : Option Text → App → Request → ℕ → Reply × App
  unfolding serve_device
  route current app r now =
      if r.path == codes "/healthz"
      then (healthy, app)
      else if r.path == codes "/readyz"
      then (readiness app.ready, app)
      else if not (contains (feed_path ∷ status_path ∷ []) r.path)
      then (not_found, app)
      else serve_device current app r now

  -- The body of the `try`, with the slot taken.
  unfoldable pub answer : Option Text → App → Request → ℕ → Reply × App
  unfolding check_request route
  answer current app r now = elim (allow hz app.ip_limiter r.remote (60 * hz) now) [
    | err _ ↦ (internal_error, app)
    | ok (l, (granted, retry)) ↦
        let app' = record app { ip_limiter = l } in
        if not granted
        then (rate_limited retry, app')
        else elim (check_request r) [ err reply ↦ (reply, app') | ok _ ↦ route current app' r now ]
  ]

  -- `_handle_read`: the slot is taken before and given back at the end, however the request ends.
  unfoldable pub handle_read : Option Text → App → Request → ℕ → Reply × App
  unfolding answer
  handle_read current app r now =
      if eqb app.free_slots 0
      then (server_busy, app)
      else (let done = answer current (record app { free_slots = app.free_slots - 1 }) r now in
          (done.0, record (done.1) { free_slots = (done.1).free_slots + 1 }))
