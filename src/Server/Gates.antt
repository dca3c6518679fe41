-- ===== src/Server/Gates.antt =====
-- What a reply of `_handle_read` of server.py says about the request.
use coinbase_amoled_terminal.Prelude.{
  ℕ, ◌-◌, ◌*◌, ◌≡◌, refl, inl, inr, Bool, true, false, not, Option, some, [], ◌∷◌, ◌==◌, contains,
  eqb, if◌then◌else◌, Result, ok, err, arith, Bool-cases, Result-cases, list_eq, nat_eq,
}
use coinbase_amoled_terminal.Prelude.Text.{Text, codes}
use coinbase_amoled_terminal.RateLimit.{Limiter, allow}
use coinbase_amoled_terminal.Server.Read.{
  Request, App, Reply, healthy, readiness, not_found, rate_limited, feed, feed_path, status_path,
  check_request, device_credentials, or_empty, admits, serve_device, route, answer, handle_read,
}

-- The limiter grants the request of the key.
abbrev pub Grants : ℕ → Limiter → Text → ℕ → Type 0
Grants hz l key now =
    (l' : Limiter) × (retry : ℕ) × (allow hz l key (60 * hz) now ≡ ok (l', (true, retry)))

only_feed :
    (path : Text)
    → contains (feed_path ∷ status_path ∷ []) path ≡ true
    → (path == status_path) ≡ false
    → path ≡ feed_path
only_feed path known other = ground arith

-- The checks never answer with the feed.
check_request_reply :
    (r : Request) (reply : Reply) (content : Text)
    → check_request r ≡ err reply
    → reply ≡ feed content
    → ⊥
unfolding check_request
check_request_reply r reply content h e = ground arith

module _ (hz : ℕ) (token_digest : Text → Text) where
  -- What the gates have found where the feed is given out.
  pub record IsEntitled (app : App) (r : Request) (now : ℕ) : Type 0 where
    pub admitted : admits hz token_digest app r ≡ true
    pub within_rate : Grants hz app.device_limiter (or_empty (device_credentials r).0) now
    pub ready : app.ready ≡ true

  serve_device-IsEntitled :
      (current : Option Text) (app : App) (r : Request) (now : ℕ) (content : Text)
      → (serve_device hz token_digest current app r now).0 ≡ feed content
      → IsEntitled app r now × ((r.path == status_path) ≡ false) × (current ≡ some content)
  unfolding serve_device
  serve_device-IsEntitled current app r now content h =
      elim (Result-cases
        (allow hz app.device_limiter (or_empty (device_credentials r).0) (60 * hz) now)) [
          | inr (e, failed) ↦ ground arith
          | inl ((l, (granted, retry)), asked) ↦ elim (Bool-cases granted) [
            | inr refused ↦ ground arith
            | inl yes_granted ↦ (
              record {
                admitted = ground arith;
                within_rate = (l, retry, ground arith);
                ready = ground arith;
              },
              ground arith,
              ground arith,
            )
          ]
        ]

  -- The paths in the order of the tests, with the device's part as a variable.
  routed :
      (health ready_path known : Bool) (served : Reply × App) (app : App) (content : Text)
      → (if health
          then (healthy, app)
          else if ready_path
          then (readiness app.ready, app)
          else if not known
          then (not_found, app)
          else served).0
        ≡ feed content
      → (served.0 ≡ feed content) × (known ≡ true)
  routed health ready_path known served app content h = ground arith

  route-IsEntitled :
      (current : Option Text) (app : App) (r : Request) (now : ℕ) (content : Text)
      → (route hz token_digest current app r now).0 ≡ feed content
      → IsEntitled app r now × (r.path ≡ feed_path) × (current ≡ some content)
  unfolding route
  route-IsEntitled current app r now content h =
      let (served, known) =
        routed (r.path == codes "/healthz") (r.path == codes "/readyz")
          (contains (feed_path ∷ status_path ∷ []) r.path)
          (serve_device hz token_digest current app r now) app content h in
      let (entitled, other, given) = serve_device-IsEntitled current app r now content served in
      (entitled, only_feed r.path known other, given)

  -- The checks of the target and of the headers come between the limiter and the paths.
  checked :
      (granted : Bool) (retry : ℕ) (check : Result Reply (Unit {0})) (next : Reply × App)
      (app : App) (content : Text)
      → (if◌then◌else◌ {A = Reply × App}
          (not granted)
          (rate_limited retry, app)
          (elim check [ err reply ↦ (reply, app) | ok _ ↦ next ])).0
        ≡ feed content
      → ((reply : Reply) → check ≡ err reply → (reply ≡ feed content) → ⊥)
      → (granted ≡ true) × (check ≡ ok tt) × (next.0 ≡ feed content)
  checked granted retry (ok _) next app content h bad = ground arith
  checked true retry (err reply) next app content h bad = elim (bad reply refl h) [ ]
  checked false retry (err reply) next app content h bad = ground arith

  answer-IsEntitled :
      (current : Option Text) (app : App) (r : Request) (now : ℕ) (content : Text)
      → (answer hz token_digest current app r now).0 ≡ feed content
      → IsEntitled app r now
        × Grants hz app.ip_limiter r.remote now
        × (check_request r ≡ ok tt)
        × (r.path ≡ feed_path)
        × (current ≡ some content)
  unfolding answer
  answer-IsEntitled current app r now content h =
      elim (Result-cases (allow hz app.ip_limiter r.remote (60 * hz) now)) [
        | inr (e, failed) ↦ (let k = rw (answer, failed) at h in cc)
        | inl ((l, (granted, retry)), asked) ↦
            let app' = record app { ip_limiter = l } in
            let (yes_granted, passed, next) =
              checked granted retry (check_request r) (route hz token_digest current app' r now)
                app' content (rw (answer, asked) at h)
                (λ reply. check_request_reply r reply content) in
            let (entitled, path, given) = route-IsEntitled current app' r now content next in
            (
              record {
                admitted = entitled.admitted;
                within_rate = entitled.within_rate;
                ready = entitled.ready;
              },
              (l, retry, rw yes_granted at asked),
              passed,
              path,
              given,
            )
      ]

  -- The feed is given out only for a request that found a free slot, passed the checks of its target
  -- and headers, was within the rate of its address, bears the identity and the token of an enabled
  -- device, was within that device's rate, asked for the feed's path, and came to a server that is
  -- ready; and it is then what the feed service gave.
  pub handle_read-IsEntitled :
      (current : Option Text) (app : App) (r : Request) (now : ℕ) (content : Text)
      → (handle_read hz token_digest current app r now).0 ≡ feed content
      → (eqb app.free_slots 0 ≡ false)
        × IsEntitled app r now
        × Grants hz app.ip_limiter r.remote now
        × (check_request r ≡ ok tt)
        × (r.path ≡ feed_path)
        × (current ≡ some content)
  unfolding handle_read
  handle_read-IsEntitled current app r now content h = elim (Bool-cases (eqb app.free_slots 0)) [
    | inl busy ↦ (let k = rw (handle_read, busy) at h in cc)
    | inr free ↦
        let app' = record app { free_slots = app.free_slots - 1 } in
        let (e, rate, passed, path, given) =
          answer-IsEntitled current app' r now content (rw (handle_read, free) at h) in
        (
          free,
          record { admitted = e.admitted; within_rate = e.within_rate; ready = e.ready },
          rate,
          passed,
          path,
          given,
        )
  ]
