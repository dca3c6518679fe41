-- ===== src/Onboarding/Session.antt =====
-- `SetupSession` of onboarding.py. A method gets the session and the monotonic time, and returns its
-- result beside the session that it leaves, also where it raises. The methods that test or change the
-- flags hold the lock from their start to their end.
pub mod Trace
use coinbase_amoled_terminal.Prelude.{
  ℕ, ◌+◌, Bool, true, false, not, ◌&&◌, ◌||◌, Option, none, some, List, [], ◌∷◌, ◌++◌, ◌==◌, ltb,
  leb, if◌then◌else◌, Result, ok, err, list_eq, nat_eq,
}
use coinbase_amoled_terminal.Prelude.Text.{Text, codes}

-- `SafeProvisioning`
pub record SafeProvisioning : Type 0 where
  pub bridge_url : Text
  pub device_id : Text
  pub feed_token : Text
  pub expires_at : ℕ

pub record SetupSession : Type 0 where
  pub session_id : Text
  pub setup_token : Text
  pub csrf_token : Text
  pub created_at : ℕ
  pub expires_at : ℕ
  pub monotonic_deadline : ℕ
  pub portal_origin : Text
  pub endpoint_origin : Text
  pub endpoint_url : Text
  pub local_page_url : Text
  pub in_flight : Bool
  pub used : Bool
  pub finished : Bool
  pub provisioning : Option SafeProvisioning
  pub provisioned_event : Bool
  pub finished_event : Bool
  pub failed_event : Bool
  pub terminal_event : Bool

pub data SessionError : Type 0 where
  value_error unavailable : SessionError

abbrev pub Outcome : Type 0
Outcome = Result SessionError (Unit {0}) × SetupSession

-- The three tokens come from `secrets`, the wall clock and the monotonic clock from `time`.
unfoldable pub create : Text → Text → Text → ℕ → ℕ → ℕ → Result SessionError SetupSession
create session_id setup_token csrf_token now monotonic ttl_seconds =
    if leb 60 ttl_seconds && leb ttl_seconds 1800
    then ok (record {
      session_id = session_id;
      setup_token = setup_token;
      csrf_token = csrf_token;
      created_at = now;
      expires_at = now + ttl_seconds;
      monotonic_deadline = monotonic + ttl_seconds;
      portal_origin = codes "http://192.168.4.1";
      endpoint_origin = [];
      endpoint_url = [];
      local_page_url = [];
      in_flight = false;
      used = false;
      finished = false;
      provisioning = none;
      provisioned_event = false;
      finished_event = false;
      failed_event = false;
      terminal_event = false;
    })
    else err value_error

-- `bind_endpoint(port)`, with the digits of the port. Like the other methods it is given the time.
unfoldable pub bind_endpoint : Text → ℕ → SetupSession → ℕ → Outcome
bind_endpoint digits port s now =
    let origin = codes "http://127.0.0.1:" ++ digits in
    if not (leb 1 port && leb port 65535) then (err value_error, s) else (
      ok tt,
      record s {
        endpoint_origin = origin;
        endpoint_url = origin ++ codes "/v1/onboarding";
        local_page_url = origin ++ (codes "/setup/" ++ s.session_id);
      },
    )

-- `expired`
unfoldable pub is_expired : SetupSession → ℕ → Bool
is_expired s now = leb s.monotonic_deadline now

-- `hmac.compare_digest` compares for equality, in constant time.
unfoldable pub authorize_setup : SetupSession → ℕ → Text → Text → Text → Bool
unfolding is_expired
authorize_setup s now session_id setup_token csrf_token =
    not s.used
    && (not s.finished
        && (not (is_expired s now)
            && (not (s.setup_token == [])
                && (session_id == s.session_id
                    && (setup_token == s.setup_token && csrf_token == s.csrf_token)))))

unfoldable pub begin_once : SetupSession → ℕ → Outcome
unfolding is_expired
begin_once s now =
    if is_expired s now || (s.used || s.in_flight)
    then (err unavailable, s)
    else (ok tt, record s { in_flight = true })

unfoldable pub fail_attempt : SetupSession → ℕ → Outcome
fail_attempt s now = (ok tt, record s { in_flight = false })

unfoldable pub use_once : SetupSession → ℕ → Outcome
unfolding is_expired
use_once s now =
    if not s.in_flight || (s.used || is_expired s now)
    then (err unavailable, record s { in_flight = false })
    else (
      ok tt,
      record s { in_flight = false; used = true; setup_token = []; provisioned_event = true },
    )

abbrev is_none {ℓ} : {A : Type ℓ} → Option A → Bool
is_none none = true
is_none (some _) = false

unfoldable pub mark_finished : SetupSession → ℕ → Outcome
mark_finished s now =
    if not s.used || (s.finished || is_none s.provisioning) then (err unavailable, s) else (
      ok tt,
      record s {
        finished = true;
        provisioning = none;
        finished_event = true;
        terminal_event = true;
      },
    )

unfoldable pub set_provisioning : SafeProvisioning → SetupSession → ℕ → Outcome
unfolding is_expired
set_provisioning p s now =
    if is_expired s now || (s.used || not s.in_flight)
    then (err unavailable, s)
    else (ok tt, record s { provisioning = some p })

unfoldable pub safe_provisioning : SetupSession → ℕ → Option SafeProvisioning
unfolding is_expired
safe_provisioning s now =
    if is_expired s now || (not s.used || s.finished) then none else s.provisioning

unfoldable pub page_token : SetupSession → ℕ → Option Text
unfolding is_expired
page_token s now =
    if is_expired s now || (s.used || s.finished)
    then none
    else if s.setup_token == []
    then none
    else some s.setup_token

unfoldable pub abort : SetupSession → ℕ → Outcome
abort s now = (
  ok tt,
  record s { setup_token = []; provisioning = none; failed_event = true; terminal_event = true },
)
