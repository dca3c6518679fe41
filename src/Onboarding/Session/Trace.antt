-- ===== src/Onboarding/Session/Trace.antt =====
-- Any sequence of calls of `SetupSession`, at any times and in any order.
use coinbase_amoled_terminal.Prelude.{
  ℕ, ◌+◌, ◌≤◌, ◌≡◌, refl, true, false, ◌||◌, none, List, [], ◌∷◌, ◌⊎◌, inl, inr, arith, ok, list_eq,
  nat_eq,
}
use coinbase_amoled_terminal.Prelude.Text.{Text}
use coinbase_amoled_terminal.Onboarding.Session.{
  SafeProvisioning, SetupSession, Outcome, create, authorize_setup, begin_once, fail_attempt,
  use_once, mark_finished, set_provisioning, page_token, abort, bind_endpoint,
}

-- The methods that change the session.
pub data Call : Type 0 where
  begin fail consume finish stop : Call
  provision : SafeProvisioning → Call
  bind : Text → ℕ → Call

unfoldable pub perform : Call → SetupSession → ℕ → Outcome
unfolding bind_endpoint begin_once fail_attempt use_once mark_finished set_provisioning abort
perform begin = begin_once
perform fail = fail_attempt
perform consume = use_once
perform finish = mark_finished
perform stop = abort
perform (provision p) = set_provisioning p
perform (bind digits port) = bind_endpoint digits port

-- The session after a run of calls, each at its own time.
unfoldable pub run : SetupSession → List (Call × ℕ) → SetupSession
run s [] = s
run s ((c, now) ∷ calls) = run (perform c s now).1 calls

-- How the flags of a session go together.
pub record IsValid (s : SetupSession) : Type 0 where
  pub used_has_no_token : s.used ≡ true → s.setup_token ≡ []
  pub used_is_idle : s.used ≡ true → s.in_flight ≡ false
  pub used_iff_provisioned : s.used ≡ s.provisioned_event
  pub finished_was_used : s.finished ≡ true → s.used ≡ true
  pub finished_keeps_nothing : s.finished ≡ true → s.provisioning ≡ none
  pub finished_iff_event : s.finished ≡ s.finished_event
  pub terminal_iff : s.terminal_event ≡ (s.finished || s.failed_event)

create-IsValid :
    (session_id setup_token csrf_token : Text) (now monotonic ttl : ℕ) {s : SetupSession}
    → create session_id setup_token csrf_token now monotonic ttl ≡ ok s
    → IsValid s
unfolding create
create-IsValid session_id setup_token csrf_token now monotonic ttl h = ground arith

perform-IsValid : (c : Call) (s : SetupSession) (now : ℕ) → IsValid s → IsValid (perform c s now).1
unfolding perform
perform-IsValid begin s now v = ground arith
perform-IsValid fail s now v = ground arith
perform-IsValid consume s now v = ground arith
perform-IsValid finish s now v = ground arith
perform-IsValid stop s now v = ground arith
perform-IsValid (provision p) s now v = ground arith
perform-IsValid (bind digits port) s now v = ground arith

run-IsValid : (s : SetupSession) (calls : List (Call × ℕ)) → IsValid s → IsValid (run s calls)
unfolding run
run-IsValid s [] v = v
run-IsValid s ((c, now) ∷ calls) v =
    run-IsValid (perform c s now).1 calls (perform-IsValid c s now v)

-- However the methods are called on a created session, and whenever, its flags stay consistent: a used
-- session has no token and no request in flight, it was used exactly if it was provisioned, only a
-- used one is finished, a finished one keeps no credentials, and the events agree with the flags.
pub created-run-IsValid :
    (session_id setup_token csrf_token : Text) (now monotonic ttl : ℕ) (s : SetupSession)
    (calls : List (Call × ℕ))
    → create session_id setup_token csrf_token now monotonic ttl ≡ ok s
    → IsValid (run s calls)
created-run-IsValid session_id setup_token csrf_token now monotonic ttl s calls h =
    run-IsValid s calls (create-IsValid session_id setup_token csrf_token now monotonic ttl h)

-- A successful call of `use_once`.
abbrev succeeded : Call → Outcome → ℕ
succeeded consume (ok _, _) = 1
succeeded _ _ = 0

-- How many calls of `use_once` in a run succeed.
unfoldable pub uses : SetupSession → List (Call × ℕ) → ℕ
uses s [] = 0
uses s ((c, now) ∷ calls) = succeeded c (perform c s now) + uses (perform c s now).1 calls

used-perform :
    (c : Call) (s : SetupSession) (now : ℕ)
    → s.used ≡ true
    → ((perform c s now).1.used ≡ true) × (succeeded c (perform c s now) ≡ 0)
unfolding perform
used-perform begin s now h = ground arith
used-perform fail s now h = ground arith
used-perform consume s now h = ground arith
used-perform finish s now h = ground arith
used-perform stop s now h = ground arith
used-perform (provision p) s now h = ground arith
used-perform (bind digits port) s now h = ground arith

uses_of_used : (s : SetupSession) (calls : List (Call × ℕ)) → s.used ≡ true → uses s calls ≡ 0
unfolding uses
uses_of_used s [] h = refl
uses_of_used s ((c, now) ∷ calls) h =
    let (still, none_here) = used-perform c s now h in
    omega (arith, none_here, uses_of_used (perform c s now).1 calls still)

use_sets_used :
    (c : Call) (s : SetupSession) (now : ℕ)
    → (succeeded c (perform c s now) ≡ 0)
      ⊎ ((succeeded c (perform c s now) ≡ 1) × ((perform c s now).1.used ≡ true))
unfolding perform
use_sets_used begin s now = ground arith
use_sets_used fail s now = ground arith
use_sets_used consume s now = ground arith
use_sets_used finish s now = ground arith
use_sets_used stop s now = ground arith
use_sets_used (provision p) s now = ground arith
use_sets_used (bind digits port) s now = ground arith

-- Whatever is called, in any order and at any times, a session is used at most once.
pub uses-le-one : (s : SetupSession) (calls : List (Call × ℕ)) → uses s calls ≤ 1
unfolding uses
uses-le-one s [] = omega arith
uses-le-one s ((c, now) ∷ calls) =
    let rest = (perform c s now).1 in
    elim (use_sets_used c s now) [
      | inl quiet ↦ omega (arith, quiet, uses-le-one rest calls)
      | inr (one, spent) ↦ omega (arith, one, uses_of_used rest calls spent)
    ]

-- A session that has lost its token, by use or by `abort`, never gets one again.
no_token-perform :
    (c : Call) (s : SetupSession) (now : ℕ)
    → s.setup_token ≡ []
    → (perform c s now).1.setup_token ≡ []
unfolding perform
no_token-perform begin s now h = ground arith
no_token-perform fail s now h = ground arith
no_token-perform consume s now h = ground arith
no_token-perform finish s now h = ground arith
no_token-perform stop s now h = ground arith
no_token-perform (provision p) s now h = ground arith
no_token-perform (bind digits port) s now h = ground arith

no_token-run :
    (s : SetupSession) (calls : List (Call × ℕ))
    → s.setup_token ≡ []
    → (run s calls).setup_token ≡ []
unfolding run
no_token-run s [] h = h
no_token-run s ((c, now) ∷ calls) h =
    no_token-run (perform c s now).1 calls (no_token-perform c s now h)

spent_now :
    (c : Call) (s : SetupSession) (now : ℕ)
    → (c ≡ stop) ⊎ ((c ≡ consume) × ((use_once s now).0 ≡ ok tt))
    → (perform c s now).1.setup_token ≡ []
unfolding perform
spent_now begin s now h = ground arith
spent_now fail s now h = ground arith
spent_now consume s now h = ground arith
spent_now finish s now h = ground arith
spent_now stop s now h = ground arith
spent_now (provision p) s now h = ground arith
spent_now (bind digits port) s now h = ground arith

-- After a successful `use_once`, or after `abort`, no later call authorises a setup request or shows
-- the page its token, whatever comes in between.
pub spent_forever :
    (s : SetupSession) (c : Call) (now : ℕ) (calls : List (Call × ℕ)) (later : ℕ)
    (session_id setup_token csrf_token : Text)
    → (c ≡ stop) ⊎ ((c ≡ consume) × ((use_once s now).0 ≡ ok tt))
    → (authorize_setup (run (perform c s now).1 calls) later session_id setup_token csrf_token
        ≡ false)
      × (page_token (run (perform c s now).1 calls) later ≡ none)
unfolding authorize_setup page_token
spent_forever s c now calls later session_id setup_token csrf_token h =
    let gone : (perform c s now).1.setup_token ≡ [] = spent_now c s now h in
    ground (arith, no_token-run (perform c s now).1 calls gone)
