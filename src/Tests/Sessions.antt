-- ===== src/Tests/Sessions.antt =====
-- The setup session of onboarding.py at concrete inputs.
use coinbase_amoled_terminal.Prelude.{ℕ, ◌≤◌, ◌≡◌, refl, true, false, none, List, [], ◌∷◌, inr, ok}
use coinbase_amoled_terminal.Prelude.Text.{codes}
use coinbase_amoled_terminal.Onboarding.Session.{
  SafeProvisioning, SetupSession, create, authorize_setup, use_once, page_token,
}
use coinbase_amoled_terminal.Onboarding.Session.Trace.{
  Call, begin, fail, consume, finish, provision, perform, run, IsValid, uses, uses-le-one,
  created-run-IsValid, spent_forever,
}

abbrev session : SetupSession
session = record {
  session_id = codes "id";
  setup_token = codes "token";
  csrf_token = codes "csrf";
  created_at = 1000;
  expires_at = 1600;
  monotonic_deadline = 650;
  portal_origin = codes "http://192.168.4.1";
  endpoint_origin = [];
  endpoint_url = [];
  local_page_url = [];
  in_flight = false;
  used = false;
  finished = false;
  provisioning = none;
  provisioned_event = false;
  finished_event = false;
  failed_event = false;
  terminal_event = false;
}

create_test : create (codes "id") (codes "token") (codes "csrf") 1000 50 600 ≡ ok session
unfolding create
create_test = refl

abbrev safe : SafeProvisioning
safe = record {
  bridge_url = codes "https://bridge";
  device_id = codes "device";
  feed_token = codes "feed";
  expires_at = 2000;
}

abbrev calls : List (Call × ℕ)
calls =
    (begin, 60)
    ∷ (fail, 61)
    ∷ (begin, 62)
    ∷ (provision safe, 63)
    ∷ (consume, 64)
    ∷ (consume, 65)
    ∷ (finish, 66)
    ∷ []

uses_test : uses session calls ≡ 1
unfolding uses perform
uses_test = refl

finished_test : (run session calls).finished ≡ true
unfolding run perform
finished_test = refl

uses-le-one_example : uses session calls ≤ 1
uses-le-one_example = uses-le-one session calls

created-run-IsValid_example : IsValid (run session calls)
created-run-IsValid_example =
    created-run-IsValid (codes "id") (codes "token") (codes "csrf") 1000 50 600 session calls
      create_test

abbrev busy : SetupSession
busy = record session { in_flight = true }

use_once_test : (use_once busy 60).0 ≡ ok tt
unfolding use_once
use_once_test = refl

spent_forever_example :
    (authorize_setup
        (run (perform consume busy 60).1 calls)
        70
        (codes "id")
        (codes "token")
        (codes "csrf")
      ≡ false)
    × (page_token (run (perform consume busy 60).1 calls) 70 ≡ none)
spent_forever_example =
    spent_forever busy consume 60 calls 70 (codes "id") (codes "token") (codes "csrf")
      (inr (refl, use_once_test))
