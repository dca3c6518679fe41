-- ===== src/Tests/Claims.antt =====
-- The pending setup of onboarding.py at concrete inputs, with a digest that reverses the token.
use mathlib.Core.List.{reverse}
use coinbase_amoled_terminal.Prelude.{
  ◌≡◌, ◌<◌, ◌↔◌, refl, true, false, List, [], ◌∷◌, ◌==◌, ok, err, list_eq, nat_eq, ℕ_discrete,
}
use coinbase_amoled_terminal.Prelude.Text.{codes}
use coinbase_amoled_terminal.Onboarding.Pending.{
  Pending, Coordinator, claimed, rejected, unavailable, authenticate, claim, abort, check_claim,
}
use coinbase_amoled_terminal.Onboarding.Pending.Requests.{
  Request, to_claim, to_abort, run, run-Strangers, claim-ok_iff,
}
use coinbase_amoled_terminal.Onboarding.Pending.Interleaved.{
  Traffic, Step, begin_claim, end_claim, abort_setup, steps, IsClosed, rejected_forever,
}

abbrev pending : Pending
pending = record {
  status = codes "waiting_for_network";
  expires_at = 100;
  device_id = codes "display";
  token_sha256 = codes "nekot";
  claimed_event = false;
  terminal_event = false;
}

abbrev coordinator : Coordinator
coordinator = record { rollback_fails = false; claim_reply = claimed (codes "ready") }

abbrev requests : List Request
requests =
    to_claim (codes "display") (codes "wrong") 10 coordinator
    ∷ to_abort (codes "other") (codes "token") coordinator
    ∷ []

wrong_token : authenticate reverse (codes "display") (codes "wrong") pending ≡ false
unfolding authenticate list_eq nat_eq ℕ_discrete
wrong_token = refl

wrong_device : authenticate reverse (codes "other") (codes "token") pending ≡ false
unfolding authenticate list_eq nat_eq ℕ_discrete
wrong_device = refl

run-Strangers_example : run reverse pending requests ≡ pending
run-Strangers_example = run-Strangers reverse pending requests (wrong_token, (wrong_device, tt))

abbrev refused : Pending
refused = record pending { status = rejected }

abbrev traffic : Traffic
traffic = record { pending = refused; under_way = [] }

abbrev parts : List Step
parts =
    begin_claim (codes "display") (codes "token") 20
    ∷ end_claim false coordinator
    ∷ abort_setup (codes "display") (codes "token") coordinator
    ∷ []

rejected_forever_example :
    IsClosed reverse (steps reverse parts traffic)
    × (check_claim reverse
          (codes "display")
          (codes "token")
          30
          (steps reverse parts traffic).pending
        ≡ err unavailable)
rejected_forever_example =
    rejected_forever reverse parts traffic (codes "display") (codes "token") 30
      (record { status = refl; quiet = refl })

-- An abort between the parts of a claim: the claim ends by overwriting the rejection.
overwritten :
    (steps reverse
      (begin_claim (codes "display") (codes "token") 20
        ∷ abort_setup (codes "display") (codes "token") coordinator
        ∷ end_claim false coordinator
        ∷ [])
      (record { pending = pending; under_way = [] })).pending.status
    ≡ codes "ready"
unfolding steps abort check_claim list_eq nat_eq ℕ_discrete
overwritten = refl

claim_test :
    (claim reverse (codes "display") (codes "token") 20 coordinator pending).0 ≡ ok (codes "ready")
unfolding claim list_eq nat_eq ℕ_discrete
claim_test = refl

claim-ok_iff_example :
    ((claim reverse (codes "display") (codes "token") 20 coordinator pending).0
      ≡ ok (codes "ready"))
    ↔ ((authenticate reverse (codes "display") (codes "token") pending ≡ true)
        × ((codes "waiting_for_network" == rejected) ≡ false)
        × (20 < 100)
        × (claimed (codes "ready") ≡ claimed (codes "ready")))
claim-ok_iff_example =
    claim-ok_iff reverse (codes "display") (codes "token") 20 coordinator pending (codes "ready")
