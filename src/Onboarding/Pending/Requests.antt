-- ===== src/Onboarding/Pending/Requests.antt =====
-- Runs of claims and aborts against a pending setup.
use coinbase_amoled_terminal.Prelude.{
  ℕ, ◌<◌, ◌≡◌, refl, ◌↔◌, true, false, List, [], ◌∷◌, ◌==◌, ok, arith, list_eq, nat_eq,
}
use coinbase_amoled_terminal.Prelude.Text.{Text}
use coinbase_amoled_terminal.Onboarding.Pending.{
  Pending, claimed, Coordinator, rejected, authenticate, abort, claim,
}

-- A request: the identity and the token that it bears, its time and what the coordinator does.
pub data Request : Type 0 where
  to_claim : Text → Text → ℕ → Coordinator → Request
  to_abort : Text → Text → Coordinator → Request

module _ (token_digest : Text → Text) where
  unfoldable pub perform : Request → Pending → Pending
  unfolding claim abort
  perform (to_claim device_id token now c) s = (claim token_digest device_id token now c s).1
  perform (to_abort device_id token c) s = (abort token_digest device_id token c s).1

  unfoldable pub run : Pending → List Request → Pending
  run s [] = s
  run s (r ∷ requests) = run (perform r s) requests

  -- Nobody of the run bears the pending identity and token.
  abbrev pub Strangers : Pending → List Request → Type 0
  Strangers s [] = Unit
  Strangers s (to_claim device_id token now c ∷ requests) =
      (authenticate token_digest device_id token s ≡ false) × Strangers s requests
  Strangers s (to_abort device_id token c ∷ requests) =
      (authenticate token_digest device_id token s ≡ false) × Strangers s requests

  claim_stranger :
      (device_id token : Text) (now : ℕ) (c : Coordinator) (s : Pending)
      → authenticate token_digest device_id token s ≡ false
      → (claim token_digest device_id token now c s).1 ≡ s
  unfolding claim
  claim_stranger device_id token now c s h = ground arith

  abort_stranger :
      (device_id token : Text) (c : Coordinator) (s : Pending)
      → authenticate token_digest device_id token s ≡ false
      → (abort token_digest device_id token c s).1 ≡ s
  unfolding abort
  abort_stranger device_id token c s h = ground arith

  -- Requests that do not bear the pending identity and its token change nothing, however many come.
  pub run-Strangers :
      (s : Pending) (requests : List Request) → Strangers s requests → run s requests ≡ s
  unfolding run perform
  run-Strangers s [] h = refl
  run-Strangers s (to_claim device_id token now c ∷ requests) (h, hs) =
      rw (run, perform, claim_stranger device_id token now c s h) (run-Strangers s requests hs)
  run-Strangers s (to_abort device_id token c ∷ requests) (h, hs) =
      rw (run, perform, abort_stranger device_id token c s h) (run-Strangers s requests hs)

  -- A claim that no other request interrupts is accepted exactly if it bears the pending identity and its token, the setup is not
  -- rejected and not expired, and the coordinator accepts it with this status.
  pub claim-ok_iff :
      (device_id token : Text) (now : ℕ) (c : Coordinator) (s : Pending) (status : Text)
      → ((claim token_digest device_id token now c s).0 ≡ ok status) ↔ (
          (authenticate token_digest device_id token s ≡ true)
          × ((s.status == rejected) ≡ false)
          × (now < s.expires_at)
          × (c.claim_reply ≡ claimed status))
  unfolding claim
  claim-ok_iff device_id token now c s status = (λ h. ground arith, λ h. ground arith)
