-- ===== src/Onboarding/Pending/Interleaved.antt =====
-- Claims and aborts of a pending setup, onboarding.py, whose parts interleave: a claim releases the
-- lock between its test of the status and its last write.
use coinbase_amoled_terminal.Prelude.{
  ℕ, ◌≡◌, refl, Bool, true, false, List, [], ◌∷◌, if◌then◌else◌, Result, ok, err, arith, list_eq,
  nat_eq,
}
use coinbase_amoled_terminal.Prelude.Text.{Text}
use coinbase_amoled_terminal.Onboarding.Pending.{
  Pending, PendingError, unavailable, Coordinator, rejected, abort, check_claim, settle_claim,
}

-- The setup, and of each claim that is between its two parts, whether it found the setup expired.
pub record Traffic : Type 0 where
  pub pending : Pending
  pub under_way : List Bool

-- A part of a request: a claim begins, a claim that found this ends, and an abort.
pub data Step : Type 0 where
  begin_claim : Text → Text → ℕ → Step
  end_claim : Bool → Coordinator → Step
  abort_setup : Text → Text → Coordinator → Step

abbrev pub drop_one : Bool → List Bool → List Bool
drop_one b [] = []
drop_one true (true ∷ l) = l
drop_one true (false ∷ l) = false ∷ drop_one true l
drop_one false (false ∷ l) = l
drop_one false (true ∷ l) = true ∷ drop_one false l

abbrev pub enter : Result PendingError Bool → Traffic → Traffic
enter (err e) t = t
enter (ok expired) t = record t { under_way = expired ∷ t.under_way }

abbrev has : Bool → List Bool → Bool
has b [] = false
has true (true ∷ l) = true
has true (false ∷ l) = has true l
has false (false ∷ l) = true
has false (true ∷ l) = has false l

module _ (token_digest : Text → Text) where
  abbrev pub leave : Bool → Coordinator → Traffic → Traffic
  leave expired c t = record {
    pending = (settle_claim token_digest expired c t.pending).1;
    under_way = drop_one expired t.under_way;
  }

  unfoldable pub step : Step → Traffic → Traffic
  unfolding check_claim settle_claim abort
  step (begin_claim device_id token now) t =
      enter (check_claim token_digest device_id token now t.pending) t
  step (end_claim expired c) t = if has expired t.under_way then leave expired c t else t
  step (abort_setup device_id token c) t = record t {
    pending = (abort token_digest device_id token c t.pending).1;
  }

  unfoldable pub steps : List Step → Traffic → Traffic
  unfolding step
  steps [] t = t
  steps (p ∷ l) t = steps l (step p t)

  -- Rejected, and no claim is between its parts.
  pub record IsClosed (t : Traffic) : Type 0 where
    pub status : t.pending.status ≡ rejected
    pub quiet : t.under_way ≡ []

  check_rejected :
      (device_id token : Text) (now : ℕ) (s : Pending)
      → s.status ≡ rejected
      → check_claim token_digest device_id token now s ≡ err unavailable
  unfolding check_claim
  check_rejected device_id token now s h = ground arith

  abort-rejected :
      (device_id token : Text) (c : Coordinator) (s : Pending)
      → s.status ≡ rejected
      → (abort token_digest device_id token c s).1.status ≡ rejected
  unfolding abort
  abort-rejected device_id token c s h = ground arith

  has_none : (b : Bool) (l : List Bool) → l ≡ [] → has b l ≡ false
  has_none b l h = rw h refl

  if_none : (b : Bool) (t u : Traffic) → b ≡ false → IsClosed u → IsClosed (if b then t else u)
  if_none b t u h k = rw h k

  step-IsClosed : (p : Step) (t : Traffic) → IsClosed t → IsClosed (step p t)
  unfolding step
  step-IsClosed (begin_claim device_id token now) t h =
      rw (check_rejected device_id token now t.pending h.status) h
  step-IsClosed (end_claim expired c) t h =
      let none_there = has_none expired t.under_way h.quiet in
      if_none (has expired t.under_way) (leave expired c t) t none_there h
  step-IsClosed (abort_setup device_id token c) t h = record {
    status = abort-rejected device_id token c t.pending h.status;
    quiet = h.quiet;
  }

  steps-IsClosed : (l : List Step) (t : Traffic) → IsClosed t → IsClosed (steps l t)
  unfolding steps
  steps-IsClosed [] t h = h
  steps-IsClosed (p ∷ l) t h = steps-IsClosed l (step p t) (step-IsClosed p t h)

  -- Once the pending setup is rejected and no claim is between its two parts, it stays so over any
  -- interleaving of the parts of claims and of aborts, and no claim gets past its first part, not even
  -- with the right token.
  pub rejected_forever :
      (l : List Step) (t : Traffic) (device_id token : Text) (now : ℕ)
      → IsClosed t
      → IsClosed (steps l t)
        × (check_claim token_digest device_id token now (steps l t).pending ≡ err unavailable)
  rejected_forever l t device_id token now h =
      let still = steps-IsClosed l t h in
      (still, check_rejected device_id token now (steps l t).pending still.status)
