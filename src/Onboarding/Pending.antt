-- ===== src/Onboarding/Pending.antt =====
-- `PendingClaimApplication` of onboarding.py. The coordinator's answers are arguments of a call: whether
-- its rollback raises, and what `claim_pending` returns. A method returns its result beside the state
-- that it leaves, also where it raises.
pub mod Requests
pub mod Interleaved
use coinbase_amoled_terminal.Prelude.{
  ℕ, Bool, true, false, not, ◌&&◌, ◌||◌, Option, none, some, List, [], ◌∷◌, ◌==◌, contains, leb,
  if◌then◌else◌, Result, ok, err, list_eq, nat_eq,
}
use coinbase_amoled_terminal.Prelude.Text.{Text, codes}
use coinbase_amoled_terminal.Onboarding.Session.{SafeProvisioning}

pub record Pending : Type 0 where
  pub status : Text
  pub expires_at : ℕ
  pub device_id : Text
  pub token_sha256 : Text
  pub claimed_event : Bool
  pub terminal_event : Bool

pub data PendingError : Type 0 where
  changed_unexpectedly unavailable invalid_status coordinator_failed : PendingError

-- What `coordinator.claim_pending` does.
pub data ClaimReply : Type 0 where
  claimed : Text → ClaimReply
  session_error other_error : ClaimReply

pub record Coordinator : Type 0 where
  pub rollback_fails : Bool
  pub claim_reply : ClaimReply

abbrev pub Outcome : Type 0 → Type 0
Outcome A = Result PendingError A × Pending

abbrev pub rejected : Text
rejected = codes "rejected"

abbrev wire_states : List Text
wire_states =
    codes "waiting_for_network" ∷ codes "checking_read_only_key" ∷ codes "ready" ∷ rejected ∷ []

-- The digest is SHA-256.
module _ (token_digest : Text → Text) where
  unfoldable pub set_pending : SafeProvisioning → Pending → Outcome (Unit {0})
  set_pending provisioning s =
      if not (s.device_id == [])
        && (not (s.device_id == provisioning.device_id)
            || not (s.token_sha256 == token_digest provisioning.feed_token))
      then (err changed_unexpectedly, s)
      else (
        ok tt,
        record s {
          device_id = provisioning.device_id;
          token_sha256 = token_digest provisioning.feed_token;
          expires_at = provisioning.expires_at;
          status = codes "waiting_for_network";
        },
      )

  -- A token that cannot be encoded has the digest `""`, which no stored digest is.
  unfoldable pub authenticate : Text → Text → Pending → Bool
  authenticate device_id token s =
      not (s.device_id == []) && (device_id == s.device_id && token_digest token == s.token_sha256)

  unfoldable pub mark_rejected : Pending → Pending
  mark_rejected s = record s { status = rejected; claimed_event = true; terminal_event = true }

  unfoldable pub abort : Text → Text → Coordinator → Pending → Outcome Text
  unfolding authenticate mark_rejected
  abort device_id token c s =
      if not (authenticate device_id token s)
      then (err unavailable, s)
      else if c.rollback_fails
      then (err coordinator_failed, s)
      else (ok rejected, mark_rejected s)

  -- The first part of `claim`, up to the end of its first lock: whether the setup is expired.
  unfoldable pub check_claim : Text → Text → ℕ → Pending → Result PendingError Bool
  unfolding authenticate
  check_claim device_id token now s =
      if not (authenticate device_id token s)
      then err unavailable
      else if s.status == rejected
      then err unavailable
      else ok (leb s.expires_at now)

  -- The second part, after the first lock, in the state that other requests may have left meanwhile.
  unfoldable pub settle_claim : Bool → Coordinator → Pending → Outcome Text
  unfolding mark_rejected
  settle_claim true c s =
      if c.rollback_fails then (err coordinator_failed, s) else (err unavailable, mark_rejected s)
  settle_claim false c s = elim c.claim_reply [
    | claimed status ↦ (ok status, record s { status = status; claimed_event = true })
    | session_error ↦ (err unavailable, mark_rejected s)
    | other_error ↦ (err coordinator_failed, s)
  ]

  -- A claim that no other request interrupts.
  unfoldable pub claim : Text → Text → ℕ → Coordinator → Pending → Outcome Text
  unfolding check_claim settle_claim
  claim device_id token now c s = elim (check_claim device_id token now s) [
    | err e ↦ (err e, s)
    | ok expired ↦ settle_claim expired c s
  ]

  unfoldable pub set_status : Text → Pending → Outcome (Unit {0})
  set_status status s = if not (contains wire_states status) then (err invalid_status, s) else (
    ok tt,
    record s {
      status = status;
      terminal_event = s.terminal_event || contains (codes "ready" ∷ rejected ∷ []) status;
    },
  )
