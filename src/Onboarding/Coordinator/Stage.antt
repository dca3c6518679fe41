-- ===== src/Onboarding/Coordinator/Stage.antt =====
-- The staging and the claim of a setup transaction, onboarding.py.
use coinbase_amoled_terminal.Prelude.{
  ℕ, Bool, true, false, not, ◌&&◌, ◌||◌, Option, none, some, ◌++◌, ◌==◌, leb, if◌then◌else◌, Result,
  ok, err, list_eq, nat_eq,
}
use coinbase_amoled_terminal.Prelude.Text.{Text, codes}
use coinbase_amoled_terminal.Prelude.Dict.{insert}
use coinbase_amoled_terminal.Credentials.Slots.{stage_slot}
use coinbase_amoled_terminal.Onboarding.Session.{SafeProvisioning}
use coinbase_amoled_terminal.Onboarding.Coordinator.Act.{
  Phase, staged, claimed, checking, Journal, SetupError, raised, unavailable, already_pending,
  staging_not_undone, Act, give, fail, ◌>>=◌, ◌>>◌, look, change, change_held, demand, may_raise,
  attempt, write_journal, read_staged_token,
}
use coinbase_amoled_terminal.Onboarding.Coordinator.Undo.{
  lift_result, drop_slot, drop_token, rollback_journal,
}

-- `stage_local_credential_slot`, with the encoded bundle of the credentials.
unfoldable pub add_slot : Text → Text → Act (Unit {0})
add_slot slot bundle = do
  may_raise raised
  disk ← look
  change (λ d. record d { secrets = (stage_slot slot bundle disk.secrets).1 })
  lift_result (stage_slot slot bundle disk.secrets).0

-- `write_secret_atomic(token_path, …)`
unfoldable pub add_token : Text → Text → Act (Unit {0})
add_token transaction_id content = do
  may_raise raised
  change (λ d. record d { tokens = insert transaction_id content d.tokens })

abbrev pub slot_of : Text → Text
slot_of transaction_id = codes "onboarding_" ++ (transaction_id ++ codes ".bundle")

-- The writes of `complete`, in their order.
unfoldable pub stage_secrets : Journal → Text → Text → Act (Unit {0})
unfolding add_slot add_token write_journal
stage_secrets j bundle feed_token = do
  add_slot j.credential_slot bundle
  add_token j.transaction_id (feed_token ++ codes "\n")
  change_held (λ h. j)
  write_journal

-- What `complete` removes again, and the error that it ends with.
unfoldable pub unstage : Journal → SetupError → Act (Unit {0})
unfolding drop_token drop_slot
unstage j e = do
  token_failed ← attempt (drop_token j.transaction_id)
  slot_failed ← attempt (drop_slot j.credential_slot)
  demand (not (token_failed || slot_failed)) staging_not_undone
  fail e

-- `except BaseException as exc: …`
abbrev pub or_else : Result SetupError (Unit {0}) → (SetupError → Act (Unit {0})) → Act (Unit {0})
or_else (ok _) handler = give tt
or_else (err e) handler = handler e

unfoldable pub guarded : Act (Unit {0}) → (SetupError → Act (Unit {0})) → Act (Unit {0})
guarded m handler s = or_else (m s).0 handler (m s).1

abbrev pub is_none : Option Journal → Bool
is_none none = true
is_none (some _) = false

-- The digest is SHA-256.
module _ (default_path token_digest : Text → Text) where
  -- The journal of a new transaction, with the identity and the tokens that are drawn.
  abbrev pub staged_journal : SafeProvisioning → Text → Text → Journal
  staged_journal provisioning transaction_id created_at = record {
    transaction_id = transaction_id;
    phase = staged;
    created_at = created_at;
    expires_at = provisioning.expires_at;
    bridge_url = provisioning.bridge_url;
    device_id = provisioning.device_id;
    feed_token_sha256 = token_digest provisioning.feed_token;
    credential_slot = slot_of transaction_id;
    permission_verified = false;
    credential_switch_started = false;
    previous_credential_slot = none;
    service = none;
  }

  -- `complete`, with the encoded bundle of the credentials.
  unfoldable pub stage : SafeProvisioning → Text → Text → Text → Act (Unit {0})
  unfolding stage_secrets unstage
  stage provisioning transaction_id created_at bundle = do
    let j = staged_journal provisioning transaction_id created_at
    disk ← look
    demand (is_none disk.journal) already_pending
    guarded (stage_secrets j bundle provisioning.feed_token) (unstage j)

  abbrev pub is_inactive : Phase → Bool
  is_inactive staged = true
  is_inactive claimed = true
  is_inactive checking = true
  is_inactive _ = false

  -- `journal.phase = "claimed"`
  unfoldable pub arm : Phase → Journal → Act (Unit {0})
  unfolding write_journal
  arm staged j = do change_held (λ h. record j { phase = claimed }); write_journal
  arm _ j = give tt

  unfoldable pub claim_journal : Text → Text → ℕ → Option Journal → Act (Unit {0})
  unfolding rollback_journal arm
  claim_journal device_id token now none = fail unavailable
  claim_journal device_id token now (some j) =
      if not (is_inactive j.phase)
      then fail unavailable
      else if leb j.expires_at now
      then rollback_journal default_path token_digest j >> fail unavailable
      else if not (device_id == j.device_id && token_digest token == j.feed_token_sha256)
      then fail unavailable
      else arm j.phase j

  -- `claim_pending`
  unfoldable pub claim_pending : Text → Text → ℕ → Act (Unit {0})
  unfolding claim_journal
  claim_pending device_id token now = do disk ← look; claim_journal device_id token now disk.journal

  -- The safe data of the transaction, with its staged token.
  unfoldable pub recalled : Journal → Act (Option SafeProvisioning)
  unfolding read_staged_token
  recalled j = do
    token ← read_staged_token token_digest j
    give (
        some (record {
          bridge_url = j.bridge_url;
          device_id = j.device_id;
          feed_token = token;
          expires_at = j.expires_at;
        }))

  unfoldable pub recall : ℕ → Option Journal → Act (Option SafeProvisioning)
  unfolding rollback_journal recalled
  recall now none = give none
  recall now (some j) =
      if not (is_inactive j.phase)
      then give none
      else if leb j.expires_at now
      then rollback_journal default_path token_digest j >> give none
      else recalled j

  -- `pending_provisioning`
  unfoldable pub pending_provisioning : ℕ → Act (Option SafeProvisioning)
  unfolding recall
  pending_provisioning now = do disk ← look; recall now disk.journal
