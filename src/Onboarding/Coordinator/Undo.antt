-- ===== src/Onboarding/Coordinator/Undo.antt =====
-- The rollback and the recovery of a setup transaction, onboarding.py.
use coinbase_amoled_terminal.Prelude.{
  ℕ, Bool, true, false, not, ◌&&◌, ◌||◌, Option, none, some, List, [], ◌∷◌, ◌==◌, ltb, leb,
  if◌then◌else◌, length, Result, ok, err, list_eq, nat_eq, option_eq,
}
use coinbase_amoled_terminal.Prelude.Text.{Text, codes}
use coinbase_amoled_terminal.Prelude.Slices.{strip_prefix}
use coinbase_amoled_terminal.Prelude.Dict.{lookup, erase, keys}
use coinbase_amoled_terminal.Credentials.Slots.{active_slot, compare_and_swap, remove_slot}
use coinbase_amoled_terminal.Devices.Manager.{Device}
use coinbase_amoled_terminal.Onboarding.Coordinator.Act.{
  Phase, Service, staged, claimed, checking, complete, Journal, Disk, raised, credentials_error,
  device_changed, rollback_refused, still_active, rollback_incomplete, Act, give, fail, ◌>>=◌, ◌>>◌,
  look, change, change_held, demand, may_raise, attempt, write_journal, unlink_journal, holds_token,
}

-- A call of the credential directory, on the disk.
abbrev pub lift_result : {A : Type 0} {E : Type 0} → Result E A → Act A
lift_result (ok a) = give a
lift_result (err _) = fail credentials_error

-- `active_local_credential_slot`
unfoldable pub read_active : Act (Option Text)
read_active = do may_raise raised; disk ← look; lift_result (active_slot disk.secrets)

-- `compare_and_swap_local_credential_slot`
unfoldable pub swap_slot : Option Text → Option Text → Act Bool
swap_slot expected replacement = do
  may_raise raised
  disk ← look
  change (λ d. record d { secrets = (compare_and_swap expected replacement disk.secrets).1 })
  lift_result (compare_and_swap expected replacement disk.secrets).0

-- `remove_local_credential_slot`
unfoldable pub drop_slot : Text → Act (Unit {0})
drop_slot slot = do
  may_raise raised
  disk ← look
  change (λ d. record d { secrets = (remove_slot slot disk.secrets).1 })
  lift_result (remove_slot slot disk.secrets).0

-- `token_path.unlink(missing_ok=True)` of a staged token.
unfoldable pub drop_token : Text → Act (Unit {0})
drop_token transaction_id = do
  may_raise raised
  change (λ d. record d { tokens = erase transaction_id d.tokens })

abbrev devices_without : Text → Disk → Disk
devices_without device_id d = record d {
  world = record d.world { devices = erase device_id d.world.devices };
}

abbrev files_without : Text → Disk → Disk
files_without path d = record d { world = record d.world { files = erase path d.world.files } }

-- What the mutator of `_remove_scoped_device` finds in the device table.
pub data Claim : Type 0 where
  unlisted foreign owned : Claim

unfoldable pub claim_of : Journal → Option Device → Claim
claim_of j none = unlisted
claim_of j (some device) = if device.token_sha256 == j.feed_token_sha256 then owned else foreign

-- What `store.update` leaves, and whether the table has another device of this identity.
unfoldable pub remove_record : Journal → Claim → Act (Unit {0})
remove_record j owned = do may_raise raised; change (devices_without j.device_id)
remove_record j unlisted = may_raise raised
remove_record j foreign = may_raise raised >> fail rollback_refused

abbrev pub is_complete : Phase → Bool
is_complete complete = true
is_complete _ = false

-- The paths of the state, and the digest, which is SHA-256.
module _ (default_path token_digest : Text → Text) where
  -- The token file of the device, which is removed if it holds the token of the journal.
  unfoldable pub remove_file : Journal → Option Text → Act (Unit {0})
  remove_file j none = give tt
  remove_file j (some content) = do
    demand (not (ltb 128 (length content))) device_changed
    demand (holds_token token_digest j content) device_changed
    may_raise raised
    change (files_without (default_path j.device_id))

  unfoldable pub remove_listed : Journal → Bool → Act (Unit {0})
  unfolding claim_of remove_record
  remove_listed j false = give tt
  remove_listed j true = do
    disk ← look
    remove_record j (claim_of j (lookup j.device_id disk.world.devices))

  -- `_remove_scoped_device`
  unfoldable pub remove_scoped_device : Journal → Act (Unit {0})
  unfolding remove_listed remove_file
  remove_scoped_device j = do
    disk ← look
    remove_listed j disk.configured
    disk ← look
    remove_file j (lookup (default_path j.device_id) disk.world.files)

  unfoldable pub swap_owned : Journal → Act (Unit {0})
  unfolding swap_slot
  swap_owned j = do
    swapped ← swap_slot (some j.credential_slot) j.previous_credential_slot
    demand swapped rollback_refused

  -- The selector, once the switch has started.
  unfoldable pub swap_back : Journal → Option Text → Act (Unit {0})
  unfolding swap_owned
  swap_back j current =
      if current == j.previous_credential_slot
      then give tt
      else if not (current == some j.credential_slot)
      then fail rollback_refused
      else swap_owned j

  -- `_restore_credential_selector`
  unfoldable pub restore_selector : Journal → Act (Unit {0})
  unfolding read_active swap_back
  restore_selector j =
      if not j.credential_switch_started
      then give tt
      else do current ← read_active; swap_back j current

  -- `_restore_service`: the service manager restores its state or does not.
  unfoldable pub restore_service : Option Service → Act (Unit {0})
  restore_service none = give tt
  restore_service (some service) = may_raise raised

  -- The staged bundle of a transaction that is not active.
  unfoldable pub remove_inactive : Journal → Act (Unit {0})
  unfolding read_active drop_slot
  remove_inactive j = do
    active ← read_active
    demand (not (active == some j.credential_slot)) still_active
    drop_slot j.credential_slot

  -- `_rollback_journal_locked`: each part is tried, and the journal is kept if one of them raises.
  unfoldable pub rollback_journal : Journal → Act (Unit {0})
  unfolding remove_scoped_device restore_selector restore_service drop_token remove_inactive
      unlink_journal
  rollback_journal j = do
    device_failed ← attempt (remove_scoped_device j)
    selector_failed ← attempt (restore_selector j)
    service_failed ← attempt (restore_service j.service)
    token_failed ← attempt (drop_token j.transaction_id)
    slot_failed ← attempt (remove_inactive j)
    demand
        (not
          (device_failed || (selector_failed || (service_failed || (token_failed || slot_failed)))))
        rollback_incomplete
    unlink_journal

  -- The slot that was active before, if it is not active again.
  unfoldable pub drop_previous : Option Text → Act (Unit {0})
  unfolding read_active drop_slot
  drop_previous none = give tt
  drop_previous (some previous) = do
    active ← read_active
    if active == some previous then give tt else drop_slot previous

  -- `_cleanup_complete_locked`
  unfoldable pub cleanup_complete : Journal → Act (Unit {0})
  unfolding drop_token drop_previous unlink_journal
  cleanup_complete j = do
    drop_token j.transaction_id
    drop_previous j.previous_credential_slot
    unlink_journal

  -- `path.name` of an orphan: `onboarding_txn_*.bundle`, not active and not of the journal.
  abbrev is_onboarding_slot : Text → Bool
  is_onboarding_slot slot = elim (strip_prefix (codes "onboarding_txn_") slot) [
    | none ↦ false
    | some _ ↦ true
  ]

  abbrev is_orphan : Option Text → Option Journal → Text → Bool
  is_orphan active none slot = is_onboarding_slot slot && not (active == some slot)
  is_orphan active (some j) slot =
      is_onboarding_slot slot && (not (active == some slot) && not (slot == j.credential_slot))

  unfoldable pub drop_orphan : Option Text → Option Journal → Text → Act (Unit {0})
  unfolding drop_slot
  drop_orphan active current slot =
      if is_orphan active current slot then drop_slot slot else give tt

  unfoldable pub drop_orphans : Option Text → Option Journal → List Text → Act (Unit {0})
  unfolding drop_orphan
  drop_orphans active current [] = give tt
  drop_orphans active current (slot ∷ slots) = do
    drop_orphan active current slot
    drop_orphans active current slots

  abbrev is_other : Option Journal → Text → Bool
  is_other none transaction_id = true
  is_other (some j) transaction_id = not (transaction_id == j.transaction_id)

  unfoldable pub drop_other : Option Journal → Text → Act (Unit {0})
  unfolding drop_token
  drop_other current transaction_id =
      if is_other current transaction_id then drop_token transaction_id else give tt

  unfoldable pub drop_other_tokens : Option Journal → List Text → Act (Unit {0})
  unfolding drop_other
  drop_other_tokens current [] = give tt
  drop_other_tokens current (transaction_id ∷ ids) = do
    drop_other current transaction_id
    drop_other_tokens current ids

  -- `_cleanup_orphans_locked`
  unfoldable pub cleanup_orphans : Act (Unit {0})
  unfolding read_active drop_orphans drop_other_tokens
  cleanup_orphans = do
    active ← read_active
    disk ← look
    drop_other_tokens disk.journal (keys disk.tokens)
    drop_orphans active disk.journal (keys disk.secrets.slots)

  -- What the phase asks of a recovery before the deadline.
  unfoldable pub resume : Phase → Journal → Act (Unit {0})
  unfolding write_journal rollback_journal
  resume staged j = give tt
  resume claimed j = give tt
  resume checking j = do change_held (λ h. record j { phase = claimed }); write_journal
  resume _ j = rollback_journal j

  unfoldable pub recover_journal : ℕ → Option Journal → Act (Unit {0})
  unfolding cleanup_complete rollback_journal resume
  recover_journal now none = give tt
  recover_journal now (some j) =
      if is_complete j.phase
      then cleanup_complete j
      else if leb j.expires_at now
      then rollback_journal j
      else resume j.phase j

  -- `_recover_locked`, at the start of a coordinator.
  unfoldable pub recover : ℕ → Act (Unit {0})
  unfolding recover_journal cleanup_orphans
  recover now = do disk ← look; recover_journal now disk.journal; cleanup_orphans

  -- `rollback_pending`
  unfoldable pub rollback_found : Option Journal → Act (Unit {0})
  unfolding cleanup_complete rollback_journal
  rollback_found none = give tt
  rollback_found (some j) = if is_complete j.phase then cleanup_complete j else rollback_journal j

  unfoldable pub rollback_pending : Act (Unit {0})
  unfolding rollback_found
  rollback_pending = do disk ← look; rollback_found disk.journal
