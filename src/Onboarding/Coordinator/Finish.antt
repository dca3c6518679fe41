-- ===== src/Onboarding/Coordinator/Finish.antt =====
-- The activation of a claimed setup transaction, onboarding.py.
use coinbase_amoled_terminal.Prelude.{
  ℕ, Bool, true, false, not, ◌&&◌, ◌||◌, Option, none, some, List, [], ◌∷◌, ◌==◌, leb, ltb,
  if◌then◌else◌, length, Result, ok, err, list_eq, nat_eq, option_eq,
}
use coinbase_amoled_terminal.Prelude.Text.{Text, codes, strip}
use coinbase_amoled_terminal.Prelude.Dict.{lookup}
use coinbase_amoled_terminal.Devices.Manager.{Device, Faults, add, is_device_token}
use coinbase_amoled_terminal.Onboarding.Session.{SafeProvisioning}
use coinbase_amoled_terminal.Onboarding.Coordinator.Act.{
  Phase, claimed, checking, applying, credentials_active, device_added, service_starting,
  service_started, complete, Journal, Disk, Service, SetupError, raised, killed, aborted,
  no_claimed, changed, check_refused, unreachable, credentials_changed, device_error,
  provisioning_failed, not_started, not_ready, device_changed, rollback_incomplete, Act, give, fail,
  ◌>>=◌, ◌>>◌, look, look_held, change, change_held, demand, may_raise, attempt, write_journal,
  holds_token, read_staged_token,
}
use coinbase_amoled_terminal.Onboarding.Coordinator.Undo.{
  read_active, swap_slot, rollback_journal, cleanup_complete, is_complete,
}
use coinbase_amoled_terminal.Onboarding.Coordinator.Stage.{guarded}

-- One round of the permission check: what the checker does, and the time of the test of the deadline.
pub data Round : Type 0 where
  passed refused : Round
  no_answer : ℕ → Round

-- What the world does in a call: the rounds of the permission check, at whose end the process is
-- killed, and what the service manager says before and after the start.
pub record Plan : Type 0 where
  pub deadline : ℕ
  pub rounds : List Round
  pub baseline : Option Service
  pub service : Service
  pub faults : Faults
  pub is_protected : Text → Bool
  pub is_other_kind : Text → Bool
  pub now : Text

unfoldable pub set_phase : Phase → Act (Unit {0})
unfolding write_journal
set_phase phase = do change_held (λ h. record h { phase = phase }); write_journal

-- The checker has accepted the credentials of the slot of the transaction.
unfoldable pub note_pass : Act (Unit {0})
note_pass s =
    (ok tt, record s { disk = record s.disk { passes = s.held.credential_slot ∷ s.disk.passes } })

-- The loop of the permission check.
unfoldable pub check_rounds : ℕ → List Round → Act (Unit {0})
unfolding write_journal note_pass
check_rounds deadline [] = fail killed
check_rounds deadline (passed ∷ rounds) = do
  may_raise aborted
  note_pass
  change_held (λ h. record h { permission_verified = true })
  write_journal
check_rounds deadline (refused ∷ rounds) = may_raise aborted >> fail check_refused
check_rounds deadline (no_answer now ∷ rounds) = do
  may_raise aborted
  demand (not (leb deadline now)) unreachable
  check_rounds deadline rounds

-- `if not journal.permission_verified: …`
unfoldable pub check_unless : Bool → Plan → Act (Unit {0})
unfolding check_rounds
check_unless true plan = give tt
check_unless false plan = may_raise raised >> check_rounds plan.deadline plan.rounds

unfoldable pub check_permission : Plan → Act (Unit {0})
unfolding check_unless
check_permission plan = do held ← look_held; check_unless held.permission_verified plan

-- The switch of the credentials.
unfoldable pub activate : Act (Unit {0})
unfolding set_phase read_active swap_slot write_journal
activate = do
  may_raise aborted
  set_phase applying
  previous ← read_active
  change_held
      (λ h. record h { credential_switch_started = true; previous_credential_slot = previous })
  write_journal
  held ← look_held
  swapped ← swap_slot previous (some held.credential_slot)
  demand swapped credentials_changed
  set_phase credentials_active

-- `record_service_baseline`, which a service manager that is there calls.
unfoldable pub record_baseline : Option Service → Act (Unit {0})
unfolding set_phase
record_baseline none = give tt
record_baseline (some baseline) = do
  change_held (λ h. record h { service = some baseline })
  set_phase service_starting

-- The service, its start, and the readiness of the bridge.
unfoldable pub start_service : Plan → Act (Unit {0})
unfolding set_phase record_baseline write_journal
start_service plan = do
  record_baseline plan.baseline
  may_raise raised
  change_held (λ h. record h { service = some plan.service })
  write_journal
  demand (plan.service.status == codes "started") not_started
  set_phase service_started
  may_raise not_ready

-- The paths of the state, and the digest, which is SHA-256.
module _ (default_path token_digest : Text → Text) where
  abbrev pub lift_device : {E : Type 0} → Result E Text → Act (Unit {0})
  lift_device (ok _) = give tt
  lift_device (err _) = fail device_error

  -- `canonical_token == staged_token`
  abbrev pub is_token_file : Text → Option Text → Bool
  is_token_file token none = false
  is_token_file token (some content) = is_device_token (strip content) && strip content == token

  -- `DeviceManager(self.store).add(…)` on the table and the files, and the check of the token file.
  unfoldable pub add_held : Plan → Text → Journal → Disk → Act (Unit {0})
  add_held plan token held disk =
      let (answer, world) =
        add plan.is_protected plan.is_other_kind default_path token_digest held.device_id
          (codes "USB-onboarded AMOLED terminal") none token plan.now plan.faults disk.world in
      do
        change (λ d. record d { world = world })
        lift_device answer
        demand (is_token_file token (lookup (default_path held.device_id) world.files))
            provisioning_failed

  -- The device table and the token file get the device of the transaction.
  unfoldable pub add_device : Plan → Text → Act (Unit {0})
  unfolding add_held set_phase
  add_device plan token = do
    may_raise aborted
    may_raise raised
    change (λ d. record d { configured = true })
    may_raise raised
    held ← look_held
    disk ← look
    add_held plan token held disk
    set_phase device_added

  abbrev pub is_owned : Journal → Option Device → Bool
  is_owned j none = false
  is_owned j (some device) = device.enabled && device.token_sha256 == j.feed_token_sha256

  abbrev pub is_owned_file : Journal → Option Text → Bool
  is_owned_file j none = false
  is_owned_file j (some content) =
      not (ltb 128 (length content)) && holds_token token_digest j content

  unfoldable pub check_owned : Journal → Option Text → Act (Unit {0})
  check_owned held active = do
    demand (active == some held.credential_slot) credentials_changed
    may_raise raised
    disk ← look
    demand (is_owned held (lookup held.device_id disk.world.devices)) device_changed
    demand (is_owned_file held (lookup (default_path held.device_id) disk.world.files))
        device_changed

  -- `_verify_owned_state`
  unfoldable pub verify_owned_state : Act (Unit {0})
  unfolding read_active check_owned
  verify_owned_state = do held ← look_held; active ← read_active; check_owned held active

  unfoldable pub conclude : Act (Unit {0})
  unfolding verify_owned_state set_phase cleanup_complete
  conclude = do
    verify_owned_state
    may_raise aborted
    set_phase complete
    held ← look_held
    cleanup_complete default_path token_digest held

  -- `_finish_locked`
  unfoldable pub finish_locked : Plan → Text → Act (Unit {0})
  unfolding check_permission activate add_device start_service conclude
  finish_locked plan token = do
    may_raise aborted
    check_permission plan
    activate
    add_device plan token
    may_raise raised
    may_raise aborted
    start_service plan
    conclude

  abbrev latest : {A : Type 0} → Option A → Option A → Option A
  latest none old = old
  latest (some a) old = some a

  -- The journal of the disk with what the call knows and may not have written.
  abbrev pub merged : Journal → Journal → Journal
  merged held current = record current {
    service = latest held.service current.service;
    credential_switch_started = current.credential_switch_started || held.credential_switch_started;
    previous_credential_slot =
        if held.credential_switch_started
        then held.previous_credential_slot
        else current.previous_credential_slot;
  }

  unfoldable pub undo_as : SetupError → Journal → Act (Unit {0})
  unfolding rollback_journal
  undo_as e j = do
    rollback_failed ← attempt (rollback_journal default_path token_digest j)
    demand (not rollback_failed) rollback_incomplete
    fail e

  unfoldable pub undo_merged : SetupError → Journal → Act (Unit {0})
  unfolding undo_as
  undo_merged e current = do held ← look_held; undo_as e (merged held current)

  unfoldable pub undo_current : SetupError → Option Journal → Act (Unit {0})
  unfolding undo_merged
  undo_current e none = fail e
  undo_current e (some current) =
      if is_complete current.phase then fail e else undo_merged e current

  abbrev pub is_killed : SetupError → Bool
  is_killed killed = true
  is_killed _ = false

  -- The rollback of a finish that raised. A killed process does nothing.
  unfoldable pub undo_finish : SetupError → Act (Unit {0})
  unfolding undo_current
  undo_finish e = if is_killed e then fail e else do disk ← look; undo_current e disk.journal

  abbrev is_claimed : Phase → Bool
  is_claimed claimed = true
  is_claimed checking = true
  is_claimed _ = false

  unfoldable pub finish_journal : SafeProvisioning → Plan → Option Journal → Act (Unit {0})
  unfolding set_phase read_staged_token finish_locked undo_finish
  finish_journal provisioning plan none = fail no_claimed
  finish_journal provisioning plan (some j) = do
    demand (is_claimed j.phase) no_claimed
    demand
        (j.bridge_url == provisioning.bridge_url
          && (j.device_id == provisioning.device_id
              && j.feed_token_sha256 == token_digest provisioning.feed_token))
        changed
    token ← read_staged_token token_digest j
    change_held (λ h. j)
    set_phase checking
    guarded (finish_locked plan token) undo_finish

  -- `finish_pending`
  unfoldable pub finish_pending : SafeProvisioning → Plan → Act (Unit {0})
  unfolding finish_journal
  finish_pending provisioning plan = do
    may_raise aborted
    disk ← look
    finish_journal provisioning plan disk.journal
