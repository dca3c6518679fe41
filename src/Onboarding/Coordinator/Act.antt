-- ===== src/Onboarding/Coordinator/Act.antt =====
-- The state of the coordinator of onboarding.py, and steps on it that may raise.
use coinbase_amoled_terminal.Prelude.{
  ℕ, Bool, true, false, not, ◌&&◌, ◌||◌, Option, none, some, List, [], ◌∷◌, ◌==◌, ltb, eqb, length,
  Result, ok, err, list_eq, nat_eq,
}
use coinbase_amoled_terminal.Prelude.Text.{Text, strip}
use coinbase_amoled_terminal.Prelude.Dict.{Dict, lookup}
use coinbase_amoled_terminal.Credentials.Slots.{Secrets}
use coinbase_amoled_terminal.Devices.Manager.{World, is_device_token}

pub data Phase : Type 0 where
  staged claimed checking applying credentials_active device_added : Phase
  service_starting service_started complete : Phase

-- `ServiceStartResult`
pub record Service : Type 0 where
  pub status : Text
  pub manager : Text
  pub was_active : Bool
  pub loaded_by_quickstart : Bool
  pub was_enabled : Bool

-- `_OnboardingJournal`
pub record Journal : Type 0 where
  pub transaction_id : Text
  pub phase : Phase
  pub created_at : Text
  pub expires_at : ℕ
  pub bridge_url : Text
  pub device_id : Text
  pub feed_token_sha256 : Text
  pub credential_slot : Text
  pub permission_verified : Bool
  pub credential_switch_started : Bool
  pub previous_credential_slot : Option Text
  pub service : Option Service

-- The data directory: the journal, the staged tokens by transaction, the credentials, the devices with
-- their token files, and whether a configuration is there. `passes` is kept by the model alone: the
-- slots whose credentials a permission check has accepted.
pub record Disk : Type 0 where
  pub journal : Option Journal
  pub tokens : Dict Text Text
  pub secrets : Secrets
  pub world : World
  pub configured : Bool
  pub passes : List Text

-- `held` is the journal object of the running call. `luck` says of the next steps that can raise, in
-- their order, whether they do; after its end no step raises.
pub record Site : Type 0 where
  pub disk : Disk
  pub held : Journal
  pub luck : List Bool

pub data SetupError : Type 0 where
  raised killed aborted unavailable already_pending no_claimed changed : SetupError
  token_unavailable token_invalid check_refused unreachable credentials_error credentials_changed :
      SetupError
  device_error provisioning_failed not_started not_ready device_changed : SetupError
  rollback_refused still_active rollback_incomplete staging_not_undone : SetupError

abbrev pub Act : Type 0 → Type 0
Act A = Site → Result SetupError A × Site

abbrev pub give : {A : Type 0} → A → Act A
give a s = (ok a, s)

abbrev pub fail : {A : Type 0} → SetupError → Act A
fail e s = (err e, s)

-- The rest of an action, after its first result.
abbrev pub continue : {A B : Type 0} → (A → Act B) → Result SetupError A → Act B
continue next (ok a) s = next a s
continue next (err e) s = (err e, s)

infixl 5 ◌>>=◌ ◌>>◌
unfoldable pub ◌>>=◌ : {A B : Type 0} → Act A → (A → Act B) → Act B
(m >>= next) s = continue next (m s).0 (m s).1

abbrev pub ◌>>◌ : {B : Type 0} → Act (Unit {0}) → Act B → Act B
m >> next = m >>= λ _. next

abbrev pub look : Act Disk
look s = (ok s.disk, s)

abbrev pub look_held : Act Journal
look_held s = (ok s.held, s)

abbrev pub change : (Disk → Disk) → Act (Unit {0})
change f s = (ok tt, record s { disk = f s.disk })

abbrev pub change_held : (Journal → Journal) → Act (Unit {0})
change_held f s = (ok tt, record s { held = f s.held })

unfoldable pub demand : Bool → SetupError → Act (Unit {0})
demand true e = give tt
demand false e = fail e

-- A step that raises if the next of `luck` says so.
abbrev pub draw : SetupError → List Bool → Act (Unit {0})
draw e [] s = (ok tt, s)
draw e (true ∷ luck) s = (err e, record s { luck = luck })
draw e (false ∷ luck) s = (ok tt, record s { luck = luck })

unfoldable pub may_raise : SetupError → Act (Unit {0})
may_raise e s = draw e s.luck s

-- `try: … except: errors.append(…)`: whether the action raised.
abbrev pub raised_by : Result SetupError (Unit {0}) → Bool
raised_by (ok _) = false
raised_by (err _) = true

unfoldable pub attempt : Act (Unit {0}) → Act Bool
attempt m s = (ok (raised_by (m s).0), (m s).1)

-- `_write_journal(journal)`: the file is replaced in one rename.
unfoldable pub write_journal : Act (Unit {0})
write_journal = do
  may_raise raised
  held ← look_held
  change (λ d. record d { journal = some held })

-- `_unlink_journal`
unfoldable pub unlink_journal : Act (Unit {0})
unlink_journal = do may_raise raised; change (λ d. record d { journal = none })

abbrev pub found_or : SetupError → Option Text → Act Text
found_or e none = fail e
found_or e (some content) = give content

-- The digest is SHA-256.
module _ (token_digest : Text → Text) where
  -- A token file holds a token with the digest of the journal.
  abbrev pub holds_token : Journal → Text → Bool
  holds_token j content =
      is_device_token (strip content) && token_digest (strip content) == j.feed_token_sha256

  -- `_read_staged_token`
  unfoldable pub read_staged_token : Journal → Act Text
  read_staged_token j = do
    disk ← look
    content ← found_or token_unavailable (lookup j.transaction_id disk.tokens)
    demand (not (eqb (length content) 0 || ltb 128 (length content))) token_unavailable
    demand (holds_token j content) token_invalid
    give (strip content)
