-- ===== src/Tests/Transactions.antt =====
-- A setup transaction at concrete inputs, with a digest that reverses the token.
use coinbase_amoled_terminal.Onboarding.Coordinator.Undo.{recover}
use coinbase_amoled_terminal.Prelude.Dict.{erase}
use coinbase_amoled_terminal.Credentials.Slots.{remove_slot}
use coinbase_amoled_terminal.Devices.Manager.{add}
use coinbase_amoled_terminal.Credentials.Slots.{compare_and_swap}
use coinbase_amoled_terminal.Credentials.Slots.{active_slot}
use coinbase_amoled_terminal.Prelude.Text.{strip}
use coinbase_amoled_terminal.Devices.Manager.{is_device_token}
use coinbase_amoled_terminal.Prelude.Dict.{insert}
use coinbase_amoled_terminal.Prelude.Dict.{lookup}
use coinbase_amoled_terminal.Prelude.Slices.{strip_suffix}
use coinbase_amoled_terminal.Prelude.Slices.{strip_prefix}
use coinbase_amoled_terminal.Credentials.Slots.{is_slot_name}
use coinbase_amoled_terminal.Credentials.Slots.{stage_slot}
use coinbase_amoled_terminal.Onboarding.Coordinator.Stage.{stage}
use coinbase_amoled_terminal.Onboarding.Coordinator.Stage.{claim_pending}
use coinbase_amoled_terminal.Onboarding.Coordinator.Finish.{finish_pending}
use mathlib.Core.List.{reverse}
use coinbase_amoled_terminal.Prelude.{
  ◌≡◌, refl, true, false, none, some, List, Bool, [], ◌∷◌, ◌++◌, replicate, list_eq, nat_eq,
  ℕ_discrete, option_eq,
}
use coinbase_amoled_terminal.Prelude.Text.{Text, codes}
use coinbase_amoled_terminal.Onboarding.Session.{SafeProvisioning}
use coinbase_amoled_terminal.Onboarding.Coordinator.Act.{
  ◌>>=◌, demand, may_raise, attempt, Journal, Disk, Site, Service, staged,
}
use coinbase_amoled_terminal.Onboarding.Coordinator.Stage.{slot_of, guarded}
use coinbase_amoled_terminal.Onboarding.Coordinator.Finish.{Plan, passed, refused, no_answer}
use coinbase_amoled_terminal.Onboarding.Coordinator.Gated.{IsGated}
use coinbase_amoled_terminal.Onboarding.Coordinator.Calls.{
  Call, staging, claiming, finishing, restarting, after_all, after_all-Gated,
}

abbrev token : Text
token = codes "cbat_" ++ replicate 43 b'A'

abbrev device : Text
device = codes "display-0001"

abbrev provisioning : SafeProvisioning
provisioning = record {
  bridge_url = codes "u";
  device_id = device;
  feed_token = token;
  expires_at = 1000;
}

abbrev empty_disk : Disk
empty_disk = record {
  journal = none;
  tokens = [];
  secrets = record { selector = none; slots = []; bundle = none };
  world = record { devices = []; files = [] };
  configured = false;
  passes = [];
}

abbrev blank : Journal
blank = record {
  transaction_id = [];
  phase = staged;
  created_at = [];
  expires_at = 0;
  bridge_url = [];
  device_id = [];
  feed_token_sha256 = [];
  credential_slot = [];
  permission_verified = false;
  credential_switch_started = false;
  previous_credential_slot = none;
  service = none;
}

abbrev site : Site
site = record { disk = empty_disk; held = blank; luck = [] }

abbrev started : Service
started = record {
  status = codes "started";
  manager = codes "systemd";
  was_active = false;
  loaded_by_quickstart = false;
  was_enabled = false;
}

abbrev plan : Plan
plan = record {
  deadline = 100;
  rounds = no_answer 10 ∷ passed ∷ [];
  baseline = some started;
  service = started;
  faults = record {
    update = false;
    write = false;
    unlink = false;
    rollback = false;
    restore = false;
  };
  is_protected = λ path. false;
  is_other_kind = λ path. false;
  now = codes "now";
}

abbrev id : Text
id = codes "txn_" ++ replicate 24 b'a'

abbrev begun : List (Call × List Bool)
begun =
    (staging provisioning id (codes "now") (codes "bundle"), [])
    ∷ (claiming device token 5, [])
    ∷ []

-- The first activation is refused; the second transaction passes.
abbrev calls : List (Call × List Bool)
calls =
    begun
    ++ ((finishing provisioning (record plan { rounds = refused ∷ [] }), [])
        ∷ (restarting 6, [])
        ∷ [])
    ++ begun
    ++ ((finishing provisioning plan, []) ∷ [])

abbrev path : Text → Text
path d = d

after_all-Gated_example : IsGated (after_all path reverse calls site).disk
after_all-Gated_example = after_all-Gated path reverse calls site (record {
  selectable = record { named = λ c e. cc; line = λ c e. cc; there = λ c e. cc };
  verified = λ j e. cc;
  honest = λ j e. cc;
})

-- The accepted transaction is active, and its journal is gone.
activated :
    ((after_all path reverse calls site).disk.secrets.selector ≡ some (slot_of id ++ codes "\n"))
    × ((after_all path reverse calls site).disk.journal ≡ none)
unfolding after_all ◌>>=◌ demand may_raise attempt guarded list_eq nat_eq ℕ_discrete option_eq
    finish_pending recover claim_pending stage stage_slot is_slot_name strip_prefix strip_suffix
    lookup insert is_device_token strip active_slot compare_and_swap add remove_slot erase
activated = (refl, refl)

-- A service that does not come up: all is as before.
rolled_back :
    (after_all path reverse
      (begun
        ++ ((
          finishing provisioning
              (record plan { service = record started { status = codes "failed" } }),
          [],
        )
            ∷ []))
      site).disk
    ≡ record empty_disk { configured = true; passes = slot_of id ∷ [] }
unfolding after_all ◌>>=◌ demand may_raise attempt guarded list_eq nat_eq ℕ_discrete option_eq
    finish_pending claim_pending stage stage_slot is_slot_name strip_prefix strip_suffix lookup
    insert is_device_token strip active_slot compare_and_swap add remove_slot erase
rolled_back = refl

-- The process is killed in the check, and the claim is good after the restart.
killed_and_resumed :
    (after_all path reverse
      (begun
        ++ ((finishing provisioning (record plan { rounds = [] }), [])
            ∷ (restarting 6, [])
            ∷ (finishing provisioning plan, [])
            ∷ []))
      site).disk.secrets.selector
    ≡ some (slot_of id ++ codes "\n")
unfolding after_all ◌>>=◌ demand may_raise attempt guarded list_eq nat_eq ℕ_discrete option_eq
    finish_pending recover claim_pending stage stage_slot is_slot_name strip_prefix strip_suffix
    lookup insert is_device_token strip active_slot compare_and_swap add
killed_and_resumed = refl
