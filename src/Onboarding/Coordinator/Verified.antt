-- ===== src/Onboarding/Coordinator/Verified.antt =====
-- That the steps of `_finish_locked` of onboarding.py activate the credentials only after the
-- permission check.
use coinbase_amoled_terminal.Prelude.{
  list_eq, nat_eq, arith, contains, ℕ, ◌≡◌, refl, sym, ◌∙◌, ap, true, Option, none, some, List, [],
  ◌∷◌,
}
use coinbase_amoled_terminal.Prelude.Text.{Text}
use coinbase_amoled_terminal.Credentials.Slots.{compare_and_swap}
use coinbase_amoled_terminal.Credentials.Selector.{IsSelectable, swap-IsSelectable}
use coinbase_amoled_terminal.Onboarding.Coordinator.Act.{
  Phase, applying, credentials_active, service_starting, service_started, Service, Journal, Disk,
  raised, aborted, ◌>>=◌, ◌>>◌, look_held, change_held, demand, may_raise, write_journal,
  unreachable, credentials_changed, not_started, not_ready,
}
use coinbase_amoled_terminal.Onboarding.Coordinator.Undo.{read_active, swap_slot}
use coinbase_amoled_terminal.Onboarding.Coordinator.Finish.{
  note_pass, Round, passed, refused, no_answer, Plan, set_phase, check_rounds, activate,
  record_baseline, start_service,
}
use coinbase_amoled_terminal.Onboarding.Coordinator.Runs.{
  Statement, Runs, Keeps, bind-Runs, bind-Keeps, may_raise-Keeps, demand-Keeps, weaker-Runs,
}
use coinbase_amoled_terminal.Onboarding.Coordinator.Gated.{
  IsGated, Gated, IsScoped, read_active-Keeps, lift_result-Keeps,
}

-- The selector can be read, and the check has passed, in the object and on the disk.
pub record IsVerified (d : Disk) (h : Journal) : Type 0 where
  pub selectable : IsSelectable d.secrets
  pub held : h.permission_verified ≡ true
  pub written : (j : Journal) → d.journal ≡ some j → j.permission_verified ≡ true
  pub checked : contains d.passes h.credential_slot ≡ true
  pub written_checked :
      (j : Journal) → d.journal ≡ some j → contains d.passes j.credential_slot ≡ true

pub IsVerified-IsScoped : IsScoped IsVerified
IsVerified-IsScoped = record {
  readable = λ d h v. v.selectable;
  elsewhere = λ d d' h same_journal same_secrets same_passes v. record {
    selectable = rw same_secrets v.selectable;
    held = v.held;
    written = λ j at. v.written j (sym same_journal ∙ at);
    checked = rw same_passes v.checked;
    written_checked = λ j at. rw same_passes (v.written_checked j (sym same_journal ∙ at));
  };
  same_slot = λ d h s v selectable same. record {
    selectable = selectable;
    held = v.held;
    written = v.written;
    checked = v.checked;
    written_checked = v.written_checked;
  };
  unlinked = λ d h v. record {
    selectable = v.selectable;
    held = v.held;
    written = λ j at. cc;
    checked = v.checked;
    written_checked = λ j at. cc;
  };
}

pub IsGated-of_verified : (d : Disk) (h : Journal) → IsVerified d h → IsGated d
IsGated-of_verified d h v = record {
  selectable = v.selectable;
  verified = λ j at on. v.written j at;
  honest = λ j at on. v.written_checked j at;
}

pub some-injective : (j i : Journal) → ◌≡◌ {A = Option Journal} (some j) (some i) → i ≡ j
some-injective j i h = cc

-- The object in the place of the file.
pub write-Runs :
    (P Q : Statement)
    → ((d : Disk) (h : Journal) → P d h → Q (record d { journal = some h }) h)
    → Runs P write_journal Q P
unfolding write_journal ◌>>=◌
write-Runs P Q f =
    bind-Runs P P Q P (may_raise raised) _ (may_raise-Keeps P raised) (λ _ s p. f s.disk s.held p)

-- A change of the object, and the object in the place of the file.
pub rewrite-Runs :
    (P Q : Statement) (f : Journal → Journal)
    → ((d : Disk) (h : Journal) → P d h → P d (f h))
    → ((d : Disk) (h : Journal) → P d h → Q (record d { journal = some h }) h)
    → Runs P (change_held f >> write_journal) Q P
rewrite-Runs P Q f kept written =
    bind-Runs P P Q P (change_held f) _ (λ s p. kept s.disk s.held p) (λ _. write-Runs P Q written)

IsVerified-written :
    (d : Disk) (h : Journal) → IsVerified d h → IsVerified (record d { journal = some h }) h
IsVerified-written d h v = record {
  selectable = v.selectable;
  held = v.held;
  written = λ j at. ap (λ (i : Journal). i.permission_verified) (some-injective h j at) ∙ v.held;
  checked = v.checked;
  written_checked =
      λ j at. rw (ap (λ (i : Journal). i.credential_slot) (some-injective h j at)) v.checked;
}

pub set_phase-Keeps : (phase : Phase) → Keeps IsVerified (set_phase phase)
unfolding set_phase
set_phase-Keeps phase =
    rewrite-Runs IsVerified IsVerified (λ h. record h { phase = phase })
      (λ d h v. record {
        selectable = v.selectable;
        held = v.held;
        written = v.written;
        checked = v.checked;
        written_checked = v.written_checked;
      })
      IsVerified-written

write-IsVerified : Keeps IsVerified write_journal
write-IsVerified = write-Runs IsVerified IsVerified IsVerified-written

swap-IsVerified :
    (expected replacement : Option Text) → Keeps IsVerified (swap_slot expected replacement)
unfolding swap_slot ◌>>=◌
swap-IsVerified expected replacement =
    bind-Keeps IsVerified (may_raise raised) _ (may_raise-Keeps IsVerified raised) (λ _ s v.
      lift_result-Keeps IsVerified IsVerified-IsScoped
        (compare_and_swap expected replacement s.disk.secrets).0 _
        (record {
          selectable = swap-IsSelectable expected replacement s.disk.secrets v.selectable;
          held = v.held;
          written = v.written;
          checked = v.checked;
          written_checked = v.written_checked;
        }))

hold-IsVerified :
    (f : Journal → Journal)
    → ((h : Journal) → (f h).permission_verified ≡ h.permission_verified)
    → ((h : Journal) → (f h).credential_slot ≡ h.credential_slot)
    → Keeps IsVerified (change_held f)
hold-IsVerified f same slot s v = record {
  selectable = v.selectable;
  held = same s.held ∙ v.held;
  written = v.written;
  checked = rw (slot s.held) v.checked;
  written_checked = v.written_checked;
}

pub activate-Keeps : Keeps IsVerified activate
unfolding activate
activate-Keeps =
    bind-Keeps IsVerified (may_raise aborted) _ (may_raise-Keeps IsVerified aborted) (λ _.
      bind-Keeps IsVerified (set_phase applying) _ (set_phase-Keeps applying) (λ _.
        bind-Keeps IsVerified read_active _ (read_active-Keeps IsVerified IsVerified-IsScoped)
          (λ previous.
            bind-Keeps IsVerified (change_held _) _ (hold-IsVerified _ (λ h. refl) (λ h. refl))
              (λ _. bind-Keeps IsVerified write_journal _ write-IsVerified (λ _.
                bind-Keeps IsVerified look_held _ (λ s v. v)
                  (λ held.
                    bind-Keeps IsVerified (swap_slot previous (some held.credential_slot)) _
                      (swap-IsVerified previous (some held.credential_slot))
                      (λ done.
                        bind-Keeps IsVerified (demand done credentials_changed) _
                          (demand-Keeps IsVerified done credentials_changed)
                          (λ _. set_phase-Keeps credentials_active))))))))

record_found : (baseline : Service) → Keeps IsVerified (record_baseline (some baseline))
unfolding record_baseline
record_found baseline =
    bind-Keeps IsVerified (change_held _) _ (hold-IsVerified _ (λ h. refl) (λ h. refl))
      (λ _. set_phase-Keeps service_starting)

record_baseline-Keeps : (o : Option Service) → Keeps IsVerified (record_baseline o)
unfolding record_baseline
record_baseline-Keeps none s v = v
record_baseline-Keeps (some baseline) s v = record_found baseline s v

pub start_service-Keeps : (plan : Plan) → Keeps IsVerified (start_service plan)
unfolding start_service
start_service-Keeps plan =
    bind-Keeps IsVerified (record_baseline plan.baseline) _ (record_baseline-Keeps plan.baseline)
      (λ _. bind-Keeps IsVerified (may_raise raised) _ (may_raise-Keeps IsVerified raised) (λ _.
        bind-Keeps IsVerified (change_held _) _ (hold-IsVerified _ (λ h. refl) (λ h. refl)) (λ _.
          bind-Keeps IsVerified write_journal _ write-IsVerified (λ _.
            bind-Keeps IsVerified (demand _ not_started) _ (demand-Keeps IsVerified _ not_started)
              (λ _.
                bind-Keeps IsVerified (set_phase service_started) _
                  (set_phase-Keeps service_started) (λ _. may_raise-Keeps IsVerified not_ready))))))

-- Gated, and a check has accepted the slot of the object.
abbrev Accepted : Statement
Accepted d h = IsGated d × (contains d.passes h.credential_slot ≡ true)

-- The object says so, too.
abbrev Passing : Statement
Passing d h = Accepted d h × (h.permission_verified ≡ true)

contains_later : (x y : Text) (l : List Text) → contains l x ≡ true → contains (y ∷ l) x ≡ true
contains_later x y l h = ground arith

contains_here : (x : Text) (l : List Text) → contains (x ∷ l) x ≡ true
contains_here x l = ground arith

note_pass-Runs : Runs Gated note_pass Accepted Gated
unfolding note_pass
note_pass-Runs s g = (
  record {
    selectable = g.selectable;
    verified = g.verified;
    honest = λ j at on.
        contains_later j.credential_slot s.held.credential_slot s.disk.passes (g.honest j at on);
  },
  contains_here s.held.credential_slot s.disk.passes,
)

Passing-written :
    (d : Disk) (h : Journal) → Passing d h → IsVerified (record d { journal = some h }) h
Passing-written d h ((g, at_slot), on) = record {
  selectable = g.selectable;
  held = on;
  written = λ j at. ap (λ (i : Journal). i.permission_verified) (some-injective h j at) ∙ on;
  checked = at_slot;
  written_checked =
      λ j at. rw (ap (λ (i : Journal). i.credential_slot) (some-injective h j at)) at_slot;
}

pass_round :
    (deadline : ℕ) (rounds : List Round)
    → Runs Gated (check_rounds deadline (passed ∷ rounds)) IsVerified Gated
unfolding check_rounds
pass_round deadline rounds =
    bind-Runs Gated Gated IsVerified Gated (may_raise aborted) _ (may_raise-Keeps Gated aborted)
      (λ _. bind-Runs Gated Accepted IsVerified Gated note_pass _ note_pass-Runs (λ _.
        bind-Runs Accepted Passing IsVerified Gated (change_held _) _ (λ s g. (g, refl))
          (λ _.
            weaker-Runs Passing IsVerified Passing IsVerified Gated write_journal
              (write-Runs Passing IsVerified Passing-written) (λ d h v. v) (λ d h ((g, _), _). g))))

refuse_round :
    (deadline : ℕ) (rounds : List Round)
    → Runs Gated (check_rounds deadline (refused ∷ rounds)) IsVerified Gated
unfolding check_rounds
refuse_round deadline rounds =
    bind-Runs Gated Gated IsVerified Gated (may_raise aborted) _ (may_raise-Keeps Gated aborted)
      (λ _ s g. g)

wait_round :
    (deadline now : ℕ) (rounds : List Round)
    → Runs Gated (check_rounds deadline rounds) IsVerified Gated
    → Runs Gated (check_rounds deadline (no_answer now ∷ rounds)) IsVerified Gated
unfolding check_rounds
wait_round deadline now rounds rest =
    bind-Runs Gated Gated IsVerified Gated (may_raise aborted) _ (may_raise-Keeps Gated aborted)
      (λ _.
        bind-Runs Gated Gated IsVerified Gated (demand _ unreachable) _
          (demand-Keeps Gated _ unreachable) (λ _. rest))

pub check_rounds-Runs :
    (deadline : ℕ) (rounds : List Round)
    → Runs Gated (check_rounds deadline rounds) IsVerified Gated
unfolding check_rounds
check_rounds-Runs deadline [] s g = g
check_rounds-Runs deadline (passed ∷ rounds) s g = pass_round deadline rounds s g
check_rounds-Runs deadline (refused ∷ rounds) s g = refuse_round deadline rounds s g
check_rounds-Runs deadline (no_answer now ∷ rounds) s g =
    wait_round deadline now rounds (check_rounds-Runs deadline rounds) s g
