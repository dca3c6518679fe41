-- ===== src/Onboarding/Coordinator/Gated.antt =====
-- That the credentials of a setup transaction are active only after the permission check: what the
-- single steps of the coordinator of onboarding.py keep.
use coinbase_amoled_terminal.Prelude.{
  contains, ◌≡◌, ◌⊎◌, refl, sym, ◌∙◌, ap, Bool, true, false, not, ◌==◌, Option, none, some,
  if◌then◌else◌, Result, ok, err, Bool-cases, inl, inr, arith, list_eq, nat_eq, option_eq,
}
use coinbase_amoled_terminal.Prelude.Text.{Text}
use coinbase_amoled_terminal.Prelude.Dict.{lookup, erase}
use coinbase_amoled_terminal.Credentials.Slots.{
  Secrets, active_slot, compare_and_swap, remove_slot, stage_slot,
}
use coinbase_amoled_terminal.Credentials.Selector.{
  IsSelectable, selected, active_slot-eq-selected, selector-eq-selected, swap-IsSelectable,
  remove-IsSelectable,
}
use coinbase_amoled_terminal.Onboarding.Coordinator.Act.{
  Service, Journal, Disk, raised, Act, give, fail, ◌>>=◌, change, demand, may_raise, attempt,
  unlink_journal, rollback_refused, still_active, rollback_incomplete, device_changed,
}
use coinbase_amoled_terminal.Onboarding.Coordinator.Undo.{
  Claim, unlisted, foreign, owned, claim_of, lift_result, read_active, swap_slot, drop_slot,
  drop_token, remove_record, remove_listed, remove_file, remove_scoped_device, swap_owned,
  swap_back, restore_selector, restore_service, remove_inactive, rollback_journal, drop_previous,
  cleanup_complete,
}
use coinbase_amoled_terminal.Onboarding.Coordinator.Runs.{
  Statement, Keeps, bind-Keeps, may_raise-Keeps, demand-Keeps, attempt-Runs, if-Keeps,
}

-- The selector can be read, the slot that it names is the journal's only if the journal says that the
-- permission check has passed, and it says so only if a check has accepted the slot.
pub record IsGated (d : Disk) : Type 0 where
  pub selectable : IsSelectable d.secrets
  pub verified :
      (j : Journal)
      → d.journal ≡ some j
      → selected d.secrets ≡ some j.credential_slot
      → j.permission_verified ≡ true
  pub honest :
      (j : Journal)
      → d.journal ≡ some j
      → j.permission_verified ≡ true
      → contains d.passes j.credential_slot ≡ true

abbrev pub Gated : Statement
Gated d h = IsGated d

-- Gated, and the journal is of the transaction with the slot.
abbrev pub GatedAt : Text → Statement
GatedAt slot d h = IsGated d × ((j : Journal) → d.journal ≡ some j → j.credential_slot ≡ slot)

remove-selector :
    (slot : Text) (s : Secrets) → IsSelectable s → (remove_slot slot s).1.selector ≡ s.selector
unfolding remove_slot
remove-selector slot s h = rw (active_slot-eq-selected s h, remove_slot) (ground arith)

pub stage-selector :
    (slot payload : Text) (s : Secrets) → (stage_slot slot payload s).1.selector ≡ s.selector
unfolding stage_slot
stage-selector slot payload s = ground arith

-- A swap changes nothing unless its expected slot is selected.
swap_effect :
    (expected replacement : Option Text) (s : Secrets)
    → IsSelectable s
    → ((compare_and_swap expected replacement s).1 ≡ s) ⊎ (selected s ≡ expected)
unfolding compare_and_swap
swap_effect expected replacement s h = elim (Bool-cases (selected s == expected)) [
  | inl e ↦ inr (ground arith)
  | inr e ↦ inl (rw (active_slot-eq-selected s h, e, compare_and_swap) (ground arith))
]

pub other_secrets :
    (d : Disk) (s : Secrets)
    → IsGated d
    → IsSelectable s
    → selected s ≡ selected d.secrets
    → IsGated (record d { secrets = s })
other_secrets d s g selectable same = record {
  selectable = selectable;
  verified = λ j at on. g.verified j at (sym same ∙ on);
  honest = g.honest;
}

-- A statement on the journal, and on which slot is selected.
pub record IsScoped (P : Statement) : Type 0 where
  pub readable : (d : Disk) (h : Journal) → P d h → IsSelectable d.secrets
  pub elsewhere :
      (d d' : Disk) (h : Journal)
      → d'.journal ≡ d.journal
      → d'.secrets ≡ d.secrets
      → d'.passes ≡ d.passes
      → P d h
      → P d' h
  pub same_slot :
      (d : Disk) (h : Journal) (s : Secrets)
      → P d h
      → IsSelectable s
      → selected s ≡ selected d.secrets
      → P (record d { secrets = s }) h
  pub unlinked : (d : Disk) (h : Journal) → P d h → P (record d { journal = none }) h

pub Gated-IsScoped : IsScoped Gated
Gated-IsScoped = record {
  readable = λ d h g. g.selectable;
  elsewhere = λ d d' h same_journal same_secrets same_passes g. record {
    selectable = rw same_secrets g.selectable;
    verified = λ j at on. g.verified j (sym same_journal ∙ at) (rw same_secrets at on);
    honest = λ j at on. rw same_passes (g.honest j (sym same_journal ∙ at) on);
  };
  same_slot = λ d h s g selectable same. other_secrets d s g selectable same;
  unlinked =
      λ d h g. record { selectable = g.selectable; verified = λ j at. cc; honest = λ j at. cc };
}

pub GatedAt-IsScoped : (slot : Text) → IsScoped (GatedAt slot)
GatedAt-IsScoped slot = record {
  readable = λ d h g. g.0.selectable;
  elsewhere = λ d d' h same_journal same_secrets same_passes g. (
    Gated-IsScoped.elsewhere d d' h same_journal same_secrets same_passes g.0,
    λ j at. g.1 j (sym same_journal ∙ at),
  );
  same_slot = λ d h s g selectable same. (other_secrets d s g.0 selectable same, g.1);
  unlinked = λ d h g. (Gated-IsScoped.unlinked d h g.0, λ j at. cc);
}

module _ (P : Statement) (p : IsScoped P) where
  pub elsewhere-Keeps :
      (f : Disk → Disk)
      → ((d : Disk) → (f d).journal ≡ d.journal)
      → ((d : Disk) → (f d).secrets ≡ d.secrets)
      → ((d : Disk) → (f d).passes ≡ d.passes)
      → Keeps P (change f)
  elsewhere-Keeps f j k l s g =
      p.elsewhere s.disk (f s.disk) s.held (j s.disk) (k s.disk) (l s.disk) g

  pub lift_result-Keeps : {A E : Type 0} (r : Result E A) → Keeps P (lift_result r)
  lift_result-Keeps (ok a) s g = g
  lift_result-Keeps (err e) s g = g

  pub read_active-Keeps : Keeps P read_active
  unfolding read_active ◌>>=◌
  read_active-Keeps =
      bind-Keeps P (may_raise raised) _ (may_raise-Keeps P raised)
        (λ _ s g. lift_result-Keeps (active_slot s.disk.secrets) s g)

  pub drop_slot-Keeps : (slot : Text) → Keeps P (drop_slot slot)
  unfolding drop_slot ◌>>=◌
  drop_slot-Keeps slot = bind-Keeps P (may_raise raised) _ (may_raise-Keeps P raised) (λ _ s g.
      let h = p.readable s.disk s.held g in
      let old = s.disk.secrets in
      lift_result-Keeps (remove_slot slot old).0 _ (
        p.same_slot s.disk s.held (remove_slot slot old).1 g (remove-IsSelectable slot old h)
          (selector-eq-selected old (remove_slot slot old).1 (remove-selector slot old h))))

  pub drop_token-Keeps : (id : Text) → Keeps P (drop_token id)
  unfolding drop_token
  drop_token-Keeps id = bind-Keeps P (may_raise raised) _ (may_raise-Keeps P raised) (λ _.
      elsewhere-Keeps (λ d. record d { tokens = erase id d.tokens }) (λ d. refl) (λ d. refl)
        (λ d. refl))

  pub unlink_journal-Keeps : Keeps P unlink_journal
  unfolding unlink_journal
  unlink_journal-Keeps =
      bind-Keeps P (may_raise raised) _ (may_raise-Keeps P raised)
        (λ _ s g. p.unlinked s.disk s.held g)

  drop_unless :
      (active : Option Text) (previous : Text)
      → Keeps P (if active == some previous then give tt else drop_slot previous)
  drop_unless active previous =
      if-Keeps P (active == some previous) (give tt) (drop_slot previous) (λ s g. g)
        (drop_slot-Keeps previous)

  remove_record-Keeps : (j : Journal) (c : Claim) → Keeps P (remove_record j c)
  unfolding remove_record
  remove_record-Keeps j unlisted = may_raise-Keeps P raised
  remove_record-Keeps j foreign =
      bind-Keeps P (may_raise raised) _ (may_raise-Keeps P raised) (λ _ s g. g)
  remove_record-Keeps j owned =
      bind-Keeps P (may_raise raised) _ (may_raise-Keeps P raised)
        (λ _ s g. p.elsewhere s.disk _ s.held refl refl refl g)

  module _ (default_path token_digest : Text → Text) where
    remove_listed-Keeps :
        (j : Journal) (b : Bool) → Keeps P (remove_listed default_path token_digest j b)
    unfolding remove_listed ◌>>=◌
    remove_listed-Keeps j false s g = g
    remove_listed-Keeps j true s g =
        remove_record-Keeps j (claim_of j (lookup j.device_id s.disk.world.devices)) s g

    remove_found-Keeps :
        (j : Journal) (content : Text)
        → Keeps P (remove_file default_path token_digest j (some content))
    unfolding remove_file
    remove_found-Keeps j content =
        bind-Keeps P (demand _ device_changed) _ (demand-Keeps P _ device_changed) (λ _.
          bind-Keeps P (demand _ device_changed) _ (demand-Keeps P _ device_changed) (λ _.
            bind-Keeps P (may_raise raised) _ (may_raise-Keeps P raised)
              (λ _ s g. p.elsewhere s.disk _ s.held refl refl refl g)))

    remove_file-Keeps :
        (j : Journal) (o : Option Text) → Keeps P (remove_file default_path token_digest j o)
    unfolding remove_file
    remove_file-Keeps j none s g = g
    remove_file-Keeps j (some content) s g = remove_found-Keeps j content s g

    remove_scoped_device-Keeps :
        (j : Journal) → Keeps P (remove_scoped_device default_path token_digest j)
    unfolding remove_scoped_device ◌>>=◌
    remove_scoped_device-Keeps j s g =
        bind-Keeps P (remove_listed default_path token_digest j s.disk.configured) _
          (remove_listed-Keeps j s.disk.configured)
          (λ _ s g. remove_file-Keeps j (lookup (default_path j.device_id) s.disk.world.files) s g)
          s g

    restore_service-Keeps :
        (o : Option Service) → Keeps P (restore_service default_path token_digest o)
    unfolding restore_service
    restore_service-Keeps none s g = g
    restore_service-Keeps (some service) s g = may_raise-Keeps P raised s g

    remove_inactive-Keeps : (j : Journal) → Keeps P (remove_inactive default_path token_digest j)
    unfolding remove_inactive
    remove_inactive-Keeps j = bind-Keeps P read_active _ read_active-Keeps (λ active.
        bind-Keeps P (demand _ still_active) _ (demand-Keeps P _ still_active)
          (λ _. drop_slot-Keeps j.credential_slot))

    drop_previous-Keeps : (o : Option Text) → Keeps P (drop_previous default_path token_digest o)
    unfolding drop_previous
    drop_previous-Keeps none s g = g
    drop_previous-Keeps (some previous) s g =
        bind-Keeps P read_active _ read_active-Keeps (λ active s g. drop_unless active previous s g)
          s g

    pub cleanup_complete-Keeps :
        (j : Journal) → Keeps P (cleanup_complete default_path token_digest j)
    unfolding cleanup_complete
    cleanup_complete-Keeps j =
        bind-Keeps P (drop_token j.transaction_id) _ (drop_token-Keeps j.transaction_id) (λ _.
          bind-Keeps P (drop_previous default_path token_digest j.previous_credential_slot) _
            (drop_previous-Keeps j.previous_credential_slot) (λ _. unlink_journal-Keeps))

swapped :
    (d : Disk) (slot : Text) (o : Option Text)
    → IsGated d × ((j : Journal) → d.journal ≡ some j → j.credential_slot ≡ slot)
    → IsGated (record d { secrets = (compare_and_swap (some slot) o d.secrets).1 })
      × ((j : Journal) → d.journal ≡ some j → j.credential_slot ≡ slot)
swapped d slot o (g, at) = (
  record {
    selectable = swap-IsSelectable (some slot) o d.secrets g.selectable;
    verified = λ j found on. elim (swap_effect (some slot) o d.secrets g.selectable) [
      | inl same ↦ g.verified j found (rw same at on)
      | inr was ↦ g.verified j found (was ∙ ap some (sym (at j found)))
    ];
    honest = g.honest;
  },
  at,
)

module _ (default_path token_digest : Text → Text) where
  -- The swap back from the slot of the journal.
  swap_slot-Keeps : (slot : Text) (o : Option Text) → Keeps (GatedAt slot) (swap_slot (some slot) o)
  unfolding swap_slot ◌>>=◌
  swap_slot-Keeps slot o =
      bind-Keeps (GatedAt slot) (may_raise raised) _ (may_raise-Keeps (GatedAt slot) raised)
        (λ _ s g.
          lift_result-Keeps (GatedAt slot) (GatedAt-IsScoped slot)
            (compare_and_swap (some slot) o s.disk.secrets).0 _ (swapped s.disk slot o g))

  swap_owned-Keeps :
      (j : Journal) → Keeps (GatedAt j.credential_slot) (swap_owned default_path token_digest j)
  unfolding swap_owned
  swap_owned-Keeps j =
      bind-Keeps (GatedAt j.credential_slot)
        (swap_slot (some j.credential_slot) j.previous_credential_slot) _
        (swap_slot-Keeps j.credential_slot j.previous_credential_slot)
        (λ done. demand-Keeps (GatedAt j.credential_slot) done rollback_refused)

  swap_back-Keeps :
      (j : Journal) (o : Option Text)
      → Keeps (GatedAt j.credential_slot) (swap_back default_path token_digest j o)
  unfolding swap_back
  swap_back-Keeps j o =
      let P = GatedAt j.credential_slot in
      let rest = swap_owned default_path token_digest j in
      let refused : Act (Unit {0}) = fail rollback_refused in
      let inner : Act (Unit {0}) = if not (o == some j.credential_slot) then refused else rest in
      if-Keeps P (o == j.previous_credential_slot) (give tt) inner (λ s g. g)
        (if-Keeps P (not (o == some j.credential_slot)) refused rest (λ s g. g)
          (swap_owned-Keeps j))

  restore_selector-Keeps :
      (j : Journal)
      → Keeps (GatedAt j.credential_slot) (restore_selector default_path token_digest j)
  unfolding restore_selector
  restore_selector-Keeps j =
      let P = GatedAt j.credential_slot in
      let rest : Act (Unit {0}) = read_active >>= λ o. swap_back default_path token_digest j o in
      if-Keeps P (not j.credential_switch_started) (give tt) rest (λ s g. g)
        (bind-Keeps P read_active _ (read_active-Keeps P (GatedAt-IsScoped j.credential_slot))
          (λ o. swap_back-Keeps j o))

  -- The rollback of the transaction of the journal on the disk.
  pub rollback_journal-Keeps :
      (j : Journal)
      → Keeps (GatedAt j.credential_slot) (rollback_journal default_path token_digest j)
  unfolding rollback_journal
  rollback_journal-Keeps j =
      let P = GatedAt j.credential_slot in
      let p = GatedAt-IsScoped j.credential_slot in
      bind-Keeps P (attempt (remove_scoped_device default_path token_digest j)) _
        (attempt-Runs P P P _ (remove_scoped_device-Keeps P p default_path token_digest j))
        (λ device_failed.
          bind-Keeps P (attempt (restore_selector default_path token_digest j)) _
            (attempt-Runs P P P _ (restore_selector-Keeps j))
            (λ selector_failed.
              bind-Keeps P (attempt (restore_service default_path token_digest j.service)) _
                (attempt-Runs P P P _
                  (restore_service-Keeps P p default_path token_digest j.service))
                (λ service_failed.
                  bind-Keeps P (attempt (drop_token j.transaction_id)) _
                    (attempt-Runs P P P _ (drop_token-Keeps P p j.transaction_id))
                    (λ token_failed.
                      bind-Keeps P (attempt (remove_inactive default_path token_digest j)) _
                        (attempt-Runs P P P _
                          (remove_inactive-Keeps P p default_path token_digest j))
                        (λ slot_failed.
                          bind-Keeps P (demand _ rollback_incomplete) _
                            (demand-Keeps P _ rollback_incomplete)
                            (λ _. unlink_journal-Keeps P p))))))
