-- ===== src/Onboarding/Coordinator/Calls.antt =====
-- The calls of the coordinator of onboarding.py in any order, with any faults.
use coinbase_amoled_terminal.Prelude.{
  ℕ, ◌≡◌, refl, ◌∙◌, ap, Bool, true, false, Option, none, some, List, [], ◌∷◌, Result, ok, err,
  list_eq, nat_eq, option_eq,
}
use coinbase_amoled_terminal.Prelude.Text.{Text}
use coinbase_amoled_terminal.Onboarding.Session.{SafeProvisioning}
use coinbase_amoled_terminal.Onboarding.Coordinator.Act.{
  Phase, checking, device_added, complete, Journal, Disk, Site, SetupError, raised, aborted,
  no_claimed, changed, credentials_changed, provisioning_failed, device_changed,
  rollback_incomplete, Act, fail, ◌>>=◌, look, look_held, change, change_held, demand, may_raise,
  attempt, write_journal, read_staged_token,
}
use coinbase_amoled_terminal.Onboarding.Coordinator.Undo.{
  read_active, rollback_journal, rollback_pending, recover, is_complete,
}
use coinbase_amoled_terminal.Onboarding.Coordinator.Stage.{
  stage, claim_pending, pending_provisioning,
}
use coinbase_amoled_terminal.Onboarding.Coordinator.Finish.{
  Plan, set_phase, add_held, lift_device, check_owned, undo_as, check_unless, is_killed,
  undo_merged, check_rounds, check_permission, activate, start_service, add_device,
  verify_owned_state, conclude, finish_locked, merged, undo_current, undo_finish, finish_journal,
  finish_pending,
}
use coinbase_amoled_terminal.Onboarding.Coordinator.Runs.{
  Statement, After, Runs, Keeps, bind-Runs, bind-Keeps, may_raise-Keeps, demand-Keeps, attempt-Runs,
  guarded-Runs, look-Runs, look_held-Runs, weaker-Runs,
}
use coinbase_amoled_terminal.Onboarding.Coordinator.Gated.{
  IsGated, Gated, GatedAt, elsewhere-Keeps, rollback_journal-Keeps, cleanup_complete-Keeps,
  read_active-Keeps,
}
use coinbase_amoled_terminal.Onboarding.Coordinator.Verified.{
  IsVerified, IsVerified-IsScoped, some-injective, IsGated-of_verified, write-Runs, activate-Keeps,
  start_service-Keeps, check_rounds-Runs, set_phase-Keeps,
}
use coinbase_amoled_terminal.Onboarding.Coordinator.Recovery.{
  Read, Ready, ready_written, found_at, choose, recover-Keeps, rollback_pending-Keeps,
}
use coinbase_amoled_terminal.Onboarding.Coordinator.Staging.{
  stage-Keeps, claim_pending-Keeps, pending_provisioning-Keeps, read_staged_token-Keeps,
}

-- A call, with the faults that it meets: a staging, a claim, a question, an activation, a rollback,
-- and a restart of the process.
pub data Call : Type 0 where
  staging : SafeProvisioning → Text → Text → Text → Call
  claiming : Text → Text → ℕ → Call
  recalling : ℕ → Call
  finishing : SafeProvisioning → Plan → Call
  rolling_back : Call
  restarting : ℕ → Call

-- Gated, and what the object says of the check holds.
abbrev Honest : Statement
Honest d h = IsGated d × (h.permission_verified ≡ true → IsVerified d h)

check_unless-After :
    (plan : Plan) (b : Bool) (s : Site)
    → (b ≡ true → IsVerified s.disk s.held)
    → IsGated s.disk
    → After IsVerified Gated (check_unless b plan s).0 (check_unless b plan s).1
unfolding check_unless
check_unless-After plan true s f g = f refl
check_unless-After plan false s f g =
    bind-Runs Gated Gated IsVerified Gated (may_raise raised)
      (λ _. check_rounds plan.deadline plan.rounds) (may_raise-Keeps Gated raised)
      (λ _. check_rounds-Runs plan.deadline plan.rounds) s g

check_permission-Runs : (plan : Plan) → Runs Honest (check_permission plan) IsVerified Gated
unfolding check_permission
check_permission-Runs plan =
    look_held-Runs Honest IsVerified Gated _
      (λ s (g, f). check_unless-After plan s.held.permission_verified s f g)

-- The object is the journal of the disk.
abbrev Held : Journal → Statement
Held j d h = Read (some j) d h × (h ≡ j)

honest_written :
    (j : Journal) (phase : Phase) (d : Disk) (h : Journal)
    → Ready j phase d h
    → Honest (record d { journal = some h }) h
honest_written j phase d h p = (
  ready_written j phase d h p,
  λ on. record {
    selectable = p.0.0.selectable;
    held = on;
    written = λ i at. ap (λ (k : Journal). k.permission_verified) (some-injective h i at) ∙ on;
    checked = (ready_written j phase d h p).honest h refl on;
    written_checked = λ i at.
        (ready_written j phase d h p).honest i at
          (ap (λ (k : Journal). k.permission_verified) (some-injective h i at) ∙ on);
  },
)

start_check : (j : Journal) → Runs (Held j) (set_phase checking) Honest Gated
unfolding set_phase
start_check j =
    bind-Runs (Held j) (Ready j checking) Honest Gated (change_held _) _
      (λ s (p, e). (p, ap (λ (k : Journal). record k { phase = checking }) e))
      (λ _.
        weaker-Runs (Ready j checking) Honest (Ready j checking) Honest Gated write_journal
          (write-Runs (Ready j checking) Honest (honest_written j checking)) (λ d h p. p)
          (λ d h p. p.0.0))

read-demand :
    (j : Journal) (b : Bool) (e : SetupError)
    → Runs (Read (some j)) (demand b e) (Read (some j)) Gated
read-demand j b e =
    weaker-Runs (Read (some j)) (Read (some j)) (Read (some j)) (Read (some j)) Gated (demand b e)
      (demand-Keeps (Read (some j)) b e) (λ d h p. p) (λ d h p. p.0)

-- The statement holds whether the call raised or not.
settled : {A : Type 0} (r : Result SetupError A) (s : Site) → After Gated Gated r s → IsGated s.disk
settled (ok _) s g = g
settled (err _) s g = g

module _ (default_path token_digest : Text → Text) where
  lift_device-Keeps :
      {E : Type 0} (P : Statement) (r : Result E Text)
      → Keeps P (lift_device default_path token_digest r)
  lift_device-Keeps P (ok _) s p = p
  lift_device-Keeps P (err _) s p = p

  add_held-Keeps :
      (plan : Plan) (token : Text) (held : Journal) (disk : Disk)
      → Keeps IsVerified (add_held default_path token_digest plan token held disk)
  unfolding add_held
  add_held-Keeps plan token held disk =
      let P = IsVerified in
      bind-Keeps P (change _) _
        (elsewhere-Keeps P IsVerified-IsScoped _ (λ d. refl) (λ d. refl) (λ d. refl))
        (λ _.
          bind-Keeps P (lift_device default_path token_digest _) _ (lift_device-Keeps P _)
            (λ _. demand-Keeps P _ provisioning_failed))

  add_device-Keeps :
      (plan : Plan) (token : Text)
      → Keeps IsVerified (add_device default_path token_digest plan token)
  unfolding add_device
  add_device-Keeps plan token =
      let P = IsVerified in
      bind-Keeps P (may_raise aborted) _ (may_raise-Keeps P aborted) (λ _.
        bind-Keeps P (may_raise raised) _ (may_raise-Keeps P raised) (λ _.
          bind-Keeps P (change (λ d. record d { configured = true })) _
            (elsewhere-Keeps P IsVerified-IsScoped _ (λ d. refl) (λ d. refl) (λ d. refl))
            (λ _. bind-Keeps P (may_raise raised) _ (may_raise-Keeps P raised) (λ _.
              bind-Keeps P look_held _ (λ s v. v)
                (λ held.
                  bind-Keeps P look _ (λ s v. v)
                    (λ disk.
                      bind-Keeps P (add_held default_path token_digest plan token held disk) _
                        (add_held-Keeps plan token held disk)
                        (λ _. set_phase-Keeps device_added)))))))

  check_owned-Keeps :
      (P : Statement) (held : Journal) (active : Option Text)
      → Keeps P (check_owned default_path token_digest held active)
  unfolding check_owned
  check_owned-Keeps P held active =
      bind-Keeps P (demand _ credentials_changed) _ (demand-Keeps P _ credentials_changed) (λ _.
        bind-Keeps P (may_raise raised) _ (may_raise-Keeps P raised) (λ _.
          bind-Keeps P look _ (λ s p. p)
            (λ disk.
              bind-Keeps P (demand _ device_changed) _ (demand-Keeps P _ device_changed)
                (λ _. demand-Keeps P _ device_changed))))

  verify_owned_state-Keeps : Keeps IsVerified (verify_owned_state default_path token_digest)
  unfolding verify_owned_state
  verify_owned_state-Keeps = look_held-Runs IsVerified IsVerified IsVerified _ (λ s v.
      bind-Keeps IsVerified read_active
        (λ active. check_owned default_path token_digest s.held active)
        (read_active-Keeps IsVerified IsVerified-IsScoped)
        (λ active. check_owned-Keeps IsVerified s.held active) s v)

  conclude-Keeps : Keeps IsVerified (conclude default_path token_digest)
  unfolding conclude
  conclude-Keeps =
      bind-Keeps IsVerified (verify_owned_state default_path token_digest) _
        verify_owned_state-Keeps
        (λ _. bind-Keeps IsVerified (may_raise aborted) _ (may_raise-Keeps IsVerified aborted) (λ _.
          bind-Keeps IsVerified (set_phase complete) _ (set_phase-Keeps complete) (λ _.
            look_held-Runs IsVerified IsVerified IsVerified _ (λ s v.
              cleanup_complete-Keeps IsVerified IsVerified-IsScoped default_path token_digest s.held
                s v))))

  finish_locked-Runs :
      (plan : Plan) (token : Text)
      → Runs Honest (finish_locked default_path token_digest plan token) Gated Gated
  unfolding finish_locked
  finish_locked-Runs plan token =
      bind-Runs Honest Honest Gated Gated (may_raise aborted) _
        (weaker-Runs Honest Honest Honest Honest Gated (may_raise aborted)
          (may_raise-Keeps Honest aborted) (λ d h p. p) (λ d h p. p.0))
        (λ _.
          bind-Runs Honest IsVerified Gated Gated (check_permission plan) _
            (check_permission-Runs plan)
            (λ _.
              weaker-Runs IsVerified IsVerified IsVerified Gated Gated _
                (bind-Keeps IsVerified activate _ activate-Keeps (λ _.
                  bind-Keeps IsVerified (add_device default_path token_digest plan token) _
                    (add_device-Keeps plan token)
                    (λ _.
                      bind-Keeps IsVerified (may_raise raised) _ (may_raise-Keeps IsVerified raised)
                        (λ _.
                          bind-Keeps IsVerified (may_raise aborted) _
                            (may_raise-Keeps IsVerified aborted)
                            (λ _.
                              bind-Keeps IsVerified (start_service plan) _
                                (start_service-Keeps plan) (λ _. conclude-Keeps))))))
                IsGated-of_verified IsGated-of_verified))

  undo_as-Runs :
      (e : SetupError) (j held : Journal)
      → Runs
          (Read (some j))
          (undo_as default_path token_digest e (merged default_path token_digest held j))
          Gated
          Gated
  unfolding undo_as
  undo_as-Runs e j held s (g, at) =
      let slot = j.credential_slot in
      let P = GatedAt slot in
      let m = merged default_path token_digest held j in
      weaker-Runs P P P Gated Gated _
        (bind-Keeps P (attempt (rollback_journal default_path token_digest m)) _
          (attempt-Runs P P P _ (rollback_journal-Keeps default_path token_digest m))
          (λ failed.
            bind-Keeps P (demand _ rollback_incomplete) _ (demand-Keeps P _ rollback_incomplete)
              (λ _ s p. p)))
        (λ d h p. p.0) (λ d h p. p.0) s (g, λ i found. found_at j i s.disk.journal at found)

  undo_merged-Runs :
      (e : SetupError) (j : Journal)
      → Runs (Read (some j)) (undo_merged default_path token_digest e j) Gated Gated
  unfolding undo_merged
  undo_merged-Runs e j =
      look_held-Runs (Read (some j)) Gated Gated _ (λ s p. undo_as-Runs e j s.held s p)

  undo_current-Runs :
      (e : SetupError) (o : Option Journal)
      → Runs (Read o) (undo_current default_path token_digest e o) Gated Gated
  unfolding undo_current
  undo_current-Runs e none s p = p.0
  undo_current-Runs e (some j) s p =
      let failure : Act (Unit {0}) = fail e in
      choose default_path token_digest (Read (some j)) (is_complete j.phase) failure
        (undo_merged default_path token_digest e j) (λ s p. p.0) (undo_merged-Runs e j) s p

  undo_finish-Keeps : (e : SetupError) → Keeps Gated (undo_finish default_path token_digest e)
  unfolding undo_finish
  undo_finish-Keeps e =
      let failure : Act (Unit {0}) = fail e in
      let undo : Act (Unit {0}) =
        look >>= λ disk. undo_current default_path token_digest e disk.journal in
      choose default_path token_digest Gated (is_killed default_path token_digest e) failure undo
        (λ s g. g)
        (look-Runs Gated Gated Gated _ (λ s g. undo_current-Runs e s.disk.journal s (g, refl)))

  finish_found-Runs :
      (provisioning : SafeProvisioning) (plan : Plan) (j : Journal)
      → Runs
          (Read (some j))
          (finish_journal default_path token_digest provisioning plan (some j))
          Gated
          Gated
  unfolding finish_journal
  finish_found-Runs provisioning plan j =
      let P = Read (some j) in
      bind-Runs P P Gated Gated (demand _ no_claimed) _ (read-demand j _ no_claimed) (λ _.
        bind-Runs P P Gated Gated (demand _ changed) _ (read-demand j _ changed) (λ _.
          bind-Runs P P Gated Gated (read_staged_token token_digest j) _
            (weaker-Runs P P P P Gated _ (read_staged_token-Keeps default_path token_digest P j)
              (λ d h p. p) (λ d h p. p.0))
            (λ token.
              bind-Runs P (Held j) Gated Gated (change_held (λ h. j)) _ (λ s p. (p, refl))
                (λ _.
                  bind-Runs (Held j) Honest Gated Gated (set_phase checking) _ (start_check j) (λ _.
                    guarded-Runs Honest Gated Gated
                      (finish_locked default_path token_digest plan token) _
                      (finish_locked-Runs plan token) (λ e. undo_finish-Keeps e))))))

  finish_journal-Runs :
      (provisioning : SafeProvisioning) (plan : Plan) (o : Option Journal)
      → Runs (Read o) (finish_journal default_path token_digest provisioning plan o) Gated Gated
  unfolding finish_journal
  finish_journal-Runs provisioning plan none s p = p.0
  finish_journal-Runs provisioning plan (some j) s p = finish_found-Runs provisioning plan j s p

  finish_pending-Keeps :
      (provisioning : SafeProvisioning) (plan : Plan)
      → Keeps Gated (finish_pending default_path token_digest provisioning plan)
  unfolding finish_pending
  finish_pending-Keeps provisioning plan =
      bind-Keeps Gated (may_raise aborted) _ (may_raise-Keeps Gated aborted) (λ _.
        look-Runs Gated Gated Gated _
          (λ s g. finish_journal-Runs provisioning plan s.disk.journal s (g, refl)))

  -- The state after a call.
  unfoldable pub after : Call → Site → Site
  after (staging provisioning id created_at bundle) s =
      (stage default_path token_digest provisioning id created_at bundle s).1
  after (claiming device_id token now) s =
      (claim_pending default_path token_digest device_id token now s).1
  after (recalling now) s = (pending_provisioning default_path token_digest now s).1
  after (finishing provisioning plan) s =
      (finish_pending default_path token_digest provisioning plan s).1
  after rolling_back s = (rollback_pending default_path token_digest s).1
  after (restarting now) s = (recover default_path token_digest now s).1

  unfoldable pub after_all : List (Call × List Bool) → Site → Site
  unfolding after
  after_all [] s = s
  after_all ((call, luck) ∷ calls) s = after_all calls (after call (record s { luck = luck }))

  after-Gated : (call : Call) (s : Site) → IsGated s.disk → IsGated (after call s).disk
  unfolding after
  after-Gated (staging provisioning id created_at bundle) s g =
      settled _ _ (stage-Keeps default_path token_digest provisioning id created_at bundle s g)
  after-Gated (claiming device_id token now) s g =
      settled _ _ (claim_pending-Keeps default_path token_digest device_id token now s g)
  after-Gated (recalling now) s g =
      settled _ _ (pending_provisioning-Keeps default_path token_digest now s g)
  after-Gated (finishing provisioning plan) s g =
      settled _ _ (finish_pending-Keeps provisioning plan s g)
  after-Gated rolling_back s g = settled _ _ (rollback_pending-Keeps default_path token_digest s g)
  after-Gated (restarting now) s g = settled _ _ (recover-Keeps default_path token_digest now s g)

  -- Whatever is called, in any order, with any faults, refusals and kills of the process, from a state
  -- of which this holds: the selector can be read; if it names the slot of the transaction in the
  -- journal, the journal says that the permission check has passed; and whenever the journal says so, a
  -- permission check has accepted the slot.
  pub after_all-Gated :
      (calls : List (Call × List Bool)) (s : Site)
      → IsGated s.disk
      → IsGated (after_all calls s).disk
  unfolding after_all
  after_all-Gated [] s g = g
  after_all-Gated ((call, luck) ∷ calls) s g =
      after_all-Gated calls (after call (record s { luck = luck }))
        (after-Gated call (record s { luck = luck }) g)
