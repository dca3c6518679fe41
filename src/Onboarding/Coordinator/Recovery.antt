-- ===== src/Onboarding/Coordinator/Recovery.antt =====
-- That the recovery and the rollback of a transaction, onboarding.py, activate no unchecked credentials.
use coinbase_amoled_terminal.Prelude.{
  ℕ, ◌≡◌, refl, sym, ◌∙◌, ap, Bool, true, false, Option, none, some, List, [], ◌∷◌, if◌then◌else◌,
  leb, list_eq, nat_eq,
}
use coinbase_amoled_terminal.Prelude.Text.{Text}
use coinbase_amoled_terminal.Prelude.Dict.{keys}
use coinbase_amoled_terminal.Onboarding.Coordinator.Act.{
  Phase, staged, claimed, checking, applying, credentials_active, device_added, service_starting,
  service_started, complete, Journal, Disk, Act, give, ◌>>◌, change_held, write_journal,
}
use coinbase_amoled_terminal.Onboarding.Coordinator.Undo.{
  drop_slot, drop_token, rollback_journal, cleanup_complete, drop_orphan, drop_other, drop_orphans,
  drop_other_tokens, cleanup_orphans, resume, recover_journal, recover, rollback_found,
  rollback_pending, is_complete, read_active,
}
use coinbase_amoled_terminal.Onboarding.Coordinator.Stage.{arm}
use coinbase_amoled_terminal.Onboarding.Coordinator.Runs.{
  Statement, Runs, Keeps, bind-Runs, bind-Keeps, if-Keeps, look-Runs, weaker-Runs,
}
use coinbase_amoled_terminal.Onboarding.Coordinator.Gated.{
  IsGated, Gated, GatedAt, Gated-IsScoped, rollback_journal-Keeps, cleanup_complete-Keeps,
  drop_slot-Keeps, drop_token-Keeps, read_active-Keeps,
}
use coinbase_amoled_terminal.Onboarding.Coordinator.Verified.{some-injective, write-Runs}

-- Gated, and the journal on the disk is the one that was read.
abbrev pub Read : Option Journal → Statement
Read o d h = IsGated d × (d.journal ≡ o)

pub found_at :
    (j i : Journal) (o : Option Journal)
    → o ≡ some j
    → o ≡ some i
    → i.credential_slot ≡ j.credential_slot
found_at j i o at other =
    ap (λ (k : Journal). k.credential_slot) (some-injective j i (sym at ∙ other))

-- The object is the journal of the disk, but for the phase.
abbrev pub Ready : Journal → Phase → Statement
Ready j phase d h = Read (some j) d h × (h ≡ record j { phase = phase })

pub ready_written :
    (j : Journal) (phase : Phase) (d : Disk) (h : Journal)
    → Ready j phase d h
    → IsGated (record d { journal = some h })
ready_written j phase d h ((g, at), same) = record {
  selectable = g.selectable;
  verified = λ i found on.
      let e : i ≡ record j { phase = phase } = some-injective h i found ∙ same in
      let slot = ap (λ (k : Journal). k.credential_slot) e in
      let flag = ap (λ (k : Journal). k.permission_verified) e in
      flag ∙ g.verified j at (on ∙ ap some slot);
  honest = λ i found on.
      let e : i ≡ record j { phase = phase } = some-injective h i found ∙ same in
      let slot : i.credential_slot ≡ j.credential_slot =
        ap (λ (k : Journal). k.credential_slot) e in
      let flag : i.permission_verified ≡ j.permission_verified =
        ap (λ (k : Journal). k.permission_verified) e in
      rw slot (g.honest j at (sym flag ∙ on));
}

pub rephase-Runs :
    (j : Journal) (phase : Phase)
    → Runs
        (Read (some j))
        (change_held (λ h. record j { phase = phase }) >> write_journal)
        Gated
        Gated
rephase-Runs j phase =
    bind-Runs (Read (some j)) (Ready j phase) Gated Gated (change_held _) _ (λ s p. (p, refl))
      (λ _.
        weaker-Runs (Ready j phase) Gated (Ready j phase) Gated Gated write_journal
          (write-Runs (Ready j phase) Gated (λ d h p. ready_written j phase d h p)) (λ d h g. g)
          (λ d h ((g, _), _). g))

module _ (default_path token_digest : Text → Text) where
  pub rollback-Runs :
      (j : Journal)
      → Runs (Read (some j)) (rollback_journal default_path token_digest j) Gated Gated
  rollback-Runs j s (g, at) =
      weaker-Runs (GatedAt j.credential_slot) (GatedAt j.credential_slot)
        (GatedAt j.credential_slot) Gated Gated (rollback_journal default_path token_digest j)
        (rollback_journal-Keeps default_path token_digest j) (λ d h p. p.0) (λ d h p. p.0) s
        (g, λ i found. found_at j i s.disk.journal at found)

  cleanup-Keeps : (j : Journal) → Keeps Gated (cleanup_complete default_path token_digest j)
  cleanup-Keeps j = cleanup_complete-Keeps Gated Gated-IsScoped default_path token_digest j

  resume-Runs :
      (phase : Phase) (j : Journal)
      → Runs (Read (some j)) (resume default_path token_digest phase j) Gated Gated
  unfolding resume
  resume-Runs staged j s p = p.0
  resume-Runs claimed j s p = p.0
  resume-Runs checking j s p = rephase-Runs j claimed s p
  resume-Runs applying j s p = rollback-Runs j s p
  resume-Runs credentials_active j s p = rollback-Runs j s p
  resume-Runs device_added j s p = rollback-Runs j s p
  resume-Runs service_starting j s p = rollback-Runs j s p
  resume-Runs service_started j s p = rollback-Runs j s p
  resume-Runs complete j s p = rollback-Runs j s p

  pub cleanup-Runs :
      (j : Journal)
      → Runs (Read (some j)) (cleanup_complete default_path token_digest j) Gated Gated
  cleanup-Runs j s p = cleanup-Keeps j s p.0

  pub choose :
      {A : Type 0} (P : Statement) (b : Bool) (m n : Act A)
      → Runs P m Gated Gated
      → Runs P n Gated Gated
      → Runs P (if b then m else n) Gated Gated
  choose P true m n h k = h
  choose P false m n h k = k

  recover_journal-Runs :
      (now : ℕ) (o : Option Journal)
      → Runs (Read o) (recover_journal default_path token_digest now o) Gated Gated
  unfolding recover_journal
  recover_journal-Runs now none s p = p.0
  recover_journal-Runs now (some j) s p =
      choose (Read (some j)) (is_complete j.phase) (cleanup_complete default_path token_digest j) _
        (cleanup-Runs j)
        (choose (Read (some j)) (leb j.expires_at now)
          (rollback_journal default_path token_digest j)
          (resume default_path token_digest j.phase j) (rollback-Runs j) (resume-Runs j.phase j))
        s p

  drop_orphan-Keeps :
      (active : Option Text) (o : Option Journal) (slot : Text)
      → Keeps Gated (drop_orphan default_path token_digest active o slot)
  unfolding drop_orphan
  drop_orphan-Keeps active o slot =
      if-Keeps Gated _ (drop_slot slot) (give tt) (drop_slot-Keeps Gated Gated-IsScoped slot)
        (λ s g. g)

  drop_other-Keeps :
      (o : Option Journal) (id : Text) → Keeps Gated (drop_other default_path token_digest o id)
  unfolding drop_other
  drop_other-Keeps o id =
      if-Keeps Gated _ (drop_token id) (give tt) (drop_token-Keeps Gated Gated-IsScoped id)
        (λ s g. g)

  drop_orphans-Keeps :
      (active : Option Text) (o : Option Journal) (l : List Text)
      → Keeps Gated (drop_orphans default_path token_digest active o l)
  unfolding drop_orphans
  drop_orphans-Keeps active o [] s g = g
  drop_orphans-Keeps active o (slot ∷ slots) s g =
      bind-Keeps Gated (drop_orphan default_path token_digest active o slot)
        (λ _. drop_orphans default_path token_digest active o slots)
        (drop_orphan-Keeps active o slot) (λ _. drop_orphans-Keeps active o slots) s g

  drop_other_tokens-Keeps :
      (o : Option Journal) (l : List Text)
      → Keeps Gated (drop_other_tokens default_path token_digest o l)
  unfolding drop_other_tokens
  drop_other_tokens-Keeps o [] s g = g
  drop_other_tokens-Keeps o (id ∷ ids) s g =
      bind-Keeps Gated (drop_other default_path token_digest o id)
        (λ _. drop_other_tokens default_path token_digest o ids) (drop_other-Keeps o id)
        (λ _. drop_other_tokens-Keeps o ids) s g

  cleanup_orphans-Keeps : Keeps Gated (cleanup_orphans default_path token_digest)
  unfolding cleanup_orphans
  cleanup_orphans-Keeps =
      bind-Keeps Gated read_active _ (read_active-Keeps Gated Gated-IsScoped) (λ active.
        look-Runs Gated Gated Gated _ (λ s g.
          bind-Keeps Gated
            (drop_other_tokens default_path token_digest s.disk.journal (keys s.disk.tokens))
            (λ _.
              drop_orphans default_path token_digest active s.disk.journal
                (keys s.disk.secrets.slots))
            (drop_other_tokens-Keeps s.disk.journal (keys s.disk.tokens))
            (λ _. drop_orphans-Keeps active s.disk.journal (keys s.disk.secrets.slots)) s g))

  pub recover-Keeps : (now : ℕ) → Keeps Gated (recover default_path token_digest now)
  unfolding recover
  recover-Keeps now = look-Runs Gated Gated Gated _ (λ s g.
      bind-Runs (Read s.disk.journal) Gated Gated Gated
        (recover_journal default_path token_digest now s.disk.journal)
        (λ _. cleanup_orphans default_path token_digest) (recover_journal-Runs now s.disk.journal)
        (λ _. cleanup_orphans-Keeps) s (g, refl))

  rollback_found-Runs :
      (o : Option Journal) → Runs (Read o) (rollback_found default_path token_digest o) Gated Gated
  unfolding rollback_found
  rollback_found-Runs none s p = p.0
  rollback_found-Runs (some j) s p =
      choose (Read (some j)) (is_complete j.phase) (cleanup_complete default_path token_digest j)
        (rollback_journal default_path token_digest j) (cleanup-Runs j) (rollback-Runs j) s p

  pub rollback_pending-Keeps : Keeps Gated (rollback_pending default_path token_digest)
  unfolding rollback_pending
  rollback_pending-Keeps =
      look-Runs Gated Gated Gated _ (λ s g. rollback_found-Runs s.disk.journal s (g, refl))

  pub arm-Runs :
      (phase : Phase) (j : Journal)
      → Runs (Read (some j)) (arm default_path token_digest phase j) Gated Gated
  unfolding arm
  arm-Runs staged j s p = rephase-Runs j claimed s p
  arm-Runs claimed j s p = p.0
  arm-Runs checking j s p = p.0
  arm-Runs applying j s p = p.0
  arm-Runs credentials_active j s p = p.0
  arm-Runs device_added j s p = p.0
  arm-Runs service_starting j s p = p.0
  arm-Runs service_started j s p = p.0
  arm-Runs complete j s p = p.0
