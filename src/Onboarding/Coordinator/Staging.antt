-- ===== src/Onboarding/Coordinator/Staging.antt =====
-- That the staging and the claim of a transaction, onboarding.py, activate no unchecked credentials.
use coinbase_amoled_terminal.Prelude.{
  arith, false, ℕ, ◌≡◌, ◌≢◌, refl, sym, ◌∙◌, ap, true, not, ◌&&◌, ◌==◌, Option, none, some, ◌++◌,
  Result, ok, err, if◌then◌else◌, leb, ltb, eqb, length, ◌||◌, list_eq, nat_eq, arith,
}
use coinbase_amoled_terminal.Prelude.Text.{Text, codes, strip}
use coinbase_amoled_terminal.Prelude.Dict.{lookup}
use coinbase_amoled_terminal.Credentials.Slots.{Secrets, stage_slot}
use coinbase_amoled_terminal.Credentials.Selector.{
  IsSelectable, selected, selected-there, stage-IsSelectable, selector-eq-selected,
}
use coinbase_amoled_terminal.Onboarding.Session.{SafeProvisioning}
use coinbase_amoled_terminal.Onboarding.Coordinator.Act.{
  Journal, Disk, Site, SetupError, raised, already_pending, staging_not_undone, token_unavailable,
  token_invalid, unavailable, found_or, Act, give, fail, ◌>>=◌, ◌>>◌, change_held, demand,
  may_raise, attempt, write_journal, read_staged_token, holds_token,
}
use coinbase_amoled_terminal.Onboarding.Coordinator.Undo.{
  drop_slot, drop_token, rollback_journal, lift_result,
}
use coinbase_amoled_terminal.Onboarding.Coordinator.Stage.{
  add_slot, add_token, stage_secrets, unstage, stage, staged_journal, is_none, is_inactive, arm,
  claim_journal, claim_pending, recall, recalled, pending_provisioning, guarded,
}
use coinbase_amoled_terminal.Onboarding.Coordinator.Runs.{
  Statement, After, Runs, Keeps, bind-Runs, bind-Keeps, may_raise-Keeps, demand-Keeps, demand-Runs,
  attempt-Runs, guarded-Runs, look-Runs, weaker-Runs,
}
use coinbase_amoled_terminal.Onboarding.Coordinator.Gated.{
  IsGated, Gated, Gated-IsScoped, drop_slot-Keeps, drop_token-Keeps, stage-selector, other_secrets,
}
use coinbase_amoled_terminal.Onboarding.Coordinator.Verified.{write-Runs, some-injective}
use coinbase_amoled_terminal.Onboarding.Coordinator.Recovery.{Read, rollback-Runs, choose, arm-Runs}

-- No journal, and the slot is not selected.
abbrev Fresh : Text → Statement
Fresh slot d h = Read none d h × (selected d.secrets ≢ some slot)

-- A slot that is staged was not there, so that it is not selected.
staged_unselected :
    (slot bundle : Text) (s : Secrets)
    → IsSelectable s
    → (stage_slot slot bundle s).0 ≡ ok tt
    → selected (stage_slot slot bundle s).1 ≢ some slot
unfolding stage_slot
staged_unselected slot bundle s h done on = ground (
  arith,
  selected-there s slot h,
  sym (selector-eq-selected s (stage_slot slot bundle s).1 (stage-selector slot bundle s)),
)

-- The result of a call of the credential directory.
lift_case :
    (P Q : Statement) {E : Type 0} (r : Result E (Unit {0})) (s : Site)
    → (r ≡ ok tt → Q s.disk s.held)
    → P s.disk s.held
    → After Q P (lift_result r s).0 (lift_result r s).1
lift_case P Q (ok tt) s f p = f refl
lift_case P Q (err e) s f p = p

add_slot-Runs :
    (slot bundle : Text) → Runs (Read none) (add_slot slot bundle) (Fresh slot) (Read none)
unfolding add_slot ◌>>=◌
add_slot-Runs slot bundle =
    bind-Runs (Read none) (Read none) (Fresh slot) (Read none) (may_raise raised) _
      (may_raise-Keeps (Read none) raised)
      (λ _ s (g, at).
        let old = s.disk.secrets in
        let after = (stage_slot slot bundle old).1 in
        let kept =
          other_secrets s.disk after g (stage-IsSelectable slot bundle old g.selectable)
            (selector-eq-selected old after (stage-selector slot bundle old)) in
        lift_case (Read none) (Fresh slot) (stage_slot slot bundle old).0 _
          (λ done. ((kept, at), staged_unselected slot bundle old g.selectable done)) (kept, at))

-- The object is the journal, which says that no check has passed.
abbrev FreshJournal : Journal → Statement
FreshJournal j d h = Fresh j.credential_slot d h × (h ≡ j) × (j.permission_verified ≡ false)

fresh_written :
    (j : Journal) (d : Disk) (h : Journal)
    → FreshJournal j d h
    → IsGated (record d { journal = some h })
fresh_written j d h (((g, _), off), same, unchecked) = record {
  selectable = g.selectable;
  verified = λ i found on.
      let slot = ap (λ (k : Journal). k.credential_slot) (some-injective h i found ∙ same) in
      let absurd : ⊥ = off (on ∙ ap some slot) in elim absurd [ ];
  honest = λ i found on.
      let flag : i.permission_verified ≡ j.permission_verified =
        ap (λ (k : Journal). k.permission_verified) (some-injective h i found ∙ same) in
      cc;
}

add_token-Runs :
    (slot id content : Text) → Runs (Fresh slot) (add_token id content) (Fresh slot) Gated
unfolding add_token
add_token-Runs slot id content =
    bind-Runs (Fresh slot) (Fresh slot) (Fresh slot) Gated (may_raise raised) _
      (weaker-Runs (Fresh slot) (Fresh slot) (Fresh slot) (Fresh slot) Gated (may_raise raised)
        (may_raise-Keeps (Fresh slot) raised) (λ d h p. p) (λ d h p. p.0.0))
      (λ _ s ((g, at), off). ((Gated-IsScoped.elsewhere s.disk _ s.held refl refl refl g, at), off))

stage_secrets-Runs :
    (j : Journal) (bundle token : Text)
    → j.permission_verified ≡ false
    → Runs (Read none) (stage_secrets j bundle token) Gated Gated
unfolding stage_secrets
stage_secrets-Runs j bundle token unchecked =
    let slot = j.credential_slot in
    bind-Runs (Read none) (Fresh slot) Gated Gated (add_slot slot bundle) _
      (weaker-Runs (Read none) (Fresh slot) (Read none) (Fresh slot) Gated (add_slot slot bundle)
        (add_slot-Runs slot bundle) (λ d h p. p) (λ d h p. p.0))
      (λ _.
        bind-Runs (Fresh slot) (Fresh slot) Gated Gated
          (add_token j.transaction_id (token ++ codes "\n")) _
          (add_token-Runs slot j.transaction_id (token ++ codes "\n"))
          (λ _.
            bind-Runs (Fresh slot) (FreshJournal j) Gated Gated (change_held (λ h. j)) _
              (λ s p. (p, refl, unchecked))
              (λ _.
                weaker-Runs (FreshJournal j) Gated (FreshJournal j) Gated Gated write_journal
                  (write-Runs (FreshJournal j) Gated (fresh_written j)) (λ d h g. g)
                  (λ d h p. p.0.0.0))))

unstage-Keeps : (j : Journal) (e : SetupError) → Keeps Gated (unstage j e)
unfolding unstage
unstage-Keeps j e =
    bind-Keeps Gated (attempt (drop_token j.transaction_id)) _
      (attempt-Runs Gated Gated Gated _ (drop_token-Keeps Gated Gated-IsScoped j.transaction_id))
      (λ token_failed.
        bind-Keeps Gated (attempt (drop_slot j.credential_slot)) _
          (attempt-Runs Gated Gated Gated _
            (drop_slot-Keeps Gated Gated-IsScoped j.credential_slot))
          (λ slot_failed.
            bind-Keeps Gated (demand _ staging_not_undone) _
              (demand-Keeps Gated _ staging_not_undone) (λ _ s g. g)))

found_or-Keeps : (P : Statement) (e : SetupError) (o : Option Text) → Keeps P (found_or e o)
found_or-Keeps P e none s p = p
found_or-Keeps P e (some content) s p = p

none_of : (o : Option Journal) → is_none o ≡ true → o ≡ none
none_of none h = refl
none_of (some j) h = cc

module _ (default_path token_digest : Text → Text) where
  pub stage-Keeps :
      (provisioning : SafeProvisioning) (id created_at bundle : Text)
      → Keeps Gated (stage default_path token_digest provisioning id created_at bundle)
  unfolding stage
  stage-Keeps provisioning id created_at bundle =
      let j = staged_journal default_path token_digest provisioning id created_at in
      look-Runs Gated Gated Gated _ (λ s g.
        bind-Runs (Read s.disk.journal) (Read none) Gated Gated
          (demand (is_none s.disk.journal) already_pending)
          (λ _. guarded (stage_secrets j bundle provisioning.feed_token) (unstage j))
          (weaker-Runs (Read s.disk.journal)
            (λ d h. Read s.disk.journal d h × (is_none s.disk.journal ≡ true)) (Read s.disk.journal)
            (Read none) Gated (demand (is_none s.disk.journal) already_pending)
            (demand-Runs (Read s.disk.journal) (is_none s.disk.journal) already_pending)
            (λ d h ((gated, at), empty). (gated, at ∙ none_of s.disk.journal empty)) (λ d h p. p.0))
          (λ _.
            guarded-Runs (Read none) Gated Gated (stage_secrets j bundle provisioning.feed_token)
              (unstage j) (stage_secrets-Runs j bundle provisioning.feed_token refl)
              (λ e. unstage-Keeps j e))
          s (g, refl))

  pub read_staged_token-Keeps :
      (P : Statement) (j : Journal) → Keeps P (read_staged_token token_digest j)
  unfolding read_staged_token
  read_staged_token-Keeps P j = look-Runs P P P _ (λ s p.
      bind-Keeps P (found_or token_unavailable (lookup j.transaction_id s.disk.tokens))
        (λ content.
          demand (not (eqb (length content) 0 || ltb 128 (length content))) token_unavailable
          >> (demand (holds_token token_digest j content) token_invalid >> give (strip content)))
        (found_or-Keeps P token_unavailable (lookup j.transaction_id s.disk.tokens))
        (λ content.
          bind-Keeps P (demand _ token_unavailable) _ (demand-Keeps P _ token_unavailable) (λ _.
            bind-Keeps P (demand _ token_invalid) _ (demand-Keeps P _ token_invalid) (λ _ s p. p)))
        s p)

  recalled-Keeps : (j : Journal) → Keeps Gated (recalled default_path token_digest j)
  unfolding recalled
  recalled-Keeps j =
      bind-Keeps Gated (read_staged_token token_digest j) _ (read_staged_token-Keeps Gated j)
        (λ token s g. g)

  claim_journal-Runs :
      (device_id token : Text) (now : ℕ) (o : Option Journal)
      → Runs (Read o) (claim_journal default_path token_digest device_id token now o) Gated Gated
  unfolding claim_journal
  claim_journal-Runs device_id token now none s p = p.0
  claim_journal-Runs device_id token now (some j) s p =
      let unknown = not (device_id == j.device_id && token_digest token == j.feed_token_sha256) in
      let armed = arm default_path token_digest j.phase j in
      let lapsed : Act (Unit {0}) =
        rollback_journal default_path token_digest j >> fail unavailable in
      let refusal : Act (Unit {0}) = fail unavailable in
      let known : Act (Unit {0}) = if unknown then refusal else armed in
      let timely : Act (Unit {0}) = if leb j.expires_at now then lapsed else known in
      let P = Read (some j) in
      choose default_path token_digest P (not (is_inactive default_path token_digest j.phase))
        refusal timely (λ s p. p.0)
        (choose default_path token_digest P (leb j.expires_at now) lapsed known
          (bind-Runs P Gated Gated Gated (rollback_journal default_path token_digest j) _
            (rollback-Runs default_path token_digest j) (λ _ s g. g))
          (choose default_path token_digest P unknown refusal armed (λ s p. p.0)
            (arm-Runs default_path token_digest j.phase j)))
        s p

  pub claim_pending-Keeps :
      (device_id token : Text) (now : ℕ)
      → Keeps Gated (claim_pending default_path token_digest device_id token now)
  unfolding claim_pending
  claim_pending-Keeps device_id token now =
      look-Runs Gated Gated Gated _
        (λ s g. claim_journal-Runs device_id token now s.disk.journal s (g, refl))

  recall-Runs :
      (now : ℕ) (o : Option Journal)
      → Runs (Read o) (recall default_path token_digest now o) Gated Gated
  unfolding recall
  recall-Runs now none s p = p.0
  recall-Runs now (some j) s p =
      let nothing : Act (Option SafeProvisioning) = give none in
      let lapsed : Act (Option SafeProvisioning) =
        rollback_journal default_path token_digest j >> give none in
      let P = Read (some j) in
      choose default_path token_digest P (not (is_inactive default_path token_digest j.phase))
        nothing (if leb j.expires_at now then lapsed else recalled default_path token_digest j)
        (λ s p. p.0)
        (choose default_path token_digest P (leb j.expires_at now) lapsed
          (recalled default_path token_digest j)
          (bind-Runs P Gated Gated Gated (rollback_journal default_path token_digest j) _
            (rollback-Runs default_path token_digest j) (λ _ s g. g))
          (λ s p. recalled-Keeps j s p.0))
        s p

  pub pending_provisioning-Keeps :
      (now : ℕ) → Keeps Gated (pending_provisioning default_path token_digest now)
  unfolding pending_provisioning
  pending_provisioning-Keeps now =
      look-Runs Gated Gated Gated _ (λ s g. recall-Runs now s.disk.journal s (g, refl))
