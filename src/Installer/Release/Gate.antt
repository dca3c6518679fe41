-- ===== src/Installer/Release/Gate.antt =====
-- What the evidence checks and the readiness gate establish.
use coinbase_amoled_terminal.Prelude.{
  ◌≡◌, subst, ap, inl, inr, ◌⊎◌, ◌↔◌, Bool, true, false, not, ◌&&◌, Option, none, some, List, [],
  ◌∷◌, arith, ◌==◌, contains, ok, raise_if, >>=-eq-ok, ok-injective, list_eq, nat_eq, option_eq,
}
use coinbase_amoled_terminal.Prelude.Text.{Text, codes}
use coinbase_amoled_terminal.Prelude.Dict.{Dict, lookup, keys}
use coinbase_amoled_terminal.Prelude.Json.{
  Json, boolean, null, Fields, end, field, field_names, has_exactly,
}
use coinbase_amoled_terminal.Installer.Manifest.{
  InstallError, evidence_invalid, contradictory, hardware_evidence, inconsistent, blocker_declared,
  blocker_missing, item, fields_of,
}
use coinbase_amoled_terminal.Installer.Release.{
  strip, to_lower, map, ReleaseEvidence, FirmwareManifest, v1, v2, evidence_names, same, flag_of,
  attested_flags, all_flags, blocker_of, check_evidence, parse_release_evidence,
  require_release_readiness, select_board,
}

-- The claims of a release fit together.
pub record IsConsistent (signature_verified : Bool) (e : ReleaseEvidence) : Type 0 where
  pub ready_iff :
      e.production_ready
      ≡ (e.controls_verified && (e.client_signature_verified && all_flags e.hardware_attested))
  pub signature_is : e.client_signature_verified ≡ signature_verified
  pub boards : has_exactly (keys e.hardware_attested) (v1 ∷ v2 ∷ []) ≡ true
  pub ready_no_blocker : e.production_ready ≡ true → e.trust_blocker ≡ []
  pub blocker_if_not_ready : e.production_ready ≡ false → (e.trust_blocker == []) ≡ false

keys-attested_flags :
    (d : Fields) (flags : Dict Text Bool) → attested_flags d ≡ ok flags → field_names d ≡ keys flags
unfolding attested_flags
keys-attested_flags end flags h = ap keys (ok-injective [] flags h)
keys-attested_flags (field k (boolean b) d) flags h =
    let (rest, others, h₁) = >>=-eq-ok (attested_flags d) _ h in
    subst (λ (l : Dict Text Bool). k ∷ field_names d ≡ keys l) (ok-injective _ flags h₁)
      (ap (λ (l : List Text). k ∷ l) (keys-attested_flags d rest others))
keys-attested_flags (field k null d) flags h = cc
keys-attested_flags (field k _ d) flags h = cc

check_evidence-IsConsistent :
    (ready controls signature : Bool) (attested : Dict Text Bool) (blocker : Text)
    (e : ReleaseEvidence) (signature_verified : Bool)
    → check_evidence ready controls signature attested blocker ≡ ok e
    → signature ≡ signature_verified
    → has_exactly (keys attested) (v1 ∷ v2 ∷ []) ≡ true
    → IsConsistent signature_verified e
unfolding check_evidence
check_evidence-IsConsistent ready controls signature attested blocker e signed h s b =
    let test₁ = not (same ready (controls && (signature && all_flags attested))) in
    let (_, a₁, h₁) = >>=-eq-ok (raise_if test₁ inconsistent) _ h in
    let (_, a₂, h₂) = >>=-eq-ok (raise_if (ready && not (blocker == [])) blocker_declared) _ h₁ in
    let (_, a₃, h₃) = >>=-eq-ok (raise_if (not ready && blocker == []) blocker_missing) _ h₂ in
    subst (IsConsistent signed) (ok-injective _ e h₃) (record {
      ready_iff = ground arith;
      signature_is = s;
      boards = b;
      ready_no_blocker = λ r. ground arith;
      blocker_if_not_ready = λ r. ground arith;
    })

eq_of_same : (a b : Bool) (e : InstallError) → raise_if (not (same a b)) e ≡ ok tt → a ≡ b
eq_of_same a b e h = ground arith

true_of_passed : (b : Bool) (e : InstallError) → raise_if (not b) e ≡ ok tt → b ≡ true
true_of_passed b e h = ground arith

-- Evidence that parses is consistent: it is production-ready exactly if the controls, the signature
-- and both boards are attested, its signature flag is the one that was checked, and it states a
-- blocker exactly if it is not ready.
pub parse_release_evidence-IsConsistent :
    (raw : Json) (signature_verified : Bool) (e : ReleaseEvidence)
    → parse_release_evidence raw signature_verified ≡ ok e
    → IsConsistent signature_verified e
unfolding parse_release_evidence
parse_release_evidence-IsConsistent raw signed e h =
    let (d, _, h₁) = >>=-eq-ok (fields_of evidence_invalid raw) _ h in
    let (_, _, h₂) =
      >>=-eq-ok (raise_if (not (has_exactly (field_names d) evidence_names)) evidence_invalid) _
        h₁ in
    let (ready_raw, _, h₃) = >>=-eq-ok (item (codes "production_ready") d) _ h₂ in
    let (controls_raw, _, h₄) = >>=-eq-ok (item (codes "controls_verified") d) _ h₃ in
    let (signature_raw, _, h₅) = >>=-eq-ok (item (codes "client_signature_verified") d) _ h₄ in
    let (ready, _, h₆) = >>=-eq-ok (flag_of ready_raw) _ h₅ in
    let (controls, _, h₇) = >>=-eq-ok (flag_of controls_raw) _ h₆ in
    let (signature, _, h₈) = >>=-eq-ok (flag_of signature_raw) _ h₇ in
    let (_, agrees, h₉) = >>=-eq-ok (raise_if (not (same signature signed)) contradictory) _ h₈ in
    let (attested_raw, _, k₁) = >>=-eq-ok (item (codes "hardware_attested") d) _ h₉ in
    let (boards, _, k₂) = >>=-eq-ok (fields_of hardware_evidence attested_raw) _ k₁ in
    let (_, both, k₃) =
      >>=-eq-ok (raise_if (not (has_exactly (field_names boards) (v1 ∷ v2 ∷ []))) hardware_evidence)
        _ k₂ in
    let (attested, flags, k₄) = >>=-eq-ok (attested_flags boards) _ k₃ in
    let (blocker_raw, _, k₅) = >>=-eq-ok (item (codes "trust_blocker") d) _ k₄ in
    let (blocker, _, k₆) = >>=-eq-ok (blocker_of blocker_raw) _ k₅ in
    check_evidence-IsConsistent ready controls signature attested blocker e signed k₆
      (eq_of_same signature signed contradictory agrees)
      (subst (λ (names : List Text). has_exactly names (v1 ∷ v2 ∷ []) ≡ true)
        (keys-attested_flags boards attested flags)
        (true_of_passed (has_exactly (field_names boards) (v1 ∷ v2 ∷ [])) hardware_evidence both))

lookup-all_flags :
    (k : Text) (d : Dict Text Bool)
    → all_flags d ≡ true
    → contains (keys d) k ≡ true
    → lookup k d ≡ some true
unfolding all_flags lookup
lookup-all_flags k [] h c = cc
lookup-all_flags k ((j, b) ∷ d) h c = ground (arith, lookup-all_flags k d)

has_both :
    (l : List Text)
    → has_exactly l (v1 ∷ v2 ∷ []) ≡ true
    → (contains l v1 ≡ true) × (contains l v2 ≡ true)
unfolding has_exactly
has_both l h = ground arith

-- For a board of the manifest, and evidence that was parsed with the manifest's signature, the gate
-- opens exactly if the evidence is production-ready.
pub require_release_readiness_iff :
    (m : FirmwareManifest) (board : Text)
    → IsConsistent m.signature_verified m.evidence
    → contains (keys m.variants) board ≡ true
    → (board ≡ v1) ⊎ (board ≡ v2)
    → (require_release_readiness m board false ≡ ok tt) ↔ (m.evidence.production_ready ≡ true)
unfolding require_release_readiness
require_release_readiness_iff m board c known which =
    let (one, two) = has_both (keys m.evidence.hardware_attested) c.boards in
    let present : contains (keys m.evidence.hardware_attested) board ≡ true = elim which [
      | inl e ↦ rw e one
      | inr e ↦ rw e two
    ] in
    (λ h. ground arith, λ h. ground (arith, lookup-all_flags board m.evidence.hardware_attested))

-- What the user says for a board: its number or its name.
abbrev pub Names : Text → Text → Type 0
Names said board =
    ((board ≡ v1) × ((said ≡ codes "1") ⊎ (said ≡ v1)))
    ⊎ ((board ≡ v2) × ((said ≡ codes "2") ⊎ (said ≡ v2)))

names_one :
    (said : Text) → contains (codes "1" ∷ v1 ∷ []) said ≡ true → (said ≡ codes "1") ⊎ (said ≡ v1)
names_one said h = ground arith

names_two :
    (said : Text) → contains (codes "2" ∷ v2 ∷ []) said ≡ true → (said ≡ codes "2") ⊎ (said ≡ v2)
names_two said h = ground arith

-- A board is selected only if it is v1 or v2 and it was requested or, if none was requested and the
-- call is interactive, the answer without the space around it and in lower case is the number or the
-- name of this board: 1 or v1 for v1, 2 or v2 for v2.
pub select_board_explicit :
    (m : FirmwareManifest) (requested : Option Text) (interactive : Bool) (answer board : Text)
    → select_board m requested interactive answer ≡ ok board
    → ((board ≡ v1) ⊎ (board ≡ v2))
      × ((requested ≡ some board)
          ⊎ ((requested ≡ none)
              × ((interactive ≡ true) × Names (map to_lower (strip answer)) board)))
unfolding select_board
select_board_explicit m requested interactive answer board h =
    ground (arith, names_one (map to_lower (strip answer)), names_two (map to_lower (strip answer)))
