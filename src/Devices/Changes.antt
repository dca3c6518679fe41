-- ===== src/Devices/Changes.antt =====
-- What `add` and `rotate` of auth.py leave behind when they fail.
use coinbase_amoled_terminal.Prelude.{
  ◌≡◌, refl, inl, inr, Bool, false, not, ◌&&◌, Option, some, ◌++◌, ◌==◌, contains, ok, err,
  raise_if, arith, Option-cases, Result-cases, >>=-eq-ok, list_eq, nat_eq,
}
use coinbase_amoled_terminal.Prelude.Text.{Text, codes}
use coinbase_amoled_terminal.Prelude.Dict.{
  Dict, lookup, insert, erase, keys, lookup-insert, lookup-erase, lookup_of_absent,
}
use coinbase_amoled_terminal.Devices.Manager.{
  Device, World, DeviceError, Faults, invalid_token, token_exists, custom_exists, is_device_token,
  validate_device_id, safe_text, validate_destination, destination_of, prepare_add, commit_add, add,
  prepare_rotate, commit_rotate, rotate, given,
}

-- The same devices and the same token files.
pub record Same (w w' : World) : Type 0 where
  pub devices : (k : Text) → lookup k w'.devices ≡ lookup k w.devices
  pub files : (p : Text) → lookup p w'.files ≡ lookup p w.files

Same-refl : (w : World) → Same w w
Same-refl w = record { devices = λ k. refl; files = λ p. refl }

-- A file that was not there, written and removed.
write_remove :
    (p path content : Text) (files : Dict Text Text)
    → contains (keys files) path ≡ false
    → lookup p (erase path (insert path content files)) ≡ lookup p files
write_remove p path content files h =
    rw (lookup-erase p path (insert path content files), lookup-insert p path content files)
      (ground (arith, lookup_of_absent path files h))

-- A record that is replaced and put back.
put_back_device :
    (k candidate : Text) (fresh old : Device) (d : Dict Text Device)
    → lookup candidate d ≡ some old
    → lookup k (insert candidate old (insert candidate fresh d)) ≡ lookup k d
put_back_device k candidate fresh old d h =
    rw (lookup-insert k candidate old (insert candidate fresh d), lookup-insert k candidate fresh d)
      (ground arith)

put_back_file :
    (p path content : Text) (files : Dict Text Text)
    → lookup path files ≡ some content
    → lookup p (insert path content files) ≡ lookup p files
put_back_file p path content files h = rw (lookup-insert p path content files) (ground arith)

module _ (is_protected is_other_kind : Text → Bool) (default_path token_digest : Text → Text) where
  prepare_add_free :
      (device_id label : Text) (token_path : Option Text) (token : Text) (w : World)
      (candidate clean path : Text)
      → prepare_add is_protected is_other_kind default_path token_digest device_id label token_path
          token w
        ≡ ok (candidate, clean, path)
      → contains (keys w.files) path ≡ false
  unfolding prepare_add
  prepare_add_free device_id label token_path token w candidate clean path h =
      let (c, _, h₁) = >>=-eq-ok (validate_device_id device_id) _ h in
      let (l, _, h₂) = >>=-eq-ok (safe_text label 80) _ h₁ in
      let at = destination_of is_protected is_other_kind default_path token_digest token_path c in
      let (_, _, h₃) =
        >>=-eq-ok (validate_destination is_protected is_other_kind default_path token_digest at) _
          h₂ in
      let (_, _, h₄) = >>=-eq-ok (raise_if (not (is_device_token token)) invalid_token) _ h₃ in
      let (_, free, h₅) = >>=-eq-ok (raise_if (contains (keys w.files) at) token_exists) _ h₄ in
      ground arith

  commit_add_undone :
      (candidate label path token now : Text) (f : Faults) (w : World) (e : DeviceError)
      → contains (keys w.files) path ≡ false
      → f.unlink ≡ false
      → (commit_add is_protected is_other_kind default_path token_digest candidate label path token
          now f w).0
        ≡ err e
      → Same w
          (commit_add is_protected is_other_kind default_path token_digest candidate label path
            token now f w).1
  unfolding commit_add
  commit_add_undone candidate label path token now f w e free gone h = record {
    devices = λ k. ground arith;
    files = λ p. ground (arith, write_remove p path (token ++ codes "\n") w.files free);
  }

  -- An `add` that raises, whatever write of it fails, leaves the devices and the token files as they
  -- were, if the removal of the token file that it wrote does not fail.
  pub add_undone :
      (device_id label : Text) (token_path : Option Text) (token now : Text) (f : Faults)
      (w : World) (e : DeviceError)
      → f.unlink ≡ false
      → (add is_protected is_other_kind default_path token_digest device_id label token_path token
          now f w).0
        ≡ err e
      → Same w
          (add is_protected is_other_kind default_path token_digest device_id label token_path token
            now f w).1
  unfolding add
  add_undone device_id label token_path token now f w e gone =
      elim (Result-cases (
        prepare_add is_protected is_other_kind default_path token_digest device_id label token_path
          token w)) [
            | inr (x, refused) ↦ rw (refused, add) (λ h. Same-refl w)
            | inl ((c, l, path), ready) ↦
                rw (ready, add)
                  (commit_add_undone c l path token now f w e
                    (prepare_add_free device_id label token_path token w c l path ready) gone)
          ]

  pub prepare_rotate_old :
      (device_id : Text) (token_path : Option Text) (replace : Bool) (w : World)
      (candidate path : Text) (old : Device)
      → prepare_rotate is_protected is_other_kind default_path token_digest device_id token_path
          replace w
        ≡ ok (candidate, path, old)
      → lookup candidate w.devices ≡ some old
  unfolding prepare_rotate
  prepare_rotate_old device_id token_path replace w candidate path old h =
      let (c, _, h₁) = >>=-eq-ok (validate_device_id device_id) _ h in
      let at = destination_of is_protected is_other_kind default_path token_digest token_path c in
      let (_, _, h₂) =
        >>=-eq-ok (validate_destination is_protected is_other_kind default_path token_digest at) _
          h₁ in
      let (_, _, h₃) =
        >>=-eq-ok
          (raise_if
            (given is_protected is_other_kind default_path token_digest token_path
              && (contains (keys w.files) at && (not (at == default_path c) && not replace)))
            custom_exists)
          _ h₂ in
      ground arith

  commit_rotate_undone :
      (candidate path token now : Text) (old : Device) (f : Faults) (w : World) (e : DeviceError)
      → lookup candidate w.devices ≡ some old
      → f.rollback ≡ false
      → f.restore ≡ false
      → (commit_rotate is_protected is_other_kind default_path token_digest candidate path old token
          now f w).0
        ≡ err e
      → Same w
          (commit_rotate is_protected is_other_kind default_path token_digest candidate path old
            token now f w).1
  unfolding commit_rotate
  commit_rotate_undone candidate path token now old f w e listed a b h =
      let fresh = record old { token_sha256 = token_digest token; updated_at = now } in
      record {
        devices = λ k. ground (arith, put_back_device k candidate fresh old w.devices listed);
        files = λ p. elim (Option-cases (lookup path w.files)) [
          | inl none_there ↦ ground arith
          | inr (content, there) ↦ ground (arith, put_back_file p path content w.files there)
        ];
      }

  -- A `rotate` that raises, and whose rollback meets no fault of its own, leaves the devices and the
  -- token files as they were.
  pub rotate_undone :
      (device_id : Text) (token_path : Option Text) (replace : Bool) (token now : Text) (f : Faults)
      (w : World) (e : DeviceError)
      → f.rollback ≡ false
      → f.restore ≡ false
      → (rotate is_protected is_other_kind default_path token_digest device_id token_path replace
          token now f w).0
        ≡ err e
      → Same w
          (rotate is_protected is_other_kind default_path token_digest device_id token_path replace
            token now f w).1
  unfolding rotate
  rotate_undone device_id token_path replace token now f w e a b =
      elim (Result-cases (
        prepare_rotate is_protected is_other_kind default_path token_digest device_id token_path
          replace w)) [
            | inr (x, refused) ↦ rw (refused, rotate) (λ h. Same-refl w)
            | inl ((c, path, old), ready) ↦
                rw (ready, rotate)
                  (commit_rotate_undone c path token now old f w e
                    (prepare_rotate_old device_id token_path replace w c path old ready) a b)
          ]
