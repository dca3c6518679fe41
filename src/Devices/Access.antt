-- ===== src/Devices/Access.antt =====
-- Who may read after `add`, `rotate` and `set_enabled` of auth.py.
use coinbase_amoled_terminal.Prelude.{
  ◌≡◌, inl, inr, Bool, false, ◌&&◌, Option, some, ◌==◌, if◌then◌else◌, ok, arith, Option-cases,
  Result-cases, list_eq, nat_eq,
}
use coinbase_amoled_terminal.Prelude.Text.{Text}
use coinbase_amoled_terminal.Prelude.Dict.{Dict, lookup, insert, lookup-insert}
use coinbase_amoled_terminal.Devices.Changes.{prepare_rotate_old}
use coinbase_amoled_terminal.Devices.Manager.{
  Device, World, Faults, is_device_id, is_device_token, validate_device_id, prepare_rotate, rotate,
  set_enabled, authenticate,
}

module _ (is_protected is_other_kind : Text → Bool) (default_path token_digest : Text → Text) where
  -- What a table answers to a device that it has just been given.
  authenticate-insert :
      (k candidate token : Text) (d : Device) (devices : Dict Text Device)
      → authenticate token_digest (insert candidate d devices) k token ≡ (
          if k == candidate
          then is_device_id k
            && (is_device_token token && (d.enabled && token_digest token == d.token_sha256))
          else authenticate token_digest devices k token)
  unfolding authenticate
  authenticate-insert k candidate token d devices =
      rw (authenticate, lookup-insert k candidate d devices) (ground arith)

  set_enabled_table :
      (device_id : Text) (enabled : Bool) (now : Text) (f : Faults) (w : World) (candidate : Text)
      → (set_enabled is_protected is_other_kind default_path token_digest device_id enabled now f
          w).0
        ≡ ok candidate
      → (d : Device) × ((set_enabled is_protected is_other_kind default_path token_digest device_id
            enabled now f w).1.devices
          ≡ insert candidate (record d { enabled = enabled; updated_at = now }) w.devices)
  unfolding set_enabled
  set_enabled_table device_id enabled now f w candidate h =
      elim (Result-cases (validate_device_id device_id)) [
        | inr (e, bad) ↦ ground arith
        | inl (c, good) ↦ elim (Option-cases (lookup c w.devices)) [
          | inl absent ↦ ground arith
          | inr (d, there) ↦ (d, ground arith)
        ]
      ]

  -- A device that is disabled is refused with every token, and no other device is affected.
  pub disabled_refused :
      (device_id now : Text) (f : Faults) (w : World) (candidate k token : Text)
      → (set_enabled is_protected is_other_kind default_path token_digest device_id false now f w).0
        ≡ ok candidate
      → authenticate token_digest
          (set_enabled is_protected is_other_kind default_path token_digest device_id false now f
            w).1.devices
          k
          token
        ≡ (if k == candidate then false else authenticate token_digest w.devices k token)
  disabled_refused device_id now f w candidate k token h =
      let (d, table) = set_enabled_table device_id false now f w candidate h in
      rw table (
        rw
          (authenticate-insert k candidate token (record d { enabled = false; updated_at = now })
            w.devices)
          (ground arith))

  rotate_table :
      (device_id : Text) (token_path : Option Text) (replace : Bool) (token now : Text) (f : Faults)
      (w : World) (candidate : Text)
      → (rotate is_protected is_other_kind default_path token_digest device_id token_path replace
          token now f w).0
        ≡ ok candidate
      → (old : Device) × (lookup candidate w.devices ≡ some old)
        × ((rotate is_protected is_other_kind default_path token_digest device_id token_path replace
              token now f w).1.devices
            ≡ insert candidate
                (record old { token_sha256 = token_digest token; updated_at = now })
                w.devices)
  unfolding rotate
  rotate_table device_id token_path replace token now f w candidate h =
      elim (Result-cases (
        prepare_rotate is_protected is_other_kind default_path token_digest device_id token_path
          replace w)) [
            | inr (e, bad) ↦ ground arith
            | inl ((c, path, old), ready) ↦
                let listed =
                  prepare_rotate_old is_protected is_other_kind default_path token_digest device_id
                    token_path replace w c path old ready in
                (old, ground arith, ground arith)
          ]

  -- After a rotation the device is known, it is let in with the tokens whose digest is that of the new
  -- token if it is enabled, and with no other token; no other device is affected.
  pub rotated_access :
      (device_id : Text) (token_path : Option Text) (replace : Bool) (token now : Text) (f : Faults)
      (w : World) (candidate k t : Text)
      → (rotate is_protected is_other_kind default_path token_digest device_id token_path replace
          token now f w).0
        ≡ ok candidate
      → (old : Device) × (lookup candidate w.devices ≡ some old)
        × (authenticate token_digest
              (rotate is_protected is_other_kind default_path token_digest device_id token_path
                replace token now f w).1.devices
              k
              t
            ≡ (if k == candidate
                then is_device_id k
                  && (is_device_token t && (old.enabled && token_digest t == token_digest token))
                else authenticate token_digest w.devices k t))
  rotated_access device_id token_path replace token now f w candidate k t h =
      let (old, listed, table) =
        rotate_table device_id token_path replace token now f w candidate h in
      (
        old,
        listed,
        rw table (
            authenticate-insert k candidate t
              (record old { token_sha256 = token_digest token; updated_at = now }) w.devices),
      )
