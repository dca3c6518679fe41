-- ===== src/Tests/Displays.antt =====
-- The devices of auth.py at concrete inputs, with a digest that reverses the token.
use coinbase_amoled_terminal.Prelude.Slices.{strip_prefix}
use mathlib.Core.List.{reverse}
use coinbase_amoled_terminal.Prelude.{
  ◌≡◌, refl, Bool, true, false, ◌&&◌, none, some, [], ◌∷◌, ◌++◌, ok, err, ◌==◌, if◌then◌else◌,
  replicate, list_eq, nat_eq, ℕ_discrete,
}
use coinbase_amoled_terminal.Prelude.Text.{Text, codes, strip}
use coinbase_amoled_terminal.Prelude.Dict.{lookup}
use coinbase_amoled_terminal.Devices.Manager.{
  Device, World, Faults, store_failed, write_failed, is_device_id, is_device_token, add, rotate,
  set_enabled, authenticate,
}
use coinbase_amoled_terminal.Devices.Changes.{Same, add_undone, rotate_undone}
use coinbase_amoled_terminal.Devices.Access.{disabled_refused, rotated_access}

abbrev nowhere : Text → Bool
nowhere _ = false

abbrev path_for : Text → Text
path_for device_id = codes "devices/" ++ (device_id ++ codes ".token")

abbrev display : Text
display = codes "display-0001"

abbrev token_of : Text → Text
token_of c = codes "cbat_" ++ (replicate 42 b'A' ++ c)

abbrev old_device : Device
old_device = record {
  token_sha256 = reverse (token_of (codes "1"));
  enabled = true;
  created_at = codes "t0";
  updated_at = codes "t0";
  label = [];
}

abbrev world : World
world = record {
  devices = (display, old_device) ∷ [];
  files = (path_for display, token_of (codes "1") ++ codes "\n") ∷ [];
}

abbrev faults : Bool → Bool → Faults
faults update write = record {
  update = update;
  write = write;
  unlink = false;
  rollback = false;
  restore = false;
}

add_test :
    (add nowhere nowhere path_for reverse
      (codes "display-0002")
      (codes "desk")
      none
      (token_of (codes "2"))
      (codes "t1")
      (faults true false)
      world).0
    ≡ err store_failed
unfolding add strip is_device_token strip_prefix list_eq nat_eq ℕ_discrete
add_test = refl

add_undone_example :
    Same world
      (add nowhere nowhere path_for reverse
        (codes "display-0002")
        (codes "desk")
        none
        (token_of (codes "2"))
        (codes "t1")
        (faults true false)
        world).1
add_undone_example =
    add_undone nowhere nowhere path_for reverse (codes "display-0002") (codes "desk") none
      (token_of (codes "2")) (codes "t1") (faults true false) world store_failed refl add_test

rotate_fails_test :
    (rotate nowhere nowhere path_for reverse display none false
      (token_of (codes "2"))
      (codes "t1")
      (faults false true)
      world).0
    ≡ err write_failed
unfolding rotate strip lookup list_eq nat_eq ℕ_discrete
rotate_fails_test = refl

rotate_undone_example :
    Same world
      (rotate nowhere nowhere path_for reverse display none false
        (token_of (codes "2"))
        (codes "t1")
        (faults false true)
        world).1
rotate_undone_example =
    rotate_undone nowhere nowhere path_for reverse display none false (token_of (codes "2"))
      (codes "t1") (faults false true) world write_failed refl refl rotate_fails_test

disable_test :
    (set_enabled nowhere nowhere path_for reverse display false
      (codes "t1")
      (faults false false)
      world).0
    ≡ ok display
unfolding set_enabled strip lookup list_eq nat_eq ℕ_discrete
disable_test = refl

disabled_refused_example :
    authenticate reverse
      (set_enabled nowhere nowhere path_for reverse display false
        (codes "t1")
        (faults false false)
        world).1.devices
      display
      (token_of (codes "1"))
    ≡ (if display == display
        then false
        else authenticate reverse world.devices display (token_of (codes "1")))
disabled_refused_example =
    disabled_refused nowhere nowhere path_for reverse display (codes "t1") (faults false false)
      world display display (token_of (codes "1")) disable_test

rotate_test :
    (rotate nowhere nowhere path_for reverse display none false
      (token_of (codes "2"))
      (codes "t1")
      (faults false false)
      world).0
    ≡ ok display
unfolding rotate strip lookup list_eq nat_eq ℕ_discrete
rotate_test = refl

rotated_access_example :
    (old : Device) × (lookup display world.devices ≡ some old)
    × (authenticate reverse
          (rotate nowhere nowhere path_for reverse display none false
            (token_of (codes "2"))
            (codes "t1")
            (faults false false)
            world).1.devices
          display
          (token_of (codes "1"))
        ≡ (if display == display
            then is_device_id display
              && (is_device_token (token_of (codes "1"))
                  && (old.enabled
                      && reverse (token_of (codes "1")) == reverse (token_of (codes "2"))))
            else authenticate reverse world.devices display (token_of (codes "1"))))
rotated_access_example =
    rotated_access nowhere nowhere path_for reverse display none false (token_of (codes "2"))
      (codes "t1") (faults false false) world display display (token_of (codes "1")) rotate_test
