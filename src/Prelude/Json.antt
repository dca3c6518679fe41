-- ===== src/Prelude/Json.antt =====
-- What `json.loads` returns. A float shows only the integer that it equals, if it equals one.
use mathlib.Core.Bool.{Bool, true, false, ◌&&◌}
use mathlib.Core.Option.{Option, none, some}
use mathlib.Core.List.{List, [], ◌∷◌}
use coinbase_amoled_terminal.Prelude.Tests.{◌==◌, contains, if◌then◌else◌, list_eq, nat_eq}
use coinbase_amoled_terminal.Prelude.Lists.{all}
use coinbase_amoled_terminal.Prelude.Text.{Text}
use coinbase_amoled_terminal.Prelude.Int.{ℤ, pos, int_eq}

mutual
  pub data Json : Type 0 where
    null : Json
    boolean : Bool → Json
    integer : ℤ → Json
    real : Option ℤ → Json
    text : Text → Json
    array : Items → Json
    object : Fields → Json

  pub data Items : Type 0 where
    nil : Items
    cons : Json → Items → Items

  pub data Fields : Type 0 where
    end : Fields
    field : Text → Json → Fields → Fields

-- `isinstance(value, int) and not isinstance(value, bool)`
abbrev pub whole : Json → Option ℤ
whole (integer n) = some n
whole _ = none

-- `value == n` for an integer `n`: `True` equals 1, and a float may equal an integer.
abbrev pub equals_int : Json → ℤ → Bool
equals_int (boolean true) n = n == pos 1
equals_int (boolean false) n = n == pos 0
equals_int (integer m) n = m == n
equals_int (real (some m)) n = m == n
equals_int _ n = false

abbrev pub equals_text : Json → Text → Bool
equals_text (text s) t = s == t
equals_text _ t = false

-- `d.get(key)`
unfoldable pub get : Text → Fields → Option Json
get k end = none
get k (field j v d) = let rest = get k d in if k == j then some v else rest

abbrev pub field_names : Fields → List Text
field_names end = []
field_names (field k v d) = k ∷ field_names d

-- `set(d) == {…}`
unfoldable pub has_exactly : List Text → List Text → Bool
has_exactly names expected = all (contains expected) names && all (contains names) expected

abbrev pub to_list : Items → List Json
to_list nil = []
to_list (cons v items) = v ∷ to_list items
