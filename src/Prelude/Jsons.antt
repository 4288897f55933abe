-- ===== src/Prelude/Jsons.antt =====
-- The values that `json.loads` returns. Numbers are integers: no code here computes with a float.

use mathlib.Core.Bool.{Bool, true, false, not}
use mathlib.Core.List.{List, [], ◌∷◌}
use understack.Prelude.Numbers.{if◌then◌else◌, ℤ, pos, negsuc, ◌==◌}
use understack.Prelude.Texts.{Text, text_eq}

mutual
  pub data Json : Type 0 where
    null : Json
    bool : Bool → Json
    num : ℤ → Json
    str : Text → Json
    arr : Items → Json
    obj : Fields → Json

  pub data Items : Type 0 where
    no_items : Items
    item : Json → Items → Items

  pub data Fields : Type 0 where
    no_fields : Fields
    field : Text → Json → Fields → Fields

-- `bool(value)`
abbrev pub is_truthy : Json → Bool
is_truthy null = false
is_truthy (bool b) = b
is_truthy (num (pos n)) = not (n == 0)
is_truthy (num (negsuc n)) = true
is_truthy (str []) = false
is_truthy (str (c ∷ s)) = true
is_truthy (arr no_items) = false
is_truthy (arr (item x xs)) = true
is_truthy (obj no_fields) = false
is_truthy (obj (field k v fs)) = true

abbrev pub is_str : Json → Bool
is_str (str s) = true
is_str _ = false

-- `entry.get(key)`; a missing key gives None
unfoldable pub get_field : Text → Fields → Json
get_field k no_fields = null
get_field k (field j v fs) = if text_eq j k then v else get_field k fs

unfoldable pub field_names : Fields → List Text
field_names no_fields = []
field_names (field k v fs) = k ∷ field_names fs

abbrev pub text_of : Json → Text
text_of (str s) = s
text_of _ = []
