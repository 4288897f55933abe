-- ===== src/Inspection/Chassis.antt =====
-- What a node's manufacturer and product say: the hooks of
-- python/ironic-understack/ironic_understack/inspect_hook_chassis_model.py and
-- python/ironic-understack/ironic_understack/inspect_hook_node_name_check.py.
-- A product name has no line feed, which `.` of the pattern would not match.
pub mod Overwrites
use understack.Prelude.{
  ℕ, Bool, true, false, not, ◌&&◌, ◌||◌, ◌==◌, if◌then◌else◌, List, [], ◌∷◌, ◌++◌, map, filter,
  is_some, Option, none, some, Text, codes, text_eq, opt_text_eq, upper, split_last, Result, ok,
  err, ◌>>=◌, ◌>>◌,
}
use understack.Inspection.Ports.{drop_prefix}

-- inventory["system_vendor"], as far as it is read.
pub record SystemVendor : Type 0 where
  pub product_name : Option Text
  pub manufacturer : Option Text
  pub serial_number : Option Text

-- InvalidNodeInventory, with the key, and the RuntimeError of a wrong node name.
pub data Error : Type 0 where
  missing : Text → Error
  identity_crisis : Error

abbrev pub present : Text → Option Text → Result Error Text
present key none = err (missing key)
present key (some value) = ok value

-- `part in s`
unfoldable pub has_part : Text → Text → Bool
has_part part [] = is_some (drop_prefix part [])
has_part part (c ∷ s) = is_some (drop_prefix part (c ∷ s)) || has_part part s

-- `s.replace(" ", "_")`
unfoldable pub underscored : Text → Text
underscored = map (λ c. if c == b' ' then b'_' else c)

-- What follows a match of " \(.*\)" at the start.
unfoldable pub after_parens : Text → Option Text
after_parens (a ∷ b ∷ s) =
    if (a == b' ') && (b == b'(')
    then elim (split_last b')' s) [ none ↦ none | some (inside, after) ↦ some after ]
    else none
after_parens _ = none

-- `re.sub(r" \(.*\)", "", s)`: the match takes the last parenthesis, so there is one at most.
unfoldable pub without_parens : Text → Text
without_parens [] = []
without_parens (c ∷ s) = elim (after_parens (c ∷ s)) [
  | some after ↦ after
  | none ↦ c ∷ without_parens s
]

unfoldable pub extract_chassis_model : SystemVendor → Result Error Text
extract_chassis_model vendor = do
  name ← present (codes "product_name") vendor.product_name
  ok (without_parens name)

-- "Dell", "HP", or the name without spaces; `_manufacturer_slug` is the same.
unfoldable pub manufacturer_slug : Text → Text
manufacturer_slug name =
    if has_part (codes "DELL") (upper name)
    then codes "Dell"
    else if has_part (codes "HP") (upper name)
    then codes "HP"
    else underscored name

unfoldable pub extract_manufacturer : SystemVendor → Result Error Text
extract_manufacturer vendor = do
  name ← present (codes "manufacturer") vendor.manufacturer
  ok (manufacturer_slug name)

unfoldable pub chassis_trait_name : Text → Text → Text
chassis_trait_name manufacturer chassis_model =
    underscored (upper (manufacturer ++ (b'_' ∷ chassis_model)))

abbrev pub starts_with : Text → Text → Bool
starts_with s prefix = is_some (drop_prefix prefix s)

-- The set of traits afterwards. The code compares it with a list, and so writes it always.
unfoldable pub set_prefixed_traits : Text → Text → List Text → List Text
set_prefixed_traits prefix required existing =
    filter (λ t. not (starts_with t prefix)) existing ++ (prefix ++ required) ∷ []

-- `InspectHookChassisModel.__call__`
unfoldable pub set_chassis_trait : SystemVendor → List Text → Result Error (List Text)
set_chassis_trait vendor existing = do
  chassis_model ← extract_chassis_model vendor
  manufacturer ← extract_manufacturer vendor
  ok (
      set_prefixed_traits (codes "CUSTOM_") (chassis_trait_name manufacturer chassis_model)
        existing)

-- `InspectHookNodeNameCheck.__call__`. The name is compared with the manufacturer as it is in the
-- inventory; its slug is only in the message.
unfoldable pub check_node_name : Option Text → SystemVendor → Result Error Unit
check_node_name node_name vendor = do
  serial_number ← present (codes "serial_number") vendor.serial_number
  manufacturer ← present (codes "manufacturer") vendor.manufacturer
  if opt_text_eq node_name (some (manufacturer ++ (b'_' ∷ serial_number)))
      then ok tt
      else err identity_crisis
