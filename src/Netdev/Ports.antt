-- ===== src/Netdev/Ports.antt =====
-- The requested ports: `NetdevPort`, `parse_ports_arg` and `build_netdev_ports` of
-- python/understack-workflows/understack_workflows/netdev_reconciler.py.
pub mod Checked
pub mod Accepts
use understack.Prelude.{
  ℕ, ◌+◌, Bool, true, false, not, ◌&&◌, ◌||◌, if◌then◌else◌, List, [], ◌∷◌, is_nil, filter, Option,
  none, some, Text, codes, lower, Result, ok, err, ◌>>=◌, ◌>>◌, raise_if, contains, sorted, Json,
  null, str, arr, obj, Items, no_items, item, Fields, is_truthy, is_str, get_field, field_names,
  text_of,
}

pub record NetdevPort : Type 0 where
  pub label : Text
  pub mac : Text
  pub switch : Text
  pub interface : Text
  pub switch_id : Option Text

-- The ValueErrors; the numbers are those of the entries, from 1.
pub data Invalid : Type 0 where
  not_json not_array no_ports : Invalid
  not_object : ℕ → Invalid
  missing_fields non_string_fields unknown_fields : ℕ → List Text → Invalid
  bad_switch_id : ℕ → Json → Invalid
  duplicate_label duplicate_mac : Text → Invalid

abbrev pub required_port_fields : List Text
required_port_fields = codes "label" ∷ codes "mac" ∷ codes "switch" ∷ codes "intf" ∷ []

abbrev pub allowed_port_fields : List Text
allowed_port_fields =
    codes "label" ∷ codes "mac" ∷ codes "switch" ∷ codes "intf" ∷ codes "switch_id" ∷ []

unfoldable pub items : Items → List Json
items no_items = []
items (item x xs) = x ∷ items xs

-- `loads` is `json.loads`, with `none` for a JSONDecodeError.
unfoldable pub parse_ports_arg : (Text → Option Json) → Text → Result Invalid (List Json)
unfolding items
parse_ports_arg loads raw = elim (loads raw) [
  | none ↦ err not_json
  | some value ↦ elim value [ arr xs ↦ ok (items xs) | _ ↦ err not_array ]
]

unfoldable pub missing : Fields → List Text
unfolding filter get_field
missing entry = filter (λ key. not (is_truthy (get_field key entry))) required_port_fields

unfoldable pub non_string : Fields → List Text
unfolding filter get_field
non_string entry = filter (λ key. not (is_str (get_field key entry))) required_port_fields

unfoldable pub unknown : Fields → List Text
unfolding filter field_names contains sorted
unknown entry = sorted (filter (λ key. not (contains key allowed_port_fields)) (field_names entry))

abbrev pub none_or_str : Json → Bool
none_or_str null = true
none_or_str (str s) = true
none_or_str _ = false

abbrev pub optional_text : Json → Option Text
optional_text (str s) = some s
optional_text _ = none

unfoldable pub to_port : Fields → NetdevPort
unfolding get_field
to_port entry = record {
  label = text_of (get_field (codes "label") entry);
  mac = text_of (get_field (codes "mac") entry);
  switch = text_of (get_field (codes "switch") entry);
  interface = text_of (get_field (codes "intf") entry);
  switch_id = optional_text (get_field (codes "switch_id") entry);
}

-- The tests on one entry, in the order of the loop's body, before those against earlier entries.
unfoldable pub check_entry : ℕ → Fields → Result Invalid NetdevPort
unfolding missing non_string unknown get_field to_port
check_entry index entry = do
  raise_if (not (is_nil (missing entry))) (missing_fields index (missing entry))
  raise_if (not (is_nil (non_string entry))) (non_string_fields index (non_string entry))
  let switch_id = get_field (codes "switch_id") entry
  raise_if (not (none_or_str switch_id)) (bad_switch_id index switch_id)
  raise_if (not (is_nil (unknown entry))) (unknown_fields index (unknown entry))
  ok (to_port entry)

abbrev pub as_object : ℕ → Json → Result Invalid Fields
as_object index (obj entry) = ok entry
as_object index _ = err (not_object index)

-- The loop of `build_netdev_ports`; the keys of MACs are in lower case.
unfoldable pub build_from : ℕ → List Text → List Text → List Json → Result Invalid (List NetdevPort)
unfolding check_entry contains lower
build_from index seen_labels seen_macs [] = ok []
build_from index seen_labels seen_macs (value ∷ values) = do
  entry ← as_object index value
  port ← check_entry index entry
  raise_if (contains port.label seen_labels) (duplicate_label port.label)
  raise_if (contains (lower port.mac) seen_macs) (duplicate_mac port.mac)
  ports ← build_from (index + 1) (port.label ∷ seen_labels) (lower port.mac ∷ seen_macs) values
  ok (port ∷ ports)

unfoldable pub build_netdev_ports : List Json → Result Invalid (List NetdevPort)
unfolding build_from
build_netdev_ports ports = do raise_if (is_nil ports) no_ports; build_from 1 [] [] ports
