-- ===== src/Netdev/Enroll/Metadata.antt =====
-- The metadata of a node: `_has_cmdb_id` and the updates that `update_node_metadata` makes, of
-- python/understack-workflows/understack_workflows/netdev_reconciler.py.
use understack.Prelude.{
  Bool, true, false, if◌then◌else◌, List, [], ◌∷◌, ◌++◌, Option, none, some, Text, codes,
  opt_text_eq, Dict, get, put,
}
use understack.Netdev.Enroll.Calls.{
  Meta, text, number, meta_eq, Node, Update, set_resource_class, set_driver_info, set_extra,
}

-- `_has_cmdb_id`
unfoldable pub has_cmdb_id : Option Meta → Bool
has_cmdb_id none = false
has_cmdb_id (some (text [])) = false
has_cmdb_id (some (text (c ∷ s))) = true
has_cmdb_id (some (number n)) = true

unfoldable pub with_cmdb_id : Option Meta → Dict Meta → Dict Meta
with_cmdb_id none extra = extra
with_cmdb_id (some id) extra =
    if has_cmdb_id (some id) then put (codes "external_cmdb_id") id extra else extra

abbrev pub meta_or_empty : Option (Dict Meta) → Dict Meta
meta_or_empty none = []
meta_or_empty (some d) = d

unfoldable pub is_current : Option Meta → Meta → Bool
is_current none value = false
is_current (some current) value = meta_eq current value

-- The updates of the keys whose value differs from the node's.
unfoldable pub meta_updates : (Text → Meta → Update) → Dict Meta → Dict Meta → List Update
meta_updates set current [] = []
meta_updates set current ((key, value) ∷ wanted) =
    let rest = meta_updates set current wanted in
    if is_current (get key current) value then rest else set key value ∷ rest

unfoldable pub metadata_updates : Node → Text → Dict Meta → Dict Meta → List Update
metadata_updates node resource_class driver_info extra =
    (if opt_text_eq node.resource_class (some resource_class)
      then []
      else set_resource_class resource_class ∷ [])
    ++ (meta_updates set_driver_info (meta_or_empty node.driver_info) driver_info
        ++ meta_updates set_extra (meta_or_empty node.extra) extra)
