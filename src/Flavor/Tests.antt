-- ===== src/Flavor/Tests.antt =====
-- Tests of the matcher and of the hook, and the theorems at concrete inputs.
use understack.Prelude.{
  ◌≡◌, ◌↔◌, refl, List, [], ◌∷◌, find?, none, some, codes, text_eq, strip, strip_left, is_space,
  split_first, ok, err,
}
use understack.Flavor.{
  DeviceType, ResourceClass, Machine, Inventory, match_machine, match_class, check_class,
  min_drive_size, least_size, found_or, machine_of, disk_size_gb, manufacturer_of, model_of,
  without_inc, starts_with_inc, set_resource_class, stored_class, classify, classified,
  unhandled_index_error, invalid_inventory,
}
use understack.Flavor.Match.{is_match, candidates, AllHaveDrives, match_machine_lem, HasDrives}
use understack.Flavor.Hook.{
  class_name, set_resource_class_lem, set_resource_class-unhandled_iff, IsDiskless,
}

abbrev small : ResourceClass
small = record {
  name = codes "small";
  cpu = record { cores = 8; model = codes "X" };
  memory = record { size = 4 };
  drives = record { size = 480 } ∷ record { size = 960 } ∷ [];
  nic_count = 2;
}

abbrev types : List DeviceType
types =
    record {
      class = codes "server";
      manufacturer = codes "HPE";
      model = codes "P1";
      resource_class = small ∷ [];
    }
    ∷ []

abbrev machine : Machine
machine = record {
  memory_mb = 4;
  cpu = codes "X";
  cpu_cores = 8;
  disk_gb = 500;
  manufacturer = codes "HPE";
  model = codes "P1";
}

abbrev inventory : Inventory
inventory = record {
  physical_mb = some 4;
  disks = some (some 500000000000 ∷ []);
  model_name = some (codes "X");
  count = some 8;
  manufacturer = some (codes "HP Inc.");
  product_name = some (codes "P1 (SKU)");
}

types-HaveDrives : AllHaveDrives types
unfolding AllHaveDrives HasDrives
types-HaveDrives = ((refl, tt), tt)

test_machine_of : machine_of inventory ≡ ok machine
unfolding machine_of disk_size_gb manufacturer_of model_of without_inc starts_with_inc text_eq strip
    strip_left is_space split_first
test_machine_of = refl

test_set_resource_class : set_resource_class types inventory ≡ ok (some (codes "small"))
unfolding machine_of disk_size_gb manufacturer_of model_of without_inc starts_with_inc text_eq strip
    strip_left is_space split_first set_resource_class stored_class classify classified
    match_machine match_class check_class min_drive_size least_size found_or
test_set_resource_class = refl

match_machine_lem_example :
    match_machine types machine ≡ ok (find? (is_match machine) (candidates types))
match_machine_lem_example = match_machine_lem types machine types-HaveDrives

set_resource_class_lem_example :
    set_resource_class types inventory
    ≡ ok (class_name (find? (is_match machine) (candidates types)))
set_resource_class_lem_example =
    set_resource_class_lem types inventory machine types-HaveDrives test_machine_of

abbrev diskless : Inventory
diskless = record {
  physical_mb = some 4;
  disks = some [];
  model_name = some (codes "X");
  count = none;
  manufacturer = none;
  product_name = none;
}

test_no_disks : set_resource_class types (record inventory { disks = none }) ≡ err invalid_inventory
unfolding set_resource_class machine_of stored_class
test_no_disks = refl

set_resource_class-unhandled_iff_example :
    (set_resource_class types diskless ≡ err unhandled_index_error) ↔ IsDiskless diskless
set_resource_class-unhandled_iff_example =
    set_resource_class-unhandled_iff types diskless types-HaveDrives
