-- ===== src/Flavor/Hook.antt =====
-- The hook that stores the resource class.
use understack.Prelude.{
  ◌≡◌, ◌↔◌, refl, true, List, [], find?, Option, none, some, Text, ok, err, is_some, Result-cases,
  ap, sym, ◌∙◌, inl, inr, arith,
}
use understack.Flavor.{
  Inventory, Machine, DeviceType, Found, Error, key_error, value_error, index_error, no_match,
  unhandled_index_error, machine_of, disk_size_gb, classify, classified, stored_class,
  set_resource_class,
}
use understack.Flavor.Match.{AllHaveDrives, is_match, candidates, match_machine_lem}

-- The name of the class of a match.
pub class_name : Option Found → Option Text
class_name none = none
class_name (some (device_type, rc)) = some rc.name

stored-classified :
    (m : Machine) (found : Option Found) → stored_class (classified m found) ≡ ok (class_name found)
unfolding classified stored_class class_name
stored-classified m none = refl
stored-classified m (some (d, rc)) = refl

stored-classify :
    (types : List DeviceType) (m : Machine)
    → AllHaveDrives types
    → stored_class (classify types m) ≡ ok (class_name (find? (is_match m) (candidates types)))
unfolding classify stored_class
stored-classify types m h =
    rw (match_machine_lem types m h) (stored-classified m (find? (is_match m) (candidates types)))

-- Where every resource class has a drive and the inventory has what the hook reads, the hook
-- stores the name of the class of the first matching pair, and clears the class if there is
-- none.
pub set_resource_class_lem :
    (device_types : List DeviceType) (inventory : Inventory) (machine : Machine)
    → AllHaveDrives device_types
    → machine_of inventory ≡ ok machine
    → set_resource_class device_types inventory
      ≡ ok (class_name (find? (is_match machine) (candidates device_types)))
unfolding set_resource_class
set_resource_class_lem types inv m h e = rw e (stored-classify types m h)

-- An inventory that has its memory and an empty list of disks.
pub IsDiskless : Inventory → Type 0
IsDiskless inv = (is_some inv.physical_mb ≡ true) × (inv.disks ≡ some [])

machine_of-index_error : (inv : Inventory) → machine_of inv ≡ err index_error → IsDiskless inv
unfolding machine_of disk_size_gb IsDiskless
machine_of-index_error inv h = ground arith

machine_of-diskless : (inv : Inventory) → IsDiskless inv → machine_of inv ≡ err index_error
unfolding machine_of disk_size_gb IsDiskless
machine_of-diskless inv h = ground arith

-- An error in reading the inventory decides what the hook does.
set_resource_class-err :
    (types : List DeviceType) (inv : Inventory) (e : Error)
    → machine_of inv ≡ err e
    → set_resource_class types inv ≡ stored_class (err e)
unfolding set_resource_class
set_resource_class-err types inv e h = rw h refl

unhandled-index_error :
    (e : Error) → stored_class (err e) ≡ err unhandled_index_error → e ≡ index_error
unfolding stored_class
unhandled-index_error key_error h = cc
unhandled-index_error value_error h = cc
unhandled-index_error index_error h = refl
unhandled-index_error (no_match m) h = cc

-- Where every resource class has a drive, the hook raises an IndexError that it does not handle
-- exactly for an inventory that has its memory and an empty list of disks.
pub set_resource_class-unhandled_iff :
    (device_types : List DeviceType) (inventory : Inventory)
    → AllHaveDrives device_types
    → (set_resource_class device_types inventory ≡ err unhandled_index_error) ↔ IsDiskless inventory
set_resource_class-unhandled_iff types inv h = (
  λ u. elim (Result-cases (machine_of inv)) [
    | inl (m, f) ↦ ground (arith, set_resource_class_lem types inv m h f)
    | inr (e, f) ↦
        let is_index = unhandled-index_error e (sym (set_resource_class-err types inv e f) ∙ u) in
        machine_of-index_error inv (f ∙ ap err is_index)
  ],
  λ d.
      set_resource_class-err types inv index_error (machine_of-diskless inv d)
      ∙ unfold stored_class in refl,
)
