-- ===== src/Flavor.antt =====
-- Resource classes of inspected nodes, in python/ironic-understack/ironic_understack:
-- flavor_matcher/matcher.py, flavor_matcher/machine.py, the data and `get_resource_class` of
-- flavor_matcher/device_type.py, and the hook of resource_class.py.
-- An inventory's values have the types the hook reads them as; a key that may be missing is an
-- `Option`. The size of a disk is what `int(…)` makes of it, as a quotient of whole numbers: the
-- code divides floats, which agree below 2^53.
pub mod Match
pub mod Hook
mod Tests
use understack.Prelude.{
  ℕ, ◌+◌, ◌*◌, ◌/◌, Bool, true, false, not, ◌&&◌, ◌||◌, ltb, ◌==◌, if◌then◌else◌, List, [], ◌∷◌,
  ◌++◌, map, find?, Option, none, some, Text, codes, text_eq, strip, split_first, Result, ok, err,
  ◌>>=◌, ◌>>◌, zero, suc,
}

pub record CpuSpec : Type 0 where
  pub cores : ℕ
  pub model : Text

-- In MB.
pub record MemorySpec : Type 0 where
  pub size : ℕ

-- In GB.
pub record DriveSpec : Type 0 where
  pub size : ℕ

pub record ResourceClass : Type 0 where
  pub name : Text
  pub cpu : CpuSpec
  pub memory : MemorySpec
  pub drives : List DriveSpec
  pub nic_count : ℕ

-- Without the fields that no code here reads: the height, the interfaces and the power ports.
pub record DeviceType : Type 0 where
  pub class : Text
  pub manufacturer : Text
  pub model : Text
  pub resource_class : List ResourceClass

pub record Machine : Type 0 where
  pub memory_mb : ℕ
  pub cpu : Text
  pub cpu_cores : ℕ
  pub disk_gb : ℕ
  pub manufacturer : Text
  pub model : Text

abbrev pub memory_gb : Machine → ℕ
memory_gb m = m.memory_mb / 1024

unfoldable pub get_resource_class : DeviceType → Text → Option ResourceClass
get_resource_class device_type name = find? (λ rc. text_eq rc.name name) device_type.resource_class

-- The exceptions that the hook handles, and the one it raises.
pub data Error : Type 0 where
  key_error value_error index_error : Error
  no_match : Machine → Error

-- `min(d.size for d in drives)`, from the least so far; ValueError where there is no drive.
unfoldable pub least_size : ℕ → List DriveSpec → ℕ
least_size n [] = n
least_size n (d ∷ drives) = least_size (if ltb d.size n then d.size else n) drives

unfoldable pub min_drive_size : List DriveSpec → Result Error ℕ
min_drive_size [] = err value_error
min_drive_size (d ∷ drives) = ok (least_size d.size drives)

-- Whether a resource class is the match.
unfoldable pub check_class : Machine → ResourceClass → Result Error Bool
check_class machine rc =
    if not (text_eq rc.cpu.model machine.cpu)
    then ok false
    else if not (rc.memory.size == machine.memory_mb)
    then ok false
    else (do size ← min_drive_size rc.drives; ok (not (ltb machine.disk_gb size)))

-- The inner loop of `match`.
unfoldable pub match_class : Machine → List ResourceClass → Result Error (Option ResourceClass)
match_class machine [] = ok none
match_class machine (rc ∷ classes) =
    let rest = match_class machine classes in
    check_class machine rc >>= λ fits. if fits then ok (some rc) else rest

abbrev pub is_device_type_of : Machine → DeviceType → Bool
is_device_type_of machine device_type =
    text_eq device_type.manufacturer machine.manufacturer && text_eq device_type.model machine.model

abbrev pub Found : Type 0
Found = DeviceType × ResourceClass

-- The result of the inner loop, or what the outer loop finds after it.
unfoldable pub found_or :
    DeviceType → Option ResourceClass → Result Error (Option Found) → Result Error (Option Found)
found_or device_type none rest = rest
found_or device_type (some rc) rest = ok (some (device_type, rc))

-- `Matcher.match`
unfoldable pub match_machine : List DeviceType → Machine → Result Error (Option Found)
match_machine [] machine = ok none
match_machine (device_type ∷ device_types) machine =
    let rest = match_machine device_types machine in
    if not (is_device_type_of machine device_type)
    then rest
    else match_class machine device_type.resource_class >>= λ found. found_or device_type found rest

-- `classify`
unfoldable pub classified : Machine → Option Found → Result Error Text
classified machine none = err (no_match machine)
classified machine (some (device_type, rc)) = ok rc.name

unfoldable pub classify : List DeviceType → Machine → Result Error Text
classify device_types machine = match_machine device_types machine >>= classified machine

-- An inventory, as far as it is read. A disk has its size if the key is there.
pub record Inventory : Type 0 where
  pub physical_mb : Option ℕ
  pub disks : Option (List (Option ℕ))
  pub model_name : Option Text
  pub count : Option ℕ
  pub manufacturer : Option Text
  pub product_name : Option Text

abbrev pub required : {A : Type 0} → Option A → Result Error A
required none = err key_error
required (some a) = ok a

-- `s.replace("Inc.", "")`, after `n` more characters of an occurrence.
unfoldable pub starts_with_inc : Text → Bool
starts_with_inc (a ∷ b ∷ c ∷ d ∷ s) = text_eq (a ∷ b ∷ c ∷ d ∷ []) (codes "Inc.")
starts_with_inc _ = false

unfoldable pub without_inc : ℕ → Text → Text
without_inc n [] = []
without_inc (suc n) (c ∷ s) = without_inc n s
without_inc zero (c ∷ s) = elim (starts_with_inc (c ∷ s)) [
  | true ↦ without_inc 3 s
  | false ↦ c ∷ without_inc 0 s
]

abbrev pub hp_to_hpe : Text → Text
hp_to_hpe manufacturer = if text_eq manufacturer (codes "HP") then codes "HPE" else manufacturer

unfoldable pub manufacturer_of : Option Text → Text
manufacturer_of none = []
manufacturer_of (some manufacturer) = hp_to_hpe (strip (without_inc 0 manufacturer))

-- `model_name.split("(")[0].strip()`
unfoldable pub model_of : Option Text → Text
model_of none = []
model_of (some name) = elim (split_first b'(' name) [
  | none ↦ strip name
  | some (before, after) ↦ strip before
]

-- `inventory.get("cpu", {}).get("count", 0)`
abbrev pub count_or_0 : Option ℕ → ℕ
count_or_0 none = 0
count_or_0 (some n) = n

-- `int(int(inventory["disks"][0]["size"]) / 10**9)`
unfoldable pub disk_size_gb : List (Option ℕ) → Result Error ℕ
disk_size_gb [] = err index_error
disk_size_gb (size ∷ disks) = do bytes ← required size; ok (bytes / 1000000000)

unfoldable pub machine_of : Inventory → Result Error Machine
machine_of inventory = do
  memory ← required inventory.physical_mb
  disks ← required inventory.disks
  disk ← disk_size_gb disks
  cpu_model ← required inventory.model_name
  ok (record {
    memory_mb = memory;
    cpu = cpu_model;
    cpu_cores = count_or_0 inventory.count;
    disk_gb = disk;
    manufacturer = manufacturer_of inventory.manufacturer;
    model = model_of inventory.product_name;
  })

-- What the hook raises: InvalidNodeInventory, or the IndexError that it does not handle.
pub data Raised : Type 0 where
  invalid_inventory unhandled_index_error : Raised

-- The `except` clauses and the save: the class that is stored, if the hook returns.
unfoldable pub stored_class : Result Error Text → Result Raised (Option Text)
stored_class (ok name) = ok (some name)
stored_class (err (no_match machine)) = ok none
stored_class (err key_error) = err invalid_inventory
stored_class (err value_error) = err invalid_inventory
stored_class (err index_error) = err unhandled_index_error

-- `ResourceClassHook.__call__`. Where it raises, the stored class stays as it was.
unfoldable pub set_resource_class : List DeviceType → Inventory → Result Raised (Option Text)
set_resource_class device_types inventory =
    stored_class (machine_of inventory >>= classify device_types)
