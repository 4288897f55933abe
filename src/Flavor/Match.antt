-- ===== src/Flavor/Match.antt =====
-- The matcher against a search by a plain test.
use understack.Prelude.{
  ℕ, ◌≡◌, refl, Bool, true, false, not, ◌&&◌, ◌||◌, ltb, leb, ◌==◌, if◌then◌else◌, List, [], ◌∷◌,
  ◌++◌, map, any, find?, All, is_nil, none, some, text_eq, ok, ◌>>=◌, arith, ap,
}
use understack.Flavor.{
  DriveSpec, ResourceClass, DeviceType, Machine, Found, least_size, min_drive_size, check_class,
  match_class, found_or, match_machine, is_device_type_of,
}

-- A class fits by its CPU model, its memory, and a drive that is no larger than the disk.
unfoldable pub fits : Machine → ResourceClass → Bool
fits machine rc =
    text_eq rc.cpu.model machine.cpu
    && ((rc.memory.size == machine.memory_mb) && any (λ d. leb d.size machine.disk_gb) rc.drives)

unfoldable pub is_match : Machine → Found → Bool
is_match machine found = is_device_type_of machine found.0 && fits machine found.1

-- Every class of every device type, in order.
unfoldable pub candidates : List DeviceType → List Found
candidates [] = []
candidates (d ∷ device_types) = map (λ rc. (d, rc)) d.resource_class ++ candidates device_types

unfoldable pub HasDrives : ResourceClass → Type 0
HasDrives rc = is_nil rc.drives ≡ false

unfoldable pub AllHaveDrives : List DeviceType → Type 0
AllHaveDrives = All (λ d. All HasDrives d.resource_class)

least_size-leb :
    (n size : ℕ) (drives : List DriveSpec)
    → not (ltb n (least_size size drives)) ≡ (leb size n || any (λ d. leb d.size n) drives)
unfolding least_size any
least_size-leb n size [] = ground arith
least_size-leb n size (d ∷ drives) =
    ground (arith, least_size-leb n (if ltb d.size size then d.size else size) drives)

min_drive_size_lem :
    (n : ℕ) (drives : List DriveSpec)
    → is_nil drives ≡ false
    → (min_drive_size drives >>= λ size. ok (not (ltb n size)))
      ≡ ok (any (λ d. leb d.size n) drives)
unfolding min_drive_size any
min_drive_size_lem n [] h = cc
min_drive_size_lem n (d ∷ drives) h = ap ok (least_size-leb n d.size drives)

check_class_lem :
    (m : Machine) (rc : ResourceClass) → HasDrives rc → check_class m rc ≡ ok (fits m rc)
unfolding check_class fits HasDrives
check_class_lem m rc h = ground (arith, min_drive_size_lem m.disk_gb rc.drives)

find?-append {ℓ} :
    {A : Type ℓ} (p : A → Bool) (xs ys : List A)
    → find? p (xs ++ ys) ≡ elim (find? p xs) [ none ↦ find? p ys | some x ↦ some x ]
unfolding find?
find?-append p [] ys = refl
find?-append p (x ∷ xs) ys = ground (arith, find?-append p xs ys)

match_class_lem :
    (m : Machine) (classes : List ResourceClass)
    → All HasDrives classes
    → match_class m classes ≡ ok (find? (fits m) classes)
unfolding match_class find?
match_class_lem m [] h = refl
match_class_lem m (rc ∷ classes) (here, later) =
    rw (check_class_lem m rc here, match_class_lem m classes later) (ground arith)

find?-map :
    (m : Machine) (d : DeviceType) (classes : List ResourceClass)
    → is_device_type_of m d ≡ true
    → find? (is_match m) (map (λ rc. (d, rc)) classes)
      ≡ elim (find? (fits m) classes) [ none ↦ none | some rc ↦ some (d, rc) ]
unfolding find? is_match
find?-map m d [] h = refl
find?-map m d (rc ∷ classes) h = ground (arith, find?-map m d classes h)

find?-map_other :
    (m : Machine) (d : DeviceType) (classes : List ResourceClass)
    → is_device_type_of m d ≡ false
    → find? (is_match m) (map (λ rc. (d, rc)) classes) ≡ none
unfolding find? is_match
find?-map_other m d [] h = refl
find?-map_other m d (rc ∷ classes) h = ground (arith, find?-map_other m d classes h)

-- Where every resource class has a drive, the nested loops of `Matcher.match` raise nothing and
-- find the first pair of a device type and one of its classes, in order, with the machine's
-- manufacturer, model, CPU model and memory and with some drive that is no larger than the
-- machine's disk, or none if there is no such pair.
pub match_machine_lem :
    (device_types : List DeviceType) (machine : Machine)
    → AllHaveDrives device_types
    → match_machine device_types machine ≡ ok (find? (is_match machine) (candidates device_types))
unfolding match_machine candidates found_or AllHaveDrives
match_machine_lem [] machine h = unfold find? in refl
match_machine_lem (d ∷ device_types) machine (here, later) = ground (
  arith,
  match_machine_lem device_types machine later,
  match_class_lem machine d.resource_class here,
  find?-map machine d d.resource_class,
  find?-map_other machine d d.resource_class,
  find?-append (is_match machine) (map (λ rc. (d, rc)) d.resource_class) (candidates device_types),
)
