-- ===== src/Inspection/Ports/Pxe.antt =====
-- The switches that get the PXE flag, and what the BIOS name hook makes of it.
use understack.Prelude.{
  All-map, append-All, some-injective, ◌≡◌, refl, sym, subst, ◌∙◌, Bool, true, false, List, [], ◌∷◌,
  ◌++◌, Option, none, some, Text, codes, text_eq, text_eq_iff, text_eq_refl, Dict, get, put,
  get-put, All, arith, Bool-cases, Option-cases, inl, inr,
}
use understack.Inspection.Topology.{InspectedPort, name_switches}
use understack.Inspection.NaturalOrder.{
  insert_name, key_before, natural_sort_key, natural_sorted_switch_names,
}
use understack.Inspection.Ports.{ends_with, add_switch, network_groups}

-- No key occurs twice.
unfoldable pub IsDict {ℓ} : {V : Type ℓ} → Dict V → Type ℓ
IsDict [] = Unit
IsDict ((k, v) ∷ d) = (get k d ≡ none) × IsDict d

put-IsDict : (k v : Text) (d : Dict Text) → IsDict d → IsDict (put k v d)
unfolding IsDict put get
put-IsDict k v [] h = (refl, tt)
put-IsDict k v ((j, w) ∷ d) (none_there, later) = elim (Bool-cases (text_eq j k)) [
  | inl e ↦ rw e (none_there, later)
  | inr e ↦
      rw e
        (ground (arith, get-put k j v d, text_eq_iff k j, text_eq_iff j k), put-IsDict k v d later)
]

pub name_switches-IsDict :
    (name : Text) (ports : List InspectedPort) (names : Dict Text)
    → IsDict names
    → IsDict (name_switches name ports names)
unfolding name_switches
name_switches-IsDict name [] names h = h
name_switches-IsDict name (p ∷ ports) names h =
    name_switches-IsDict name ports (put p.switch_system_name name names)
      (put-IsDict p.switch_system_name name names h)

-- An entry of a dict is what its key finds.
pub Finds : Dict Text → Text × Text → Type 0
Finds d e = get e.0 d ≡ some e.1

Finds-cons :
    (k v : Text) (d : Dict Text) (e : Text × Text)
    → get k d ≡ none
    → Finds d e
    → Finds ((k, v) ∷ d) e
unfolding Finds get
Finds-cons k v d e h f = ground (arith, text_eq_iff k e.0)

Finds-head : (k v : Text) (d : Dict Text) → Finds ((k, v) ∷ d) (k, v)
unfolding Finds get
Finds-head k v d = rw (text_eq_refl k) refl

pub entries-Finds : (d : Dict Text) → IsDict d → All (Finds d) d
unfolding IsDict
entries-Finds [] h = tt
entries-Finds ((k, v) ∷ d) (none_there, later) =
    (Finds-head k v d, All-map d (λ e. Finds-cons k v d e none_there) (entries-Finds d later))

-- The switch has a VLAN group in the dict, and it is a network.
abbrev pub is_network : Option Text → Bool
is_network none = false
is_network (some vlan_group) = ends_with vlan_group (codes "-network")

unfoldable pub IsNetwork : Dict Text → Text → Type 0
IsNetwork d switch_name = is_network (get switch_name d) ≡ true

abbrev pub EachAll : (Text → Type 0) → Dict (List Text) → Type 0
EachAll P = All (λ e. All P e.1)

get-EachAll :
    (P : Text → Type 0) (k : Text) (names : List Text) (d : Dict (List Text))
    → EachAll P d
    → get k d ≡ some names
    → All P names
unfolding get
get-EachAll P k names [] h e = cc
get-EachAll P k names ((j, found) ∷ d) (here, later) e = elim (Bool-cases (text_eq j k)) [
  | inl m ↦ subst (All P) (some-injective found names (sym (rw m refl) ∙ e)) here
  | inr m ↦ get-EachAll P k names d later (sym (rw m refl) ∙ e)
]

put-EachAll :
    (P : Text → Type 0) (k : Text) (names : List Text) (d : Dict (List Text))
    → EachAll P d
    → All P names
    → EachAll P (put k names d)
unfolding put
put-EachAll P k names [] h p = (p, tt)
put-EachAll P k names ((j, found) ∷ d) (here, later) p = elim (Bool-cases (text_eq j k)) [
  | inl m ↦ rw m (p, later)
  | inr m ↦ rw m (here, put-EachAll P k names d later p)
]

add_switch-EachAll :
    (P : Text → Type 0) (g s : Text) (groups : Dict (List Text))
    → EachAll P groups
    → P s
    → EachAll P (add_switch g s groups)
unfolding add_switch
add_switch-EachAll P g s groups h p = elim (Option-cases (get g groups)) [
  | inl e ↦ rw (add_switch, e) (put-EachAll P g (s ∷ []) groups h (p, tt))
  | inr (names, e) ↦
      rw (add_switch, e)
        (put-EachAll P g (names ++ s ∷ []) groups h
          (append-All P names s (get-EachAll P g names groups h e) p))
]

pub network_groups-EachAll :
    (d : Dict Text) (groups : Dict (List Text)) (entries : Dict Text)
    → EachAll (IsNetwork d) groups
    → All (Finds d) entries
    → EachAll (IsNetwork d) (network_groups groups entries)
unfolding network_groups Finds
network_groups-EachAll d groups [] h f = h
network_groups-EachAll d groups ((s, g) ∷ entries) h (here, later) =
    elim (Bool-cases (ends_with g (codes "-network"))) [
      | inl e ↦ rw e (
          network_groups-EachAll d (add_switch g s groups) entries
            (add_switch-EachAll (IsNetwork d) g s groups h (unfold IsNetwork in rw here e)) later)
      | inr e ↦ rw e (network_groups-EachAll d groups entries h later)
    ]

insert_name-All :
    (P : Text → Type 0) (s : Text) (names : List Text)
    → P s
    → All P names
    → All P (insert_name s names)
unfolding insert_name
insert_name-All P s [] p h = (p, tt)
insert_name-All P s (t ∷ names) p (here, later) =
    elim (Bool-cases (key_before (natural_sort_key t) (natural_sort_key s))) [
      | inl e ↦ rw e (here, insert_name-All P s names p later)
      | inr e ↦ rw e (p, (here, later))
    ]

pub sorted-All :
    (P : Text → Type 0) (names : List Text)
    → All P names
    → All P (natural_sorted_switch_names names)
unfolding natural_sorted_switch_names
sorted-All P [] h = tt
sorted-All P (s ∷ names) (here, later) =
    insert_name-All P s (natural_sorted_switch_names names) here (sorted-All P names later)
