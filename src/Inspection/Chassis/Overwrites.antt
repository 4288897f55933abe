-- ===== src/Inspection/Chassis/Overwrites.antt =====
-- The hooks of an agent inspection one after the other: components/ironic/values.yaml runs
-- update-baremetal-port and then chassis_model.
use understack.Prelude.{
  ◌≡◌, true, not, ◌&&◌, ◌||◌, List, [], ◌∷◌, ◌++◌, filter, Text, codes, text_eq, text_eq_iff,
  contains-append, contains, Result, ok, >>=-eq-ok, arith,
}
use understack.Inspection.Ports.{is_our_trait, set_node_traits}
use understack.Inspection.Ports.Traits.{contains-filter}
use understack.Inspection.Chassis.{
  SystemVendor, Error, extract_chassis_model, extract_manufacturer, chassis_trait_name, starts_with,
  set_prefixed_traits, set_chassis_trait,
}

contains-set_prefixed_traits :
    (t prefix required : Text) (existing : List Text)
    → contains t (set_prefixed_traits prefix required existing)
      ≡ ((contains t existing && not (starts_with t prefix)) || text_eq (prefix ++ required) t)
unfolding set_prefixed_traits contains
contains-set_prefixed_traits t prefix required existing = ground (
  arith,
  contains-append t (filter (λ t. not (starts_with t prefix)) existing) ((prefix ++ required) ∷ []),
  contains-filter (λ t. not (starts_with t prefix)) t existing,
)

is_our_trait-starts : (t : Text) → is_our_trait t ≡ true → starts_with t (codes "CUSTOM_") ≡ true
unfolding is_our_trait
is_our_trait-starts t h = ground arith

only_required :
    (t prefix required : Text) (existing traits : List Text)
    → ◌≡◌ {A = Result Error (List Text)}
        (ok (set_prefixed_traits prefix required existing))
        (ok traits)
    → starts_with t prefix ≡ true
    → contains t traits ≡ true
    → t ≡ prefix ++ required
only_required t prefix required existing traits h s there = ground (
  arith,
  contains-set_prefixed_traits t prefix required existing,
  text_eq_iff (prefix ++ required) t,
)

-- What the chassis hook gives, from the parts that it reads.
chassis_parts :
    (vendor : SystemVendor) (existing traits : List Text)
    → set_chassis_trait vendor existing ≡ ok traits
    → (model : Text) × (manufacturer : Text) × (extract_chassis_model vendor ≡ ok model)
      × (extract_manufacturer vendor ≡ ok manufacturer)
      × ◌≡◌ {A = Result Error (List Text)}
          (ok (
            set_prefixed_traits (codes "CUSTOM_") (chassis_trait_name manufacturer model) existing))
          (ok traits)
unfolding set_chassis_trait
chassis_parts vendor existing traits h =
    let (model, m, rest) = >>=-eq-ok (extract_chassis_model vendor) _ h in
    let (manufacturer, f, e) = >>=-eq-ok (extract_manufacturer vendor) _ rest in
    (model, manufacturer, m, f, e)

-- When the chassis model hook runs after the traits were set from the VLAN groups, whatever
-- these are, a trait of the form CUSTOM_…_SWITCH is left on the node only if it is the trait of
-- the node's manufacturer and chassis model.
pub set_chassis_trait-overwrites :
    (vendor : SystemVendor) (existing vlan_groups traits : List Text) (t : Text)
    → set_chassis_trait vendor (set_node_traits existing vlan_groups) ≡ ok traits
    → is_our_trait t ≡ true
    → contains t traits ≡ true
    → (model : Text) × (manufacturer : Text) × (extract_chassis_model vendor ≡ ok model)
      × (extract_manufacturer vendor ≡ ok manufacturer)
      × (t ≡ codes "CUSTOM_" ++ chassis_trait_name manufacturer model)
set_chassis_trait-overwrites vendor existing vlan_groups traits t h ours there =
    let (model, manufacturer, m, f, e) =
      chassis_parts vendor (set_node_traits existing vlan_groups) traits h in
    (
      model,
      manufacturer,
      m,
      f,
      only_required t (codes "CUSTOM_") (chassis_trait_name manufacturer model)
          (set_node_traits existing vlan_groups) traits e (is_our_trait-starts t ours) there,
    )
