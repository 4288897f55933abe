-- ===== src/Inspection/Ports/Traits.antt =====
-- The node's traits.
use understack.Prelude.{
  ◌≡◌, refl, Bool, true, not, ◌&&◌, ◌||◌, List, [], ◌∷◌, ◌++◌, map, filter, all, is_nil, Text,
  text_eq_iff, contains, contains-append, arith,
}
use understack.Inspection.Ports.{is_our_trait, trait_name, set_node_traits, includes}

pub contains-filter :
    (p : Text → Bool) (t : Text) (xs : List Text)
    → contains t (filter p xs) ≡ (contains t xs && p t)
unfolding contains filter
contains-filter p t [] = refl
contains-filter p t (x ∷ xs) = ground (arith, contains-filter p t xs, text_eq_iff x t)

includes-contains :
    (t : Text) (xs ys : List Text)
    → all (λ y. contains y xs) ys ≡ true
    → contains t ys ≡ true
    → contains t xs ≡ true
unfolding contains all
includes-contains t xs [] h c = cc
includes-contains t xs (y ∷ ys) h c = ground (arith, includes-contains t xs ys, text_eq_iff y t)

same-contains :
    (t : Text) (xs ys : List Text)
    → (includes xs ys && includes ys xs) ≡ true
    → contains t xs ≡ contains t ys
same-contains t xs ys h = ground (arith, includes-contains t xs ys, includes-contains t ys xs)

-- A text is among the node's traits after the hook exactly if it was before and is no trait of
-- the hook's own form, or it is the trait of a VLAN group whose name is not empty.
pub set_node_traits_lem :
    (t : Text) (existing vlan_groups : List Text)
    → contains t (set_node_traits existing vlan_groups) ≡ (
        (contains t existing && not (is_our_trait t))
        || contains t (map trait_name (filter (λ g. not (is_nil g)) vlan_groups)))
unfolding set_node_traits
set_node_traits_lem t existing vlan_groups =
    let ours = map trait_name (filter (λ g. not (is_nil g)) vlan_groups) in
    let others = filter (λ t. not (is_our_trait t)) existing in
    ground (
      arith,
      same-contains t existing (others ++ ours),
      contains-append t others ours,
      contains-filter (λ t. not (is_our_trait t)) t existing,
    )
