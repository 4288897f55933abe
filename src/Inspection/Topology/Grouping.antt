-- ===== src/Inspection/Topology/Grouping.antt =====
-- The groups, and the network switches.
use understack.Prelude.{
  ◌≤◌, ◌≡◌, refl, ap, ◌∙◌, Bool, true, false, not, if◌then◌else◌, List, [], ◌∷◌, ◌++◌, map, filter,
  length, is_some, Text, codes, text_eq, text_eq_iff, Result, ok, err, ◌>>◌, >>=-eq-ok, >>-eq-ok,
  Dict, get, put, get-put, distinct, All, arith,
}
use understack.Inspection.Topology.{
  InspectedPort, ParsedName, Error, Groups, parsed_name, each, data_centers, rack_names,
  assert_consistent_data_center, assert_single_or_paired_racks,
  assert_switch_names_have_known_suffixes, ports_in, category_of, group_from,
  group_by_switch_category, assert_redundant_network_connections, vlan_group_names,
}

abbrev pub is_category : Text → Result Error Text → Bool
is_category category (err e) = false
is_category category (ok found) = text_eq found category

-- Whether a port's switch has the category.
unfoldable pub has_category : Dict Text → Text → InspectedPort → Bool
has_category mapping category p = is_category category (category_of mapping p)

ports_in-put :
    (k c : Text) (ports : List InspectedPort) (groups : Groups)
    → ports_in c (put k ports groups) ≡ (if text_eq k c then ports else ports_in c groups)
unfolding ports_in
ports_in-put k c ports groups = ground (arith, get-put k c ports groups)

append_assoc {ℓ} : {A : Type ℓ} (xs ys zs : List A) → (xs ++ ys) ++ zs ≡ xs ++ (ys ++ zs)
append_assoc [] ys zs = refl
append_assoc (x ∷ xs) ys zs = ap (λ l. x ∷ l) (append_assoc xs ys zs)

append_nil {ℓ} : {A : Type ℓ} (xs : List A) → xs ++ [] ≡ xs
append_nil [] = refl
append_nil (x ∷ xs) = ap (λ l. x ∷ l) (append_nil xs)

has_category-ok :
    (mapping : Dict Text) (c k : Text) (p : InspectedPort)
    → category_of mapping p ≡ ok k
    → has_category mapping c p ≡ text_eq k c
unfolding has_category
has_category-ok mapping c k p h = ap (is_category c) h

group_from_lem :
    (groups result : Groups) (ports : List InspectedPort) (mapping : Dict Text) (c : Text)
    → group_from groups ports mapping ≡ ok result
    → ports_in c result ≡ ports_in c groups ++ filter (has_category mapping c) ports
unfolding group_from filter
group_from_lem groups result [] mapping c h = ground (arith, append_nil (ports_in c groups))
group_from_lem groups result (p ∷ ports) mapping c h =
    let (k, e, later) = >>=-eq-ok (category_of mapping p) _ h in
    let groups' = put k (ports_in k groups ++ p ∷ []) groups in
    let ih = group_from_lem groups' result ports mapping c later in
    ground (
      arith,
      ih,
      has_category-ok mapping c k p e,
      ports_in-put k c (ports_in k groups ++ p ∷ []) groups,
      text_eq_iff k c,
      append_assoc (ports_in c groups) (p ∷ []) (filter (has_category mapping c) ports),
    )

-- The switches of a list of ports, each once.
unfoldable pub switches : List InspectedPort → List Text
switches ports = distinct (map (λ p. p.switch_system_name) ports)

-- What the code asserts of a node's cabling, for the names that its ports' switches have.
pub record IsCabled (ports : List InspectedPort) (mapping : Dict Text) (names : List ParsedName)
    : Type 0 where
  pub parsed : each parsed_name ports ≡ ok names
  pub one_data_center : length (distinct (map (λ n. n.data_center_name) names)) ≤ 1
  pub two_racks : length (distinct (map (λ n. n.rack_name) names)) ≤ 2
  pub known_suffixes : All (λ n. is_some (get n.switch_suffix mapping) ≡ true) names
  pub two_network_switches :
      length (switches (filter (has_category mapping (codes "network")) ports)) ≡ 2

consistent :
    (ports : List InspectedPort) (names : List ParsedName)
    → assert_consistent_data_center ports ≡ ok tt
    → each parsed_name ports ≡ ok names
    → length (distinct (map (λ n. n.data_center_name) names)) ≤ 1
unfolding assert_consistent_data_center data_centers
consistent ports names h e = ground arith

paired :
    (ports : List InspectedPort) (names : List ParsedName)
    → assert_single_or_paired_racks ports ≡ ok tt
    → each parsed_name ports ≡ ok names
    → length (distinct (map (λ n. n.rack_name) names)) ≤ 2
unfolding assert_single_or_paired_racks rack_names
paired ports names h e = ground arith

tails :
    (m n : ParsedName) (ms ns : List ParsedName)
    → ◌≡◌ {A = Result Error (List ParsedName)} (ok (m ∷ ms)) (ok (n ∷ ns))
    → ◌≡◌ {A = Result Error (List ParsedName)} (ok ms) (ok ns)
tails m n ms ns h = cc

suffixes-known :
    (ports : List InspectedPort) (mapping : Dict Text) (names : List ParsedName)
    → assert_switch_names_have_known_suffixes ports mapping ≡ ok tt
    → each parsed_name ports ≡ ok names
    → All (λ n. is_some (get n.switch_suffix mapping) ≡ true) names
unfolding assert_switch_names_have_known_suffixes each
suffixes-known [] mapping [] h e = tt
suffixes-known [] mapping (n ∷ ns) h e = cc
suffixes-known (p ∷ ports) mapping [] h e =
    let (m, e1, rest) = >>=-eq-ok (parsed_name p) _ e in
    let (ms, e2, e3) = >>=-eq-ok (each parsed_name ports) _ rest in cc
suffixes-known (p ∷ ports) mapping (n ∷ ns) h e =
    let (m, e1, rest) = >>=-eq-ok (parsed_name p) _ e in
    let (ms, e2, e3) = >>=-eq-ok (each parsed_name ports) _ rest in
    let (m', f1, f) = >>=-eq-ok (parsed_name p) _ h in
    let (known, later) = >>-eq-ok (not (is_some (get m'.switch_suffix mapping))) _ _ f in
    (
      ground (arith, known, e1, f1, e3),
      suffixes-known ports mapping ns later (e2 ∙ tails m n ms ns e3),
    )

pub both-ok :
    (m : Result Error Unit) (k : Result Error (Dict Text)) {names : Dict Text}
    → (m >> k) ≡ ok names
    → (m ≡ ok tt) × (k ≡ ok names)
both-ok (ok tt) k h = (refl, h)
both-ok (err e) k h = cc

each-parsed :
    (ports : List InspectedPort)
    → assert_consistent_data_center ports ≡ ok tt
    → (names : List ParsedName) × (each parsed_name ports ≡ ok names)
unfolding assert_consistent_data_center data_centers
each-parsed ports h =
    let (found, e, rest) = >>=-eq-ok (data_centers ports) _ h in
    let (names, f, others) = >>=-eq-ok (each parsed_name ports) _ e in (names, f)

two_switches :
    (ports : List InspectedPort) (mapping : Dict Text) (groups : Groups)
    → group_by_switch_category ports mapping ≡ ok groups
    → assert_redundant_network_connections groups ≡ ok tt
    → length (switches (filter (has_category mapping (codes "network")) ports)) ≡ 2
unfolding group_by_switch_category assert_redundant_network_connections switches ports_in get
two_switches ports mapping groups g r =
    ground (arith, group_from_lem [] groups ports mapping (codes "network") g)

-- If `vlan_group_names` returns, every switch name of the node's ports was parsed, the names
-- have at most one data centre and at most two racks, each suffix is in the mapping, and the
-- ports whose category is network are on exactly two switches.
pub vlan_group_names-IsCabled :
    (ports : List InspectedPort) (mapping names : Dict Text)
    → vlan_group_names ports mapping ≡ ok names
    → (parsed : List ParsedName) × IsCabled ports mapping parsed
unfolding vlan_group_names
vlan_group_names-IsCabled ports mapping names h =
    let (a, h1) = both-ok (assert_consistent_data_center ports) _ h in
    let (b, h2) = both-ok (assert_single_or_paired_racks ports) _ h1 in
    let (c, h3) = both-ok (assert_switch_names_have_known_suffixes ports mapping) _ h2 in
    let (groups, g, h4) = >>=-eq-ok (group_by_switch_category ports mapping) _ h3 in
    let (d, h5) = both-ok (assert_redundant_network_connections groups) _ h4 in
    let (parsed, e) = each-parsed ports a in
    (
      parsed,
      record {
        parsed = e;
        one_data_center = consistent ports parsed a e;
        two_racks = paired ports parsed b e;
        known_suffixes = suffixes-known ports mapping parsed c e;
        two_network_switches = two_switches ports mapping groups g d;
      },
    )
