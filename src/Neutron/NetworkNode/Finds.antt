-- ===== src/Neutron/NetworkNode/Finds.antt =====
-- What the search for the trunk of the network node finds.
use mathlib.Core.Option
use understack.Prelude.{
  contains-distinct, contains-append, ◌≡◌, refl, sym, ap, ◌∙◌, Bool, true, false, ◌&&◌, ◌||◌, List,
  [], ◌∷◌, ◌++◌, map, find?, Option, none, some, is_some, Text, text_eq, text_eq_sound, contains,
  distinct, Result, ok, err, ◌>>=◌, arith, inl, inr, Bool-cases,
}
use understack.Neutron.Tables.{Port}
use understack.Neutron.Trunks.{Trunk}
use understack.Neutron.NetworkNode.{
  Services, SearchError, get_gateway_agent_host, resolve_gateway_host, port_ids_bound, with_port,
  ports_found, or_none_bound, find_ports_bound_to_hosts, first_trunk, find_trunk_by_port_ids,
  find_trunk_of_node, search, and_cache, fetch_network_node_trunk_id,
}

-- A port of the node: bound to its name or to its UUID, and there.
pub is_on_node : Services → Text → Text → Text → Bool
is_on_node services name uuid port_id =
    (contains port_id (services.port_ids_bound_to name)
      || contains port_id (services.port_ids_bound_to uuid))
    && is_some (services.port_by_id port_id)

-- What a function returns, if it returns.
unfoldable pub returned : Result SearchError Text → Option Text
returned (ok a) = some a
returned (err e) = none

-- Neutron answers a query by id with the port that has the id.
abbrev pub IsQueriedById : Services → Type 0
IsQueriedById services =
    (id : Text) (port : Port) → services.port_by_id id ≡ some port → port.id ≡ id

find?-ext {ℓ} :
    {A : Type ℓ} (p q : A → Bool) (xs : List A) → ((x : A) → p x ≡ q x) → find? p xs ≡ find? q xs
unfolding find?
find?-ext p q [] h = refl
find?-ext p q (x ∷ xs) h = ground (arith, h x, find?-ext p q xs h)

find?-false {ℓ} : {A : Type ℓ} (xs : List A) → find? (λ x. false) xs ≡ none
unfolding find?
find?-false [] = refl
find?-false (x ∷ xs) = find?-false xs

contains-with_port :
    (t id : Text) (o : Option Port) (ports : List Port)
    → ((port : Port) → o ≡ some port → port.id ≡ id)
    → contains t (map (λ p. p.id) (with_port o ports))
      ≡ ((text_eq id t && is_some o) || contains t (map (λ p. p.id) ports))
unfolding contains
contains-with_port t id none ports h = ground arith
contains-with_port t id (some port) ports h = ground (arith, ap (λ i. text_eq i t) (h port refl))

here_only :
    (ports : Text → Option Port) (id t : Text)
    → (text_eq id t && is_some (ports id)) ≡ (text_eq id t && is_some (ports t))
here_only ports id t = elim (Bool-cases (text_eq id t)) [
  | inl e ↦ ap (λ i. text_eq id t && is_some (ports i)) (text_eq_sound id t e)
  | inr e ↦ ground arith
]

contains-ports_found :
    (services : Services) (t : Text) (ids : List Text)
    → IsQueriedById services
    → contains t (map (λ p. p.id) (ports_found services ids))
      ≡ (contains t ids && is_some (services.port_by_id t))
unfolding contains ports_found
contains-ports_found services t [] q = refl
contains-ports_found services t (id ∷ ids) q =
    contains-with_port t id (services.port_by_id id) (ports_found services ids) (q id)
    ∙ ground (arith, here_only services.port_by_id id t, contains-ports_found services t ids q)

contains-port_ids_bound :
    (services : Services) (t name uuid : Text)
    → IsQueriedById services
    → contains t (
        map
          (λ p. p.id)
          (ports_found services (distinct (port_ids_bound services (name ∷ uuid ∷ [])))))
      ≡ is_on_node services name uuid t
unfolding port_ids_bound is_on_node contains
contains-port_ids_bound services t name uuid q =
    let ids = port_ids_bound services (name ∷ uuid ∷ []) in
    ground (
      arith,
      contains-ports_found services t (distinct ids) q,
      contains-distinct t ids,
      contains-append t (services.port_ids_bound_to name) (services.port_ids_bound_to uuid ++ []),
      contains-append t (services.port_ids_bound_to uuid) [],
    )

first_trunk-finds :
    (host : Text) (ids : List Text) (trunks : List Trunk)
    → returned (first_trunk host ids trunks)
      ≡ Option.map (λ trunk. trunk.id) (find? (λ trunk. contains trunk.port_id ids) trunks)
unfolding returned first_trunk find?
first_trunk-finds host ids [] = refl
first_trunk-finds host ids (trunk ∷ trunks) = elim (Bool-cases (contains trunk.port_id ids)) [
  | inl e ↦ rw e refl
  | inr e ↦ rw e (first_trunk-finds host ids trunks)
]

find_trunk-finds :
    (host : Text) (ids : List Text) (trunks : List Trunk)
    → returned (find_trunk_by_port_ids host ids trunks)
      ≡ Option.map (λ trunk. trunk.id) (find? (λ trunk. contains trunk.port_id ids) trunks)
unfolding find_trunk_by_port_ids find? returned
find_trunk-finds host ids [] = refl
find_trunk-finds host ids (trunk ∷ trunks) = first_trunk-finds host ids (trunk ∷ trunks)

with_ports-finds :
    (hosts : List Text) (name : Text) (ports : List Port) (trunks : List Trunk)
    → returned (
        or_none_bound hosts ports >>= λ ps. find_trunk_by_port_ids name (map (λ p. p.id) ps) trunks)
      ≡ Option.map
          (λ trunk. trunk.id)
          (find? (λ trunk. contains trunk.port_id (map (λ p. p.id) ports)) trunks)
unfolding returned contains
with_ports-finds hosts name [] trunks =
    ap (Option.map (λ trunk. trunk.id)) (sym (find?-false trunks))
with_ports-finds hosts name (port ∷ ports) trunks =
    find_trunk-finds name (map (λ p. p.id) (port ∷ ports)) trunks

find_trunk_of_node-finds :
    (services : Services) (name uuid : Text)
    → IsQueriedById services
    → returned (find_trunk_of_node services name uuid)
      ≡ Option.map
          (λ trunk. trunk.id)
          (find? (λ trunk. is_on_node services name uuid trunk.port_id) services.trunks)
unfolding find_trunk_of_node find_ports_bound_to_hosts
find_trunk_of_node-finds services name uuid q =
    let hosts = name ∷ uuid ∷ [] in
    with_ports-finds hosts name (ports_found services (distinct (port_ids_bound services hosts)))
      services.trunks
    ∙ ap (Option.map (λ trunk. trunk.id)) (
        find?-ext _ _ services.trunks
          λ trunk. contains-port_ids_bound services trunk.port_id name uuid q)

returned-and_cache :
    (cached : Option Text) (r : Result SearchError Text)
    → returned (and_cache cached r).0 ≡ returned r
returned-and_cache cached (err e) = refl
returned-and_cache cached (ok trunk_id) = refl

search_resolved :
    (services : Services) (agent : Text) (agents : List Text) (name uuid : Text)
    → services.has_core_plugin ≡ true
    → services.gateway_agents ≡ agent ∷ agents
    → resolve_gateway_host services agent ≡ ok (name, uuid)
    → search services ≡ find_trunk_of_node services name uuid
unfolding search get_gateway_agent_host resolve_gateway_host find_trunk_of_node
search_resolved services agent agents name uuid c a r = rw c (rw a (rw r refl))

-- Where the first gateway agent's host is resolved to a name and a UUID, and a query for a port
-- by id is answered with the port that has the id, the search with an empty cache finds the
-- first trunk whose parent port is there and bound to the name or the UUID, and raises if there
-- is none.
pub fetch_network_node_trunk_id-finds :
    (services : Services) (agent : Text) (agents : List Text) (name uuid : Text)
    → IsQueriedById services
    → services.has_core_plugin ≡ true
    → services.gateway_agents ≡ agent ∷ agents
    → resolve_gateway_host services agent ≡ ok (name, uuid)
    → returned (fetch_network_node_trunk_id services none).0
      ≡ Option.map
          (λ trunk. trunk.id)
          (find? (λ trunk. is_on_node services name uuid trunk.port_id) services.trunks)
unfolding fetch_network_node_trunk_id search get_gateway_agent_host
fetch_network_node_trunk_id-finds services agent agents name uuid q c a r =
    returned-and_cache none (search services)
    ∙ ap returned (search_resolved services agent agents name uuid c a r)
    ∙ find_trunk_of_node-finds services name uuid q
