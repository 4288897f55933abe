-- ===== src/Neutron/NetworkNode.antt =====
-- The search for the trunk of the network node: `fetch_network_node_trunk_id` and what it calls, of
-- python/neutron-understack/neutron_understack/utils.py.
-- What neutron, Ironic and Python's uuid module answer is a parameter.
pub mod Finds
use understack.Prelude.{
  Bool, true, false, not, ◌&&◌, if◌then◌else◌, List, [], ◌∷◌, ◌++◌, map, Option, none, some, Text,
  text_eq, contains, distinct, Result, ok, err, ◌>>=◌,
}
use understack.Neutron.Tables.{Port}
use understack.Neutron.Trunks.{Trunk, set_text}

-- The hosts of the alive gateway agents, Ironic's names and UUIDs of nodes, and neutron's ports and
-- trunks. `port_ids_bound_to` is the query of `PortBinding` by host.
pub record Services : Type 0 where
  pub has_core_plugin : Bool
  pub gateway_agents : List Text
  pub is_uuid : Text → Bool
  pub baremetal_node_name : Text → Option Text
  pub baremetal_node_uuid : Text → Option Text
  pub port_ids_bound_to : Text → List Text
  pub port_by_id : Text → Option Port
  pub trunks : List Trunk

-- The exceptions, in the order of the steps.
pub data SearchError : Type 0 where
  no_core_plugin no_gateway_agent : SearchError
  unresolved : Text → SearchError
  no_gateway_ports : List Text → SearchError
  no_trunks : SearchError
  no_matching_trunk : Text → SearchError

unfoldable pub get_gateway_agent_host : List Text → Result SearchError Text
get_gateway_agent_host [] = err no_gateway_agent
get_gateway_agent_host (host ∷ agents) = ok host

abbrev pub or_unresolved : Text → Option Text → Result SearchError Text
or_unresolved host none = err (unresolved host)
or_unresolved host (some name) = ok name

-- The name of the node and its UUID.
unfoldable pub resolve_gateway_host : Services → Text → Result SearchError (Text × Text)
resolve_gateway_host services host =
    if services.is_uuid host
    then (do
      name ← or_unresolved host (set_text (services.baremetal_node_name host))
      ok (name, host))
    else (do
      uuid ← or_unresolved host (set_text (services.baremetal_node_uuid host))
      ok (host, uuid))

-- The ids of the ports bound to the hosts; a set in the source.
unfoldable pub port_ids_bound : Services → List Text → List Text
port_ids_bound services [] = []
port_ids_bound services (host ∷ hosts) =
    services.port_ids_bound_to host ++ port_ids_bound services hosts

abbrev pub with_port : Option Port → List Port → List Port
with_port none ports = ports
with_port (some port) ports = port ∷ ports

-- The ports that are still there.
unfoldable pub ports_found : Services → List Text → List Port
ports_found services [] = []
ports_found services (id ∷ ids) = with_port (services.port_by_id id) (ports_found services ids)

abbrev pub or_none_bound : List Text → List Port → Result SearchError (List Port)
or_none_bound hosts [] = err (no_gateway_ports hosts)
or_none_bound hosts (port ∷ ports) = ok (port ∷ ports)

unfoldable pub find_ports_bound_to_hosts : Services → List Text → Result SearchError (List Port)
find_ports_bound_to_hosts services hosts =
    or_none_bound hosts (ports_found services (distinct (port_ids_bound services hosts)))

-- The loop of `_find_trunk_by_port_ids`.
unfoldable pub first_trunk : Text → List Text → List Trunk → Result SearchError Text
first_trunk host port_ids [] = err (no_matching_trunk host)
first_trunk host port_ids (trunk ∷ trunks) =
    if contains trunk.port_id port_ids then ok trunk.id else first_trunk host port_ids trunks

unfoldable pub find_trunk_by_port_ids : Text → List Text → List Trunk → Result SearchError Text
find_trunk_by_port_ids host port_ids [] = err no_trunks
find_trunk_by_port_ids host port_ids (trunk ∷ trunks) = first_trunk host port_ids (trunk ∷ trunks)

-- Steps 3 to 5.
unfoldable pub find_trunk_of_node : Services → Text → Text → Result SearchError Text
find_trunk_of_node services name uuid = do
  ports ← find_ports_bound_to_hosts services (name ∷ uuid ∷ [])
  find_trunk_by_port_ids name (map (λ p. p.id) ports) services.trunks

unfoldable pub search : Services → Result SearchError Text
search services =
    if services.has_core_plugin
    then (do
      agent_host ← get_gateway_agent_host services.gateway_agents
      resolved ← resolve_gateway_host services agent_host
      find_trunk_of_node services resolved.0 resolved.1)
    else err no_core_plugin

abbrev pub and_cache : Option Text → Result SearchError Text → Result SearchError Text × Option Text
and_cache cached (err e) = (err e, cached)
and_cache cached (ok trunk_id) = (ok trunk_id, some trunk_id)

-- With `_cached_network_node_trunk_id` before and after.
unfoldable pub fetch_network_node_trunk_id :
    Services → Option Text → Result SearchError Text × Option Text
fetch_network_node_trunk_id services cached = elim (set_text cached) [
  | some trunk_id ↦ (ok trunk_id, cached)
  | none ↦ and_cache cached (search services)
]
