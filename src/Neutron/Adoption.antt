-- ===== src/Neutron/Adoption.antt =====
-- The adoption of a network appliance for a router, and its release: `IronicClient` of
-- python/neutron-understack/neutron_understack/ironic.py, and the handlers of routers of
-- python/neutron-understack/neutron_understack/l3_router/palo_alto.py that call it.
-- Ironic is a parameter with a state of its own. Every call that may change a node is logged, with
-- whether it returned. A wait is part of the call that it is for, but for the one after `adopt`.
pub mod Returns
pub mod Adopts
use understack.Prelude.{
  ℕ, ◌+◌, Bool, true, false, not, ◌&&◌, ◌||◌, if◌then◌else◌, List, [], ◌∷◌, ◌++◌, Option, none,
  some, Text, codes, text_eq, Result, ok, err,
}
use understack.Neutron.Trunks.{set_text}

-- `lessee`, `instance_id` and `instance_name`.
pub record Owner : Type 0 where
  pub lessee : Option Text
  pub instance_id : Option Text
  pub instance_name : Option Text

pub record Node : Type 0 where
  pub id : Text
  pub provision_state : Text
  pub owner : Owner

pub data Verb : Type 0 where
  manage adopt provide undeploy : Verb

pub data Call : Type 0 where
  set_provision_state : Text → Verb → Call
  wait_for_active : Text → Call
  update_node : Text → Owner → Call

-- Ironic: whether a call returns, and the state then; the nodes, and the search by instance.
pub record Ironic (S : Type 0) : Type 0 where
  pub perform : S → Call → Bool × S
  pub get_node : S → Text → Option Node
  pub node_by_instance : S → Text → Option Node

pub record World (S : Type 0) : Type 0 where
  pub server : S
  pub calls : List (Call × Bool)

-- The calls that raised.
unfoldable pub failures : List (Call × Bool) → ℕ
failures [] = 0
failures ((call, true) ∷ calls) = failures calls
failures ((call, false) ∷ calls) = failures calls + 1

abbrev pub nobody : Owner
nobody = record { lessee = none; instance_id = none; instance_name = none }

-- The calls of the adoption.
abbrev pub adoption : Text → Owner → List Call
adoption node_id owner =
    set_provision_state node_id manage
    ∷ update_node node_id owner
    ∷ set_provision_state node_id adopt
    ∷ wait_for_active node_id
    ∷ []

module _ {S : Type 0} (ironic : Ironic S) where
  unfoldable pub logged : Call → World S → Bool × S → Bool × World S
  logged call w (returned, s) =
      (returned, record { server = s; calls = w.calls ++ (call, returned) ∷ [] })

  unfoldable pub call_ironic : Call → World S → Bool × World S
  call_ironic call w = logged call w (ironic.perform w.server call)

  -- An exception is logged only.
  unfoldable pub clear_ownership : Text → World S → World S
  clear_ownership node_id w = (call_ironic (update_node node_id nobody) w).1

  unfoldable pub guarded_provision : Text → Verb → World S → World S
  guarded_provision node_id target w = (call_ironic (set_provision_state node_id target) w).1

  unfoldable pub return_from : Text → Text → World S → World S
  return_from node_id state w =
      if text_eq state (codes "available")
      then clear_ownership node_id w
      else if text_eq state (codes "manageable")
      then guarded_provision node_id provide (clear_ownership node_id w)
      else if text_eq state (codes "active")
      then clear_ownership node_id (guarded_provision node_id undeploy w)
      else w

  abbrev pub return_if_found : Option Node → World S → World S
  return_if_found none w = w
  return_if_found (some node) w = return_from node.id node.provision_state w

  unfoldable pub return_node_to_available : Text → World S → World S
  return_node_to_available node_id w = return_if_found (ironic.get_node w.server node_id) w

  -- The calls of the `try` block, up to the first that raises.
  unfoldable pub in_turn : List Call → World S → Result Call Unit × World S
  in_turn [] w = (ok tt, w)
  in_turn (call ∷ calls) w =
      let after = (call_ironic call w).1 in
      let rest = in_turn calls after in if (call_ironic call w).0 then rest else (err call, after)

  abbrev pub or_return : Text → Result Call Unit × World S → Result Call Unit × World S
  or_return node_id (ok done, w) = (ok done, w)
  or_return node_id (err call, w) = (err call, return_node_to_available node_id w)

  unfoldable pub adopt_node_for_router : Text → Owner → World S → Result Call Unit × World S
  adopt_node_for_router node_id owner w = or_return node_id (in_turn (adoption node_id owner) w)

  abbrev pub release_if_found : Option Node → World S → Option Node × World S
  release_if_found none w = (none, w)
  release_if_found (some node) w = (some node, return_node_to_available node.id w)

  unfoldable pub release_node_for_router : Text → World S → Option Node × World S
  release_node_for_router router_id w =
      release_if_found (ironic.node_by_instance w.server router_id) w

-- A router of the flavor.
pub record Router : Type 0 where
  pub id : Text
  pub name : Option Text
  pub project_id : Option Text

-- What the handler asks neutron and Ironic for first: whether the router is of this provider, the
-- resource class that each service profile of its flavor names, the first available node of a
-- class, and whether there is an anchor network, or one could be made.
pub record Lookups : Type 0 where
  pub is_palo_alto_provider : Bool
  pub profile_classes : List (Option Text)
  pub available_node : Text → Option Text
  pub has_anchor_network : Bool

pub data CreateError : Type 0 where
  flavor_misconfigured no_anchor_network : CreateError
  no_netdev_node_available : Text → CreateError
  not_adopted : Call → CreateError

-- The loop of `_resource_class_for_router`.
unfoldable pub resource_class_for_router : List (Option Text) → Option Text
resource_class_for_router [] = none
resource_class_for_router (profile_class ∷ classes) =
    let rest = resource_class_for_router classes in
    elim (set_text profile_class) [ some found ↦ some found | none ↦ rest ]

abbrev pub or_id : Option Text → Text → Text
or_id none id = id
or_id (some name) id = name

abbrev pub owner_of : Router → Owner
owner_of router = record {
  lessee = router.project_id;
  instance_id = some router.id;
  instance_name = some (or_id (set_text router.name) router.id);
}

module _ {S : Type 0} (ironic : Ironic S) where
  abbrev pub adopted : Result Call Unit × World S → Result CreateError Unit × World S
  adopted (ok done, w) = (ok done, w)
  adopted (err call, w) = (err (not_adopted call), w)

  abbrev pub create_on :
      Lookups → Router → Text → Option Text → World S → Result CreateError Unit × World S
  create_on lookups router resource_class none w =
      (err (no_netdev_node_available resource_class), w)
  create_on lookups router resource_class (some node_id) w =
      if lookups.has_anchor_network
      then adopted (adopt_node_for_router ironic node_id (owner_of router) w)
      else (err no_anchor_network, w)

  abbrev pub create_in :
      Lookups → Router → Option Text → World S → Result CreateError Unit × World S
  create_in lookups router none w = (err flavor_misconfigured, w)
  create_in lookups router (some resource_class) w =
      create_on lookups router resource_class (lookups.available_node resource_class) w

  unfoldable pub process_router_create :
      Lookups → Router → World S → Result CreateError Unit × World S
  process_router_create lookups router w =
      if lookups.is_palo_alto_provider
      then create_in lookups router (resource_class_for_router lookups.profile_classes) w
      else (ok tt, w)

  unfoldable pub process_router_delete : Lookups → Router → World S → World S
  process_router_delete lookups router w =
      if lookups.is_palo_alto_provider then (release_node_for_router ironic router.id w).1 else w
