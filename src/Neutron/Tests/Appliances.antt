-- ===== src/Neutron/Tests/Appliances.antt =====
-- Runs of the adoption, and each theorem at a concrete input.
use understack.Prelude.{
  ◌≡◌, refl, sym, ap, ◌∙◌, subst, Bool, true, false, if◌then◌else◌, [], ◌∷◌, Option, none, some,
  some-injective, Text, codes, text_eq, text_eq_sound, inl, inr, Bool-cases,
}
use understack.Neutron.Adoption.{
  Node, Verb, manage, adopt, provide, undeploy, Call, set_provision_state, wait_for_active,
  update_node, Ironic, World, failures, nobody, logged, call_ironic, clear_ownership,
  guarded_provision, return_from, return_node_to_available, in_turn, adopt_node_for_router, Router,
  Lookups, owner_of,
}
use understack.Neutron.Adoption.Returns.{IsDocumented, IsFree, return_node_to_available-IsFree}
use understack.Neutron.Adoption.Adopts.{Adopts, adopt_node_for_router-Adopts}

abbrev in_state : Node → Text → Node
in_state n state = record n { provision_state = state }

-- One node, which every call but the given one reaches.
abbrev perform : (Call → Bool) → Node → Call → Bool × Node
perform works n (set_provision_state id manage) =
    (works (set_provision_state id manage), in_state n (codes "manageable"))
perform works n (set_provision_state id adopt) =
    (works (set_provision_state id adopt), in_state n (codes "adopting"))
perform works n (set_provision_state id provide) =
    (works (set_provision_state id provide), in_state n (codes "available"))
perform works n (set_provision_state id undeploy) =
    (works (set_provision_state id undeploy), in_state n (codes "available"))
perform works n (wait_for_active id) = (works (wait_for_active id), in_state n (codes "active"))
perform works n (update_node id owner) = (works (update_node id owner), record n { owner = owner })

get_node : Node → Text → Option Node
get_node s id = if text_eq id s.id then some s else none

abbrev one_node : (Call → Bool) → Ironic Node
one_node works = record {
  perform = perform works;
  get_node = get_node;
  node_by_instance = λ s id. none;
}

get_node_after :
    (f : Node → Node) (s : Node) (id : Text) (n : Node)
    → (f s).id ≡ s.id
    → get_node s id ≡ some n
    → get_node (f s) id ≡ some (f n)
unfolding get_node
get_node_after f s id n same h = elim (Bool-cases (text_eq id s.id)) [
  | inl e ↦
      subst (λ m. (if text_eq id (f s).id then some (f s) else none) ≡ some (f m))
        (some-injective s n (rw e at h)) (rw same (rw e refl))
  | inr e ↦ let nothing : none ≡ some n = rw e at h in cc
]

get_node-id : (s : Node) (id : Text) (n : Node) → get_node s id ≡ some n → n.id ≡ id
unfolding get_node
get_node-id s id n h = elim (Bool-cases (text_eq id s.id)) [
  | inl e ↦ ap (λ m. m.id) (sym (some-injective s n (rw e at h))) ∙ sym (text_eq_sound id s.id e)
  | inr e ↦ let nothing : none ≡ some n = rw e at h in cc
]

driven :
    (works : Call → Bool) (s : Node) (id : Text) (n : Node) (verb : Verb)
    → get_node s id ≡ some n
    → (m : Node) × (get_node (perform works s (set_provision_state id verb)).1 id ≡ some m)
      × (m.owner ≡ n.owner)
driven works s id n manage h = (
  in_state n (codes "manageable"),
  get_node_after (λ m. in_state m (codes "manageable")) s id n refl h,
  refl,
)
driven works s id n adopt h = (
  in_state n (codes "adopting"),
  get_node_after (λ m. in_state m (codes "adopting")) s id n refl h,
  refl,
)
driven works s id n provide h = (
  in_state n (codes "available"),
  get_node_after (λ m. in_state m (codes "available")) s id n refl h,
  refl,
)
driven works s id n undeploy h = (
  in_state n (codes "available"),
  get_node_after (λ m. in_state m (codes "available")) s id n refl h,
  refl,
)

one_node-IsDocumented : (works : Call → Bool) → IsDocumented (one_node works)
unfolding get_node
one_node-IsDocumented works = record {
  by_id = λ s id n h. get_node-id s id n h;
  updated = λ s id n owner h r. get_node_after (λ m. record m { owner = owner }) s id n refl h;
  provided = λ s id n h r. get_node_after (λ m. in_state m (codes "available")) s id n refl h;
  undeployed = λ s id n h r. (
    in_state n (codes "available"),
    get_node_after (λ m. in_state m (codes "available")) s id n refl h,
    refl,
  );
  driven = λ s id n verb h r which. driven works s id n verb h;
  waited = λ s id n h r. get_node_after (λ m. in_state m (codes "active")) s id n refl h;
}

abbrev router : Router
router = record { id = codes "r"; name = some []; project_id = some (codes "project") }

abbrev spare : Node
spare = record { id = codes "node"; provision_state = codes "available"; owner = nobody }

abbrev all_work : Ironic Node
all_work = one_node (λ call. true)

-- `adopt` is refused.
abbrev no_adoption : Call → Bool
no_adoption (set_provision_state id adopt) = false
no_adoption call = true

abbrev start : World Node
start = record { server = spare; calls = [] }

abbrev leased : World Node
leased = record {
  server = record spare { provision_state = codes "active"; owner = owner_of router };
  calls = [];
}

abbrev lookups : Lookups
lookups = record {
  is_palo_alto_provider = true;
  profile_classes = none ∷ some [] ∷ some (codes "firewall") ∷ [];
  available_node = λ resource_class. some (codes "node");
  has_anchor_network = true;
}

adopted-run :
    (adopt_node_for_router all_work (codes "node") (owner_of router) start).1.server ≡ leased.server
unfolding adopt_node_for_router in_turn call_ironic logged
adopted-run = refl

-- An Ironic in which a call that raises has no effect.
abbrev strict : (Call → Bool) → Ironic Node
strict works = record (one_node works) {
  perform = λ n call. (works call, if works call then (perform works n call).1 else n);
}

-- `manage` is refused.
abbrev no_manage : Call → Bool
no_manage (set_provision_state id manage) = false
no_manage call = true

-- The node was stamped and is manageable: it is returned.
refused-run :
    (adopt_node_for_router (strict no_adoption) (codes "node") (owner_of router) start).1.server
    ≡ spare
unfolding adopt_node_for_router in_turn call_ironic logged return_node_to_available return_from
    get_node text_eq clear_ownership guarded_provision
refused-run = refl

-- The node is another router's by then: the roll-back takes it away from that router.
taken-run :
    (adopt_node_for_router
      (strict no_manage)
      (codes "node")
      (record nobody { instance_id = some (codes "r2") })
      leased).1.server
    ≡ spare
unfolding adopt_node_for_router in_turn call_ironic logged return_node_to_available return_from
    get_node text_eq clear_ownership guarded_provision
taken-run = refl

return_node_to_available-IsFree_example :
    IsFree all_work (codes "node") (return_node_to_available all_work (codes "node") leased).server
unfolding get_node text_eq failures return_node_to_available return_from clear_ownership
    guarded_provision call_ironic logged
return_node_to_available-IsFree_example =
    return_node_to_available-IsFree all_work (one_node-IsDocumented (λ call. true)) (codes "node")
      leased.server leased refl refl refl

adopt_node_for_router-Adopts_example :
    Adopts all_work
      (codes "node")
      (owner_of router)
      start
      (adopt_node_for_router all_work (codes "node") (owner_of router) start)
unfolding get_node text_eq
adopt_node_for_router-Adopts_example =
    adopt_node_for_router-Adopts all_work (one_node-IsDocumented (λ call. true)) (codes "node")
      (owner_of router) spare start refl
