-- ===== src/Neutron/Adoption/Adopts.antt =====
-- The adoption of a node, and the handler that asks for it.
use understack.Prelude.{
  ◌≡◌, refl, ap, true, false, List, [], ◌∷◌, ◌++◌, some, Text, codes, Result, ok, err, inl, inr,
  Bool-cases,
}
use understack.Neutron.Adoption.{
  Owner, Node, manage, adopt, Call, set_provision_state, wait_for_active, update_node, Ironic,
  World, logged, call_ironic, return_node_to_available, in_turn, adoption, or_return,
  adopt_node_for_router, Router, Lookups, CreateError, flavor_misconfigured, no_anchor_network,
  no_netdev_node_available, not_adopted, resource_class_for_router, owner_of,
}
use understack.Neutron.Adoption.Returns.{IsDocumented}

-- The node is in service for its owner.
pub record IsAdopted {S : Type 0} (ironic : Ironic S) (node_id : Text) (owner : Owner) (w : World S)
    : Type 0 where
  pub node : Node
  pub found : ironic.get_node w.server node_id ≡ some node
  pub active : node.provision_state ≡ codes "active"
  pub owned : node.owner ≡ owner

-- The calls before one of them returned, and this one raised.
pub record IsStopped {S : Type 0} (ironic : Ironic S) (calls : List Call) (start : World S)
    (call : Call) (w : World S) : Type 0 where
  pub earlier : List Call
  pub later : List Call
  pub split : calls ≡ earlier ++ call ∷ later
  pub before : World S
  pub ran : in_turn ironic earlier start ≡ (ok tt, before)
  pub raised : (call_ironic ironic call before).0 ≡ false
  pub last : w ≡ (call_ironic ironic call before).1

-- The adoption was stopped by a call that raised, and right after it the node was returned.
abbrev pub IsReturned : {S : Type 0} → Ironic S → Text → Owner → World S → Call → World S → Type 0
IsReturned {S = S} ironic node_id owner start call w =
    (stopped : World S) × IsStopped ironic (adoption node_id owner) start call stopped
    × (w ≡ return_node_to_available ironic node_id stopped)

module _ {S : Type 0} (ironic : Ironic S) where
  abbrev pub Adopts : Text → Owner → World S → Result Call Unit × World S → Type 0
  Adopts node_id owner start (ok done, w) = IsAdopted ironic node_id owner w
  Adopts node_id owner start (err call, w) = IsReturned ironic node_id owner start call w

  -- All calls return, or one raises and is the last.
  abbrev Completes : (World S → Type 0) → List Call → World S → Result Call Unit × World S → Type 0
  Completes Q calls start (ok done, w) = Q w
  Completes Q calls start (err call, w) = IsStopped ironic calls start call w

  later-Completes :
      (Q : World S → Type 0) (call : Call) (calls : List Call) (w : World S)
      → (call_ironic ironic call w).0 ≡ true
      → (o : Result Call Unit × World S) → Completes Q calls (call_ironic ironic call w).1 o
      → Completes Q (call ∷ calls) w o
  unfolding in_turn
  later-Completes Q call calls w e (ok done, u) c = c
  later-Completes Q call calls w e (err raised, u) c = record {
    earlier = call ∷ c.earlier;
    later = c.later;
    split = ap (λ cs. call ∷ cs) c.split;
    before = c.before;
    ran = rw e c.ran;
    raised = c.raised;
    last = c.last;
  }

  then_Completes :
      (Q : World S → Type 0) (call : Call) (calls : List Call) (w : World S)
      → ((call_ironic ironic call w).0 ≡ true
          → Completes Q calls
              (call_ironic ironic call w).1
              (in_turn ironic calls (call_ironic ironic call w).1))
      → Completes Q (call ∷ calls) w (in_turn ironic (call ∷ calls) w)
  unfolding in_turn
  then_Completes Q call calls w step = elim (Bool-cases (call_ironic ironic call w).0) [
    | inl e ↦ rw (Completes, e) (later-Completes Q call calls w e _ (step e))
    | inr e ↦
        rw (Completes, e)
          (record {
            earlier = [];
            later = calls;
            split = refl;
            before = w;
            ran = refl;
            raised = e;
            last = refl;
          })
  ]

  Completes-Adopts :
      (node_id : Text) (owner : Owner) (start : World S) (o : Result Call Unit × World S)
      → Completes (IsAdopted ironic node_id owner) (adoption node_id owner) start o
      → Adopts node_id owner start (or_return ironic node_id o)
  Completes-Adopts node_id owner start (ok done, w) c = c
  Completes-Adopts node_id owner start (err call, w) c = (w, c, refl)

module _ {S : Type 0} (ironic : Ironic S) (documented : IsDocumented ironic) where
  adoption-Completes :
      (node_id : Text) (owner : Owner) (n : Node) (w : World S)
      → ironic.get_node w.server node_id ≡ some n
      → Completes ironic
          (IsAdopted ironic node_id owner)
          (adoption node_id owner)
          w
          (in_turn ironic (adoption node_id owner) w)
  unfolding call_ironic logged in_turn
  adoption-Completes node_id owner n w found =
      then_Completes ironic (IsAdopted ironic node_id owner) (set_provision_state node_id manage)
        (update_node node_id owner
          ∷ set_provision_state node_id adopt
          ∷ wait_for_active node_id
          ∷ [])
        w
        λ managed.
          let (n1, found1, same1) =
            documented.driven w.server node_id n manage found managed (inl refl) in
          let w1 = (call_ironic ironic (set_provision_state node_id manage) w).1 in
          then_Completes ironic (IsAdopted ironic node_id owner) (update_node node_id owner)
            (set_provision_state node_id adopt ∷ wait_for_active node_id ∷ []) w1
            λ stamped.
              let found2 = documented.updated w1.server node_id n1 owner found1 stamped in
              let w2 = (call_ironic ironic (update_node node_id owner) w1).1 in
              then_Completes ironic (IsAdopted ironic node_id owner)
                (set_provision_state node_id adopt) (wait_for_active node_id ∷ []) w2
                λ driven.
                  let (n3, found3, same3) =
                    documented.driven w2.server node_id (record n1 { owner = owner }) adopt found2
                      driven (inr refl) in
                  let w3 = (call_ironic ironic (set_provision_state node_id adopt) w2).1 in
                  then_Completes ironic (IsAdopted ironic node_id owner) (wait_for_active node_id)
                    [] w3
                    λ waited. record {
                      node = record n3 { provision_state = codes "active" };
                      found = documented.waited w3.server node_id n3 found3 waited;
                      active = refl;
                      owned = same3;
                    }

  -- With an Ironic that does what it documents, and for a node that it has: if
  -- `adopt_node_for_router` returns, the node is active and has the project, the router and its
  -- name; if it raises, one of its calls raised after those before it returned, and right after
  -- this call the node was passed to `_return_node_to_available`.
  pub adopt_node_for_router-Adopts :
      (node_id : Text) (owner : Owner) (n : Node) (w : World S)
      → ironic.get_node w.server node_id ≡ some n
      → Adopts ironic node_id owner w (adopt_node_for_router ironic node_id owner w)
  unfolding adopt_node_for_router
  adopt_node_for_router-Adopts node_id owner n w found =
      Completes-Adopts ironic node_id owner w (in_turn ironic (adoption node_id owner) w)
        (adoption-Completes node_id owner n w found)

-- The node is the one that is available in the resource class of the router's flavor.
abbrev pub IsOffered : Lookups → Text → Type 0
IsOffered lookups node_id =
    (resource_class : Text) × (resource_class_for_router lookups.profile_classes
      ≡ some resource_class)
    × (lookups.available_node resource_class ≡ some node_id)

-- What the handler leaves. Before the adoption nothing is called.
abbrev pub Creates :
    {S : Type 0}
    → Ironic S
    → Lookups
    → Router
    → World S
    → Result CreateError Unit × World S
    → Type 0
Creates ironic lookups router w (ok done, w') =
    (node_id : Text) × IsOffered lookups node_id × IsAdopted ironic node_id (owner_of router) w'
Creates ironic lookups router w (err (not_adopted call), w') =
    (node_id : Text) × IsOffered lookups node_id
    × IsReturned ironic node_id (owner_of router) w call w'
Creates ironic lookups router w (err flavor_misconfigured, w') = w' ≡ w
Creates ironic lookups router w (err no_anchor_network, w') = w' ≡ w
Creates ironic lookups router w (err (no_netdev_node_available resource_class), w') = w' ≡ w
