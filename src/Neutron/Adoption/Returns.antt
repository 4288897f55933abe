-- ===== src/Neutron/Adoption/Returns.antt =====
-- The return of a node to the pool.
use understack.Prelude.{
  ◌+◌, ◌≤◌, ◌≡◌, refl, sym, ap, ◌∙◌, subst, Bool, true, false, ◌||◌, if◌then◌else◌, List, [], ◌∷◌,
  ◌++◌, some, Text, codes, text_eq, text_eq_sound, arith, ◌⊎◌, inl, inr, Bool-cases,
}
use understack.Neutron.Adoption.{
  Owner, Node, Verb, manage, adopt, provide, undeploy, Call, set_provision_state, wait_for_active,
  update_node, Ironic, World, failures, nobody, logged, call_ironic, clear_ownership,
  guarded_provision, return_from, return_if_found, return_node_to_available,
}

-- What Ironic documents of the calls that return; nothing is said of one that raises.
pub record IsDocumented {S : Type 0} (ironic : Ironic S) : Type 0 where
  pub by_id : (s : S) (id : Text) (n : Node) → ironic.get_node s id ≡ some n → n.id ≡ id
  pub updated :
      (s : S) (id : Text) (n : Node) (owner : Owner)
      → ironic.get_node s id ≡ some n
      → (ironic.perform s (update_node id owner)).0 ≡ true
      → ironic.get_node (ironic.perform s (update_node id owner)).1 id
        ≡ some (record n { owner = owner })
  pub provided :
      (s : S) (id : Text) (n : Node)
      → ironic.get_node s id ≡ some n
      → (ironic.perform s (set_provision_state id provide)).0 ≡ true
      → ironic.get_node (ironic.perform s (set_provision_state id provide)).1 id
        ≡ some (record n { provision_state = codes "available" })
  pub undeployed :
      (s : S) (id : Text) (n : Node)
      → ironic.get_node s id ≡ some n
      → (ironic.perform s (set_provision_state id undeploy)).0 ≡ true
      → (m : Node) × (ironic.get_node (ironic.perform s (set_provision_state id undeploy)).1 id
          ≡ some m)
        × (m.provision_state ≡ codes "available")
  pub driven :
      (s : S) (id : Text) (n : Node) (verb : Verb)
      → ironic.get_node s id ≡ some n
      → (ironic.perform s (set_provision_state id verb)).0 ≡ true
      → (verb ≡ manage) ⊎ (verb ≡ adopt)
      → (m : Node) × (ironic.get_node (ironic.perform s (set_provision_state id verb)).1 id
          ≡ some m)
        × (m.owner ≡ n.owner)
  pub waited :
      (s : S) (id : Text) (n : Node)
      → ironic.get_node s id ≡ some n
      → (ironic.perform s (wait_for_active id)).0 ≡ true
      → ironic.get_node (ironic.perform s (wait_for_active id)).1 id
        ≡ some (record n { provision_state = codes "active" })

-- A node that the next router may be given.
pub record IsFree {S : Type 0} (ironic : Ironic S) (node_id : Text) (s : S) : Type 0 where
  pub node : Node
  pub found : ironic.get_node s node_id ≡ some node
  pub available : node.provision_state ≡ codes "available"
  pub unowned : node.owner ≡ nobody

-- The states from which a node can be returned.
abbrev pub is_settled : Text → Bool
is_settled state =
    text_eq state (codes "available")
    || (text_eq state (codes "manageable") || text_eq state (codes "active"))

failures-append :
    (calls : List (Call × Bool)) (call : Call) (returned : Bool)
    → failures (calls ++ (call, returned) ∷ []) ≡ failures calls + (if returned then 0 else 1)
unfolding failures
failures-append [] call true = refl
failures-append [] call false = refl
failures-append ((c, true) ∷ calls) call returned = failures-append calls call returned
failures-append ((c, false) ∷ calls) call returned =
    ground (arith, failures-append calls call returned)

module _ {S : Type 0} (ironic : Ironic S) (documented : IsDocumented ironic) where
  call-failures :
      (call : Call) (w : World S)
      → failures (call_ironic ironic call w).1.calls
        ≡ failures w.calls + (if (ironic.perform w.server call).0 then 0 else 1)
  unfolding call_ironic logged
  call-failures call w = failures-append w.calls call (ironic.perform w.server call).0

  -- A call that adds no failure has returned.
  call-returned :
      (call : Call) (w : World S)
      → failures (call_ironic ironic call w).1.calls ≤ failures w.calls
      → (ironic.perform w.server call).0 ≡ true
  call-returned call w h = ground (arith, call-failures call w)

  call_grows :
      (call : Call) (w : World S) → failures w.calls ≤ failures (call_ironic ironic call w).1.calls
  call_grows call w = ground (arith, call-failures call w)

  cleared :
      (node_id : Text) (n : Node) (w : World S)
      → ironic.get_node w.server node_id ≡ some n
      → failures (clear_ownership ironic node_id w).calls ≤ failures w.calls
      → ironic.get_node (clear_ownership ironic node_id w).server node_id
        ≡ some (record n { owner = nobody })
  unfolding clear_ownership call_ironic logged
  cleared node_id n w found h =
      documented.updated w.server node_id n nobody found
        (call-returned (update_node node_id nobody) w h)

  from_available :
      (node_id : Text) (n : Node) (w : World S)
      → ironic.get_node w.server node_id ≡ some n
      → n.provision_state ≡ codes "available"
      → failures (clear_ownership ironic node_id w).calls ≡ failures w.calls
      → IsFree ironic node_id (clear_ownership ironic node_id w).server
  from_available node_id n w found available h = record {
    node = record n { owner = nobody };
    found = cleared node_id n w found (ground arith);
    available = available;
    unowned = refl;
  }

  from_manageable :
      (node_id : Text) (n : Node) (w : World S)
      → ironic.get_node w.server node_id ≡ some n
      → failures (guarded_provision ironic node_id provide (clear_ownership ironic node_id w)).calls
        ≡ failures w.calls
      → IsFree ironic node_id
          (guarded_provision ironic node_id provide (clear_ownership ironic node_id w)).server
  unfolding guarded_provision clear_ownership call_ironic logged
  from_manageable node_id n w found h =
      let u = clear_ownership ironic node_id w in
      let call = set_provision_state node_id provide in
      let grows = call_grows (update_node node_id nobody) w in
      let more = call_grows call u in
      let clear = cleared node_id n w found (ground arith) in
      record {
        node = record n { owner = nobody; provision_state = codes "available" };
        found =
            documented.provided u.server node_id (record n { owner = nobody }) clear
              (call-returned call u (ground arith));
        available = refl;
        unowned = refl;
      }

  from_active :
      (node_id : Text) (n : Node) (w : World S)
      → ironic.get_node w.server node_id ≡ some n
      → failures
          (clear_ownership ironic node_id (guarded_provision ironic node_id undeploy w)).calls
        ≡ failures w.calls
      → IsFree ironic node_id
          (clear_ownership ironic node_id (guarded_provision ironic node_id undeploy w)).server
  unfolding guarded_provision clear_ownership call_ironic logged
  from_active node_id n w found h =
      let call = set_provision_state node_id undeploy in
      let u = guarded_provision ironic node_id undeploy w in
      let grows = call_grows call w in
      let more = call_grows (update_node node_id nobody) u in
      let (m, there, available) =
        documented.undeployed w.server node_id n found (call-returned call w (ground arith)) in
      record {
        node = record m { owner = nobody };
        found = cleared node_id m u there (ground arith);
        available = available;
        unowned = refl;
      }

  return_from-IsFree :
      (node_id : Text) (n : Node) (w : World S)
      → ironic.get_node w.server node_id ≡ some n
      → is_settled n.provision_state ≡ true
      → failures (return_from ironic node_id n.provision_state w).calls ≡ failures w.calls
      → IsFree ironic node_id (return_from ironic node_id n.provision_state w).server
  unfolding return_from
  return_from-IsFree node_id n w found settled h =
      elim (Bool-cases (text_eq n.provision_state (codes "available"))) [
        | inl e ↦ rw e (
            from_available node_id n w found (text_eq_sound n.provision_state (codes "available") e)
              (rw e at h))
        | inr e ↦ elim (Bool-cases (text_eq n.provision_state (codes "manageable"))) [
          | inl f ↦ rw e (rw f (from_manageable node_id n w found (rw f at (rw e at h))))
          | inr f ↦ elim (Bool-cases (text_eq n.provision_state (codes "active"))) [
            | inl g ↦
                rw e (rw f (rw g (from_active node_id n w found (rw g at (rw f at (rw e at h))))))
            | inr g ↦ let unsettled : false ≡ true = rw g at (rw f at (rw e at settled)) in cc
          ]
        ]
      ]

  -- With an Ironic that does what it documents: if `_return_node_to_available` finds the node
  -- available, manageable or active, and none of its calls raises, then the node is available
  -- and has no lessee, instance or instance name.
  pub return_node_to_available-IsFree :
      (node_id : Text) (n : Node) (w : World S)
      → ironic.get_node w.server node_id ≡ some n
      → is_settled n.provision_state ≡ true
      → failures (return_node_to_available ironic node_id w).calls ≡ failures w.calls
      → IsFree ironic node_id (return_node_to_available ironic node_id w).server
  unfolding return_node_to_available
  return_node_to_available-IsFree node_id n w found settled h =
      let same =
        ap (λ o. return_if_found ironic o w) found
        ∙ ap (λ i. return_from ironic i n.provision_state w)
            (documented.by_id w.server node_id n found) in
      subst (λ x. IsFree ironic node_id x.server) (sym same)
        (return_from-IsFree node_id n w found settled
          (subst (λ x. failures x.calls ≡ failures w.calls) same h))
