-- ===== src/Netdev/Enroll/Existing.antt =====
-- `enroll` for a node that Ironic already has.
use mathlib.Core.List.{append-nil}
use understack.Prelude.{
  ◌≡◌, ◌⊎◌, refl, sym, subst, Bool, false, not, List, [], ◌∷◌, ◌++◌, is_nil, Text, Result, ok, err,
  arith, inl, inr, Result-cases, Bool-cases, text_eq, codes,
}
use understack.Netdev.Ports.{build_netdev_ports}
use understack.Netdev.Plan.{Plan}
use understack.Netdev.Enroll.{
  Call, create_node, update_node, update_port, create_port, set_node_provision_state,
  wait_for_node_provision_state, wrong_driver, cannot_enroll, conflict, invalid_ports,
  is_reenrollable, Error, Ironic, World, ◌>>=◌, lift, available, Node, Request, enroll, enroll_node,
  wanted_node, find_or_create_netdev_node, reuse_netdev_node, read, plan_ports,
}
use understack.Netdev.Enroll.Script.{after_all, IsSafe, IsLate, Ends}
use understack.Netdev.Enroll.Safety.{enroll_node-Runs}

IsSafe-ports : (s : Text) (cs : List Call) (busy : Bool) → IsSafe busy s cs → IsSafe false s cs
IsSafe-ports s [] busy h = tt
IsSafe-ports s (update_node uuid updates ∷ cs) busy (a, h) = ((λ e. cc), IsSafe-ports s cs busy h)
IsSafe-ports s (update_port uuid patch ∷ cs) busy (a, h) = (a, IsSafe-ports s cs busy h)
IsSafe-ports s (create_port port ∷ cs) busy (a, h) = (a, IsSafe-ports s cs busy h)
IsSafe-ports s (create_node d ∷ cs) busy (a, h) = (tt, IsSafe-ports s cs busy h)
IsSafe-ports s (set_node_provision_state u t ∷ cs) busy (a, h) = (tt, IsSafe-ports s cs busy h)
IsSafe-ports s (wait_for_node_provision_state u t ∷ cs) busy (a, h) = (tt, IsSafe-ports t cs busy h)

returned :
    (r : Result Error (Unit {0})) (s : Text)
    → Ends (λ _ t. t ≡ available) r s
    → r ≡ ok tt
    → s ≡ available
returned (ok a) s h p = h
returned (err e) s h p = cc

raised :
    (r : Result Error (Unit {0})) (s : Text)
    → Ends (λ _ t. t ≡ available) r s
    → (e : Error) → r ≡ err e
    → IsLate e
raised (ok a) s h e p = cc
raised (err x) s h e p = subst IsLate (ground arith) h

reuse_cases :
    (node : Node)
    → ((e : Error) × (reuse_netdev_node node ≡ err e)) ⊎ (reuse_netdev_node node ≡ ok (node, false))
unfolding reuse_netdev_node
reuse_cases node = elim (Bool-cases (not (text_eq node.driver (codes "netdev")))) [
  | inl other ↦ inl (wrong_driver node.driver, rw other)
  | inr netdev ↦ elim (Bool-cases (not (is_reenrollable node.provision_state))) [
    | inl in_use ↦ inl (cannot_enroll node.provision_state, rw (netdev, in_use))
    | inr idle ↦ inr (rw (netdev, idle))
  ]
]

module _ {S : Type 0} (ironic : Ironic S) (request : Request) (node : Node) (w : World S)
    (found : ironic.get_node w.server request.name ≡ ok node) where
  find-found :
      find_or_create_netdev_node ironic (wanted_node request) w ≡ (reuse_netdev_node node, w)
  unfolding find_or_create_netdev_node wanted_node
  find-found = rw (found, find_or_create_netdev_node)

  -- Either the call is refused with nothing done, or it comes to the calls for the node.
  enroll_cases :
      ((e : Error) × (enroll ironic request w ≡ (err e, w)))
      ⊎ ((plans : List Plan) × (enroll ironic request w
            ≡ enroll_node ironic request node false (wanted_node request) plans w))
  unfolding enroll ◌>>=◌ lift read
  enroll_cases = elim (Result-cases (build_netdev_ports request.ports)) [
    | inr (e, bad_ports) ↦ inl (invalid_ports e, rw (bad_ports, enroll))
    | inl (ports, built) ↦ elim (reuse_cases node) [
      | inl (e, refused) ↦ inl (e, rw (built, find-found, refused))
      | inr reused ↦ elim (Result-cases (ironic.list_ports w.server node.uuid)) [
        | inr (e, failed) ↦ inl (Error.api e, rw (built, find-found, reused, failed))
        | inl (node_ports, listed) ↦
            elim (Result-cases
              (plan_ports request.name request.physical_network node_ports ports)) [
                | inr (e, clash) ↦ inl (conflict e, rw (built, find-found, reused, listed, clash))
                | inl (plans, planned) ↦
                    inr (plans, rw (built, find-found, reused, listed, planned))
              ]
      ]
    ]
  ]

  -- For a node that Ironic has, and whatever Ironic answers to the calls: no call of `enroll`
  -- changes a port while the node is available; if `enroll` returns, the node is available; an
  -- error other than one of Ironic's, or the refusal of the node's state in `make_available`, is
  -- raised before any call.
  pub enroll-IsSafe :
      (cs : List Call) × ((enroll ironic request w).1.calls ≡ w.calls ++ cs)
      × IsSafe false node.provision_state cs
      × ((enroll ironic request w).0 ≡ ok tt → after_all node.provision_state cs ≡ available)
      × ((e : Error) → (enroll ironic request w).0 ≡ err e → IsLate e ⊎ (cs ≡ []))
  enroll-IsSafe = elim enroll_cases [
    | inl (e, refused) ↦
        ([], rw refused (sym (append-nil w.calls)), tt, rw refused (λ p. cc), λ x p. inr refl)
    | inr (plans, same) ↦
        let (cs, logged, safe, end) =
          (enroll_node-Runs ironic node (not (is_nil plans)) request false (wanted_node request)
              plans refl).at
            w in
        (
          cs,
          rw same logged,
          IsSafe-ports node.provision_state cs (not (is_nil plans)) safe,
          rw same (λ p. returned _ _ end p),
          rw same (λ x p. inl (raised _ _ end x p)),
        )
  ]
