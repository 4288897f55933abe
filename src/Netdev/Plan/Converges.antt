-- ===== src/Netdev/Plan/Converges.antt =====
-- One update brings a port to where the next run leaves it alone.
use understack.Prelude.{
  ◌≡◌, ◌∙◌, refl, sym, ap, Bool, true, false, not, ◌&&◌, if◌then◌else◌, List, [], ◌∷◌, ◌++◌, Option,
  none, some, Text, codes, text_eq, opt_text_eq, opt_text_eq_iff, lower, ok, Dict, get, arith,
  Bool-cases, inl, inr,
}
use understack.Netdev.Ports.{NetdevPort}
use understack.Netdev.Plan.{
  other_owner, Port, PatchOp, add_address, add_physical_network, add_category,
  add_local_link_connection, update, plan_netdev_port, build_patch, mac_differs, desired_llc,
  llc_differs, current_llc, text_or_empty, add_if, update_unless_empty,
}
use understack.Netdev.Plan.Laws.{
  Matches, llc_differs_iff, mac_differs_iff, choose_idem, plan-none_iff,
}

update_patch_cases :
    (p q : Port) (patch ops : List PatchOp)
    → update_unless_empty p patch ≡ some (update q ops)
    → (q ≡ p) × (ops ≡ patch)
update_patch_cases p q [] ops h = cc
update_patch_cases p q (op ∷ patch) ops h = (ground arith, ground arith)

update_patch :
    (node_name network : Text) (port : NetdevPort) (p q : Port) (ops : List PatchOp)
    (by_mac : Dict Port)
    → plan_netdev_port node_name network port (some p) by_mac ≡ ok (some (update q ops))
    → (q ≡ p) × (ops ≡ build_patch network port p)
unfolding plan_netdev_port
update_patch node_name network port p q ops by_mac h =
    elim (Bool-cases (mac_differs port p && other_owner (get (lower port.mac) by_mac) p)) [
      | inl conflict ↦ absurd (ground arith)
      | inr free ↦ update_patch_cases p q (build_patch network port p) ops (ground arith)
    ]

-- What the code relies on in Ironic: an operation of a patch sets one field of the port, and
-- leaves the rest.
pub record Patches (apply : PatchOp → Port → Port) : Type 0 where
  pub at_address : (v : Text) (p : Port) → apply (add_address v) p ≡ record p { address = some v }
  pub at_network :
      (v : Text) (p : Port)
      → apply (add_physical_network v) p ≡ record p { physical_network = some v }
  pub at_category :
      (v : Text) (p : Port) → apply (add_category v) p ≡ record p { category = some v }
  pub at_llc :
      (d : Dict Text) (p : Port)
      → apply (add_local_link_connection d) p ≡ record p { local_link_connection = some d }

pub apply_all : (PatchOp → Port → Port) → List PatchOp → Port → Port
apply_all apply [] p = p
apply_all apply (op ∷ ops) p = apply_all apply ops (apply op p)

module _ (apply : PatchOp → Port → Port) (laws : Patches apply) where
  apply-address :
      (b : Bool) (v : Text) (ops : List PatchOp) (p : Port)
      → apply_all apply (add_if b (add_address v) ++ ops) p
        ≡ apply_all apply ops (record p { address = if b then some v else p.address })
  unfolding apply_all
  apply-address true v ops p = rw (laws.at_address v p)
  apply-address false v ops p = refl

  apply-network :
      (b : Bool) (v : Text) (ops : List PatchOp) (p : Port)
      → apply_all apply (add_if b (add_physical_network v) ++ ops) p
        ≡ apply_all apply ops
            (record p { physical_network = if b then some v else p.physical_network })
  unfolding apply_all
  apply-network true v ops p = rw (laws.at_network v p)
  apply-network false v ops p = refl

  apply-category :
      (b : Bool) (v : Text) (ops : List PatchOp) (p : Port)
      → apply_all apply (add_if b (add_category v) ++ ops) p
        ≡ apply_all apply ops (record p { category = if b then some v else p.category })
  unfolding apply_all
  apply-category true v ops p = rw (laws.at_category v p)
  apply-category false v ops p = refl

  apply-llc :
      (b : Bool) (d : Dict Text) (p : Port)
      → apply_all apply (add_if b (add_local_link_connection d)) p
        ≡ record p { local_link_connection = if b then some d else p.local_link_connection }
  unfolding apply_all
  apply-llc true d p = rw (laws.at_llc d p)
  apply-llc false d p = refl

  -- The port after the patch, field by field.
  patched : Text → NetdevPort → Port → Port
  patched network port p = record p {
    address = if mac_differs port p then some port.mac else p.address;
    physical_network =
        if not (opt_text_eq p.physical_network (some network))
        then some network
        else p.physical_network;
    category =
        if not (opt_text_eq p.category (some (codes "network")))
        then some (codes "network")
        else p.category;
    local_link_connection =
        if llc_differs (current_llc p) (desired_llc port p)
        then some (desired_llc port p)
        else p.local_link_connection;
  }

  apply_all-build_patch :
      (network : Text) (port : NetdevPort) (p : Port)
      → apply_all apply (build_patch network port p) p ≡ patched network port p
  unfolding build_patch patched
  apply_all-build_patch network port p =
      apply-address (mac_differs port p) port.mac _ p
      ∙ apply-network (not (opt_text_eq p.physical_network (some network))) network _ _
      ∙ apply-category (not (opt_text_eq p.category (some (codes "network")))) (codes "network") _ _
      ∙ apply-llc (llc_differs (current_llc p) (desired_llc port p)) (desired_llc port p) _

  reached :
      (o : Option Text) (v : Text) → (if not (opt_text_eq o (some v)) then some v else o) ≡ some v
  reached o v = ground (arith, opt_text_eq_iff o (some v))

  patched_mac :
      (port : NetdevPort) (p : Port)
      → lower (text_or_empty (if mac_differs port p then some port.mac else p.address))
        ≡ lower port.mac
  patched_mac port p = elim (Bool-cases (mac_differs port p)) [
    | inl differs ↦ rw differs refl
    | inr same ↦ rw same ((mac_differs_iff port p).0 same)
  ]

  patched-Matches :
      (network : Text) (port : NetdevPort) (p : Port)
      → Matches network port (patched network port p)
  unfolding patched
  patched-Matches network port p =
      elim (Bool-cases (llc_differs (current_llc p) (desired_llc port p))) [
        | inr same ↦
            let (x, y, z) = (llc_differs_iff port p).0 same in
            rw same (record {
              mac = patched_mac port p;
              network = reached p.physical_network network;
              category = reached p.category (codes "network");
              switch_info = y;
              port_id = z;
              switch_id = x;
            })
        | inl differs ↦ rw differs (record {
          mac = patched_mac port p;
          network = reached p.physical_network network;
          category = reached p.category (codes "network");
          switch_info = unfold desired_llc get text_eq in refl;
          port_id = unfold desired_llc get text_eq in refl;
          switch_id =
              unfold desired_llc get text_eq in
              ap some (sym (choose_idem port.switch_id (get (codes "switch_id") (current_llc p))));
        })
      ]

  -- Where Ironic applies each operation of a patch to its field and to no other, an update that
  -- `plan_netdev_port` plans brings the port to match the request, and the next plan for it is
  -- to do nothing, whichever ports have which MACs by then.
  pub plan_converges :
      (node_name network : Text) (port : NetdevPort) (p q : Port) (ops : List PatchOp)
      (by_mac by_mac' : Dict Port)
      → plan_netdev_port node_name network port (some p) by_mac ≡ ok (some (update q ops))
      → (q ≡ p)
        × Matches network port (apply_all apply ops p)
        × (plan_netdev_port node_name network port (some (apply_all apply ops p)) by_mac' ≡ ok none)
  plan_converges node_name network port p q ops by_mac by_mac' h =
      let (same, patch) = update_patch node_name network port p q ops by_mac h in
      let at_patched : apply_all apply ops p ≡ patched network port p =
        rw patch (apply_all-build_patch network port p) in
      let m = patched-Matches network port p in
      (
        same,
        rw at_patched m,
        rw at_patched ((plan-none_iff node_name network port (patched network port p) by_mac').1 m),
      )
