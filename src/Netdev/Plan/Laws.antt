-- ===== src/Netdev/Plan/Laws.antt =====
-- When a port needs no work, and that one update brings it there.
use understack.Prelude.{
  ◌≡◌, ◌↔◌, ◌⊎◌, refl, Bool, true, false, not, ◌&&◌, List, [], ◌∷◌, ◌++◌, Option, none, some, Text,
  codes, text_eq, text_eq_iff, text_eq_refl, opt_text_eq, opt_text_eq_iff, lower, ok, Dict, get,
  arith, Bool-cases, inl, inr,
}
use understack.Netdev.Ports.{NetdevPort}
use understack.Netdev.Plan.{
  other_owner, Port, PatchOp, add_address, add_physical_network, add_category,
  add_local_link_connection, Plan, plan_netdev_port, build_patch, mac_differs, desired_llc,
  llc_differs, current_llc, choose_switch_id, text_or_empty, placeholder_switch_id, add_if,
  update_unless_empty,
}

-- The port is as requested: its MAC up to case, the network, the category, the switch and the
-- interface; its switch id is the one that was asked for, or else a real one or the placeholder.
pub record Matches (physical_network : Text) (port : NetdevPort) (p : Port) : Type 0 where
  pub mac : lower (text_or_empty p.address) ≡ lower port.mac
  pub network : p.physical_network ≡ some physical_network
  pub category : p.category ≡ some (codes "network")
  pub switch_info : get (codes "switch_info") (current_llc p) ≡ some port.switch
  pub port_id : get (codes "port_id") (current_llc p) ≡ some port.interface
  pub switch_id :
      get (codes "switch_id") (current_llc p)
      ≡ some (choose_switch_id port.switch_id (get (codes "switch_id") (current_llc p)))

pub llc_differs_iff :
    (port : NetdevPort) (p : Port)
    → (llc_differs (current_llc p) (desired_llc port p) ≡ false) ↔ (
        (get (codes "switch_id") (current_llc p)
          ≡ some (choose_switch_id port.switch_id (get (codes "switch_id") (current_llc p))))
        × (get (codes "switch_info") (current_llc p) ≡ some port.switch)
        × (get (codes "port_id") (current_llc p) ≡ some port.interface))
unfolding llc_differs desired_llc
llc_differs_iff port p =
    let current = current_llc p in
    let id = get (codes "switch_id") current in
    let id_iff = opt_text_eq_iff id (some (choose_switch_id port.switch_id id)) in
    let info_iff = opt_text_eq_iff (get (codes "switch_info") current) (some port.switch) in
    let port_iff = opt_text_eq_iff (get (codes "port_id") current) (some port.interface) in
    (
      λ h. (id_iff.0 (ground arith), info_iff.0 (ground arith), port_iff.0 (ground arith)),
      λ (a, b, c). rw (id_iff.1 a, info_iff.1 b, port_iff.1 c),
    )

no_op :
    (a b c d : Bool) (o p q r : PatchOp)
    → add_if a o ++ (add_if b p ++ (add_if c q ++ add_if d r)) ≡ []
    → (a ≡ false) × (b ≡ false) × (c ≡ false) × (d ≡ false)
no_op false false false false o p q r h = (refl, refl, refl, refl)
no_op true b c d o p q r h = cc
no_op false true c d o p q r h = cc
no_op false false true d o p q r h = cc
no_op false false false true o p q r h = cc

not-false : (b : Bool) → not b ≡ false → b ≡ true
not-false true h = refl
not-false false h = cc

pub mac_differs_iff :
    (port : NetdevPort) (p : Port)
    → (mac_differs port p ≡ false) ↔ (lower (text_or_empty p.address) ≡ lower port.mac)
unfolding mac_differs
mac_differs_iff port p =
    let same = text_eq_iff (lower (text_or_empty p.address)) (lower port.mac) in
    (λ h. same.0 (not-false _ h), λ e. rw (same.1 e))

build_patch_empty_iff :
    (network : Text) (port : NetdevPort) (p : Port)
    → (build_patch network port p ≡ []) ↔ Matches network port p
unfolding build_patch
build_patch_empty_iff network port p = (
  λ h.
      let (a, b, c, d) =
        no_op (mac_differs port p) (not (opt_text_eq p.physical_network (some network)))
          (not (opt_text_eq p.category (some (codes "network"))))
          (llc_differs (current_llc p) (desired_llc port p)) (add_address port.mac)
          (add_physical_network network) (add_category (codes "network"))
          (add_local_link_connection (desired_llc port p)) h in
      let (x, y, z) = (llc_differs_iff port p).0 d in
      record {
        mac = (mac_differs_iff port p).0 a;
        network = (opt_text_eq_iff p.physical_network (some network)).0 (not-false _ b);
        category = (opt_text_eq_iff p.category (some (codes "network"))).0 (not-false _ c);
        switch_info = y;
        port_id = z;
        switch_id = x;
      },
  λ m. rw (
    (mac_differs_iff port p).1 m.mac,
    (opt_text_eq_iff p.physical_network (some network)).1 m.network,
    (opt_text_eq_iff p.category (some (codes "network"))).1 m.category,
    (llc_differs_iff port p).1 (m.switch_id, m.switch_info, m.port_id),
  ),
)

empty_patch : (p : Port) (ops : List PatchOp) → update_unless_empty p ops ≡ none → ops ≡ []
empty_patch p [] h = refl
empty_patch p (op ∷ ops) h = cc

pub choose_idem :
    (requested current : Option Text)
    → choose_switch_id requested (some (choose_switch_id requested current))
      ≡ choose_switch_id requested current
unfolding choose_switch_id
choose_idem (some (c ∷ s)) current = refl
choose_idem (some []) none = unfold text_eq in refl
choose_idem (some []) (some []) = unfold text_eq in refl
choose_idem (some []) (some (c ∷ s)) = ground (arith, text_eq_refl placeholder_switch_id)
choose_idem none none = unfold text_eq in refl
choose_idem none (some []) = unfold text_eq in refl
choose_idem none (some (c ∷ s)) = ground (arith, text_eq_refl placeholder_switch_id)

-- For a port that exists `plan_netdev_port` plans nothing exactly when the port is as requested:
-- its MAC up to case, the physical network, the category, the switch, the interface, and the
-- switch id by the rule for it.
pub plan-none_iff :
    (node_name network : Text) (port : NetdevPort) (p : Port) (by_mac : Dict Port)
    → (plan_netdev_port node_name network port (some p) by_mac ≡ ok none) ↔ Matches network port p
plan-none_iff node_name network port p by_mac = (
  λ h. elim (Bool-cases (mac_differs port p && other_owner (get (lower port.mac) by_mac) p)) [
    | inl conflict ↦ absurd (unfold plan_netdev_port in ground arith)
    | inr free ↦
        (build_patch_empty_iff network port p).0
          (empty_patch p (build_patch network port p) (unfold plan_netdev_port in ground arith))
  ],
  λ m.
      unfold plan_netdev_port in
      rw ((mac_differs_iff port p).1 m.mac, (build_patch_empty_iff network port p).1 m),
)

-- If a port of the node has the requested MAC, `plan_netdev_port` makes a plan only for a port
-- that exists, and this port is the one with the MAC or has that MAC too, up to case.
pub plan-owner :
    (node_name network : Text) (port : NetdevPort) (existing : Option Port) (by_mac : Dict Port)
    (owner : Port) (plan : Option Plan)
    → get (lower port.mac) by_mac ≡ some owner
    → plan_netdev_port node_name network port existing by_mac ≡ ok plan
    → (p : Port) × (existing ≡ some p)
      × ((owner.uuid ≡ p.uuid) ⊎ (lower (text_or_empty p.address) ≡ lower port.mac))
unfolding plan_netdev_port
plan-owner node_name network port none by_mac owner plan e h = absurd (ground arith)
plan-owner node_name network port (some p) by_mac owner plan e h = (
  p,
  refl,
  elim (Bool-cases (mac_differs port p)) [
    | inr same ↦ inr ((mac_differs_iff port p).0 same)
    | inl differs ↦ inl ((text_eq_iff owner.uuid p.uuid).0 (ground arith))
  ],
)
