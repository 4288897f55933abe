-- ===== src/Neutron/Mechanism/Binds.antt =====
-- What the binding of a port leaves in the tables, and what it binds.
use understack.Prelude.{
  ◌≡◌, refl, sym, subst, Bool, true, List, [], ◌∷◌, find?, find?-All, All, Option, none, some, Text,
  text_eq, Result, ok, err, arith, inl, inr, Option-cases, Bool-cases,
}
use understack.Neutron.Tables.{
  Binding, Segment, Tables, Error, no_port, bad_request, continue, ◌>>◌, pure, or_raise,
  TypeManager, network_segment_by_id, is_segment_of, fetch_port_object, first_binding,
  first_or_raise, allocate_dynamic_segment,
}
use understack.Neutron.Tables.Invariant.{
  IsDocumented, InUse, IsSound, IsConsistentBut, IsConsistent,
}
use understack.Neutron.Trunks.{
  Subport, physnet_of, handle_segment_allocation, add_to_switchport,
  add_subports_networks_to_parent_port_switchport, configure_trunk,
}
use understack.Neutron.Trunks.Allocate.{Grows, Grows-refl, Grows-trans, allocated-Prepared}
use understack.Neutron.Trunks.Assign.{
  Keeps, Keeps-bind, Keeps-after, handle_segment_allocation-Keeps,
}
use understack.Neutron.Mechanism.{
  PortContext, Bound, vlan_group_of, is_supported, is_vxlan, is_vlan_in, vlan_segment_for_physnet,
  or_allocate, configure_details, bind_port_segment, bind_port_to, bind_port,
}

-- A binding that the driver asks for: to the first VXLAN segment that is offered, and below it to a
-- VLAN segment in the port's VLAN group, which is the only segment that need not be in use.
pub record IsBinding (context : PortContext) (t : Tables) (bound : Bound) (t' : Tables)
    : Type 0 where
  pub vxlan : Segment
  pub offered : find? is_vxlan context.segments_to_bind ≡ some vxlan
  pub top : bound.segment_id ≡ vxlan.id
  pub vlan_group : Text
  pub in_group : vlan_group_of context.current ≡ some vlan_group
  pub next : is_vlan_in vlan_group bound.next_segment ≡ true
  pub next_found : network_segment_by_id bound.next_segment.id t'.segments ≡ some bound.next_segment
  pub consistent : IsConsistentBut (text_eq bound.next_segment.id) t'
  pub grows : Grows t t'

-- Without a binding the tables are as they were; an exception loses nothing.
abbrev pub Binds : PortContext → Tables → Result Error (Option Bound) × Tables → Type 0
Binds context t (ok none, t') = t' ≡ t
Binds context t (ok (some bound), t') = IsBinding context t bound t'
Binds context t (err e, t') = IsSound t' × Grows t t'

abbrev Anything : {A : Type 0} → A → Tables → Type 0
Anything a t = Unit

reads :
    {A : Type 0} (spared : Text → Bool) (e : Error) (o : Option A) (t : Tables)
    → IsConsistentBut spared t
    → Keeps spared Anything t (or_raise e o t)
reads spared e none t c = (c.sound, Grows-refl t)
reads spared e (some a) t c = (c, Grows-refl t, tt)

reads_first :
    (spared : Text → Bool) (bindings : List Binding) (t : Tables)
    → IsConsistentBut spared t
    → Keeps spared Anything t (first_or_raise bindings t)
reads_first spared [] t c = (c.sound, Grows-refl t)
reads_first spared (binding ∷ others) t c = (c, Grows-refl t, tt)

-- The tables with the VLAN segment to bind.
record Picked (vlan_group : Text) (t : Tables) (segment : Segment) (t' : Tables) : Type 0 where
  pub grows : Grows t t'
  pub in_group : is_vlan_in vlan_group segment ≡ true
  pub found : network_segment_by_id segment.id t'.segments ≡ some segment
  pub consistent : IsConsistentBut (text_eq segment.id) t'

abbrev Picks : Text → Tables → Result Error Segment × Tables → Type 0
Picks vlan_group t (ok segment, t') = Picked vlan_group t segment t'
Picks vlan_group t (err e, t') = t' ≡ t

module _ (tm : TypeManager) (documented : IsDocumented tm) where
  configure_trunk-Keeps :
      (spared : Text → Bool) (subports : List Subport) (port_id : Text) (t : Tables)
      → IsConsistentBut spared t
      → Keeps spared Anything t (configure_trunk tm subports port_id t)
  unfolding configure_trunk fetch_port_object add_subports_networks_to_parent_port_switchport
      first_binding add_to_switchport
  configure_trunk-Keeps spared subports port_id t c =
      Keeps-bind spared Anything Anything t
        (or_raise (no_port port_id) (find? (λ p. text_eq p.id port_id) t.ports) t) _
        (reads spared (no_port port_id) (find? (λ p. text_eq p.id port_id) t.ports) t c)
        λ parent u cu g a. Keeps-after spared Anything t u _ g (
          Keeps-bind spared Anything Anything u (first_or_raise parent.bindings u) _
            (reads_first spared parent.bindings u cu)
            λ binding v cv h b. Keeps-after spared Anything u v _ h (
              Keeps-bind spared Anything Anything v
                (or_raise (bad_request parent.id) (physnet_of binding) v) _
                (reads spared (bad_request parent.id) (physnet_of binding) v cv)
                λ vlan_group w cw i d. Keeps-after spared Anything v w _ i (
                  Keeps-bind spared _ Anything w
                    (handle_segment_allocation tm subports vlan_group binding.host w) _
                    (handle_segment_allocation-Keeps tm documented spared vlan_group binding.host
                      subports w cw)
                    λ ids x cx j k. (cx, j, tt))))

  configure_details-Keeps :
      (spared : Text → Bool) (details : Option (List Subport)) (port_id : Text) (t : Tables)
      → IsConsistentBut spared t
      → Keeps spared Anything t (configure_details tm details port_id t)
  configure_details-Keeps spared none port_id t c = (c, Grows-refl t, tt)
  configure_details-Keeps spared (some subports) port_id t c =
      configure_trunk-Keeps spared subports port_id t c

  or_allocate-Picks :
      (network_id vlan_group : Text) (segments : List Segment) (t : Tables)
      → IsConsistent t
      → All (λ s. network_segment_by_id s.id t.segments ≡ some s) segments
      → Picks vlan_group t
          (or_allocate tm network_id vlan_group (vlan_segment_for_physnet segments vlan_group) t)
  unfolding vlan_segment_for_physnet allocate_dynamic_segment is_segment_of InUse
  or_allocate-Picks network_id vlan_group segments t c there =
      elim (Option-cases (find? (is_vlan_in vlan_group) segments)) [
        | inr (segment, e) ↦
            let (is_it, found) =
              find?-All (λ s. network_segment_by_id s.id t.segments ≡ some s)
                (is_vlan_in vlan_group) segments segment there e in
            subst (λ o. Picks vlan_group t (or_allocate tm network_id vlan_group o t)) (sym e)
              (record {
                grows = Grows-refl t;
                in_group = is_it;
                found = found;
                consistent = record {
                  sound = c.sound;
                  in_use = λ id s h d. ground (arith, c.in_use id s h d);
                };
              })
        | inl e ↦
            subst (λ o. Picks vlan_group t (or_allocate tm network_id vlan_group o t)) (sym e)
              (elim (Option-cases (tm.allocate_dynamic_segment t.segments network_id vlan_group)) [
                | inl f ↦ rw (Picks, allocate_dynamic_segment, f) refl
                | inr ((segment, after), f) ↦
                    let p =
                      allocated-Prepared tm documented network_id vlan_group segment after t c f in
                    rw (Picks, allocate_dynamic_segment, f)
                      (record {
                        grows = p.grows;
                        in_group = ground (arith, p.of_network);
                        found = p.segment_found;
                        consistent = record { sound = p.sound; in_use = p.in_use };
                      })
              ])
      ]

  configured-Binds :
      (context : PortContext) (vxlan : Segment) (vlan_group : Text) (t : Tables)
      → find? is_vxlan context.segments_to_bind ≡ some vxlan
      → vlan_group_of context.current ≡ some vlan_group
      → (segment : Segment) (u : Tables) → Picked vlan_group t segment u
      → (o : Result Error Unit × Tables) → Keeps (text_eq segment.id) Anything u o
      → Binds context t (
          continue o
            (λ done. pure (some (record { segment_id = vxlan.id; next_segment = segment }))))
  configured-Binds context vxlan vlan_group t offered group segment u p (err e, v) (s, g) =
      (s, Grows-trans t u v p.grows g)
  configured-Binds context vxlan vlan_group t offered group segment u p (ok done, v) (c, g, a) =
      record {
        vxlan = vxlan;
        offered = offered;
        top = refl;
        vlan_group = vlan_group;
        in_group = group;
        next = p.in_group;
        next_found = g.more_segments segment.id segment p.found;
        consistent = c;
        grows = Grows-trans t u v p.grows g;
      }

  picked-Binds :
      (context : PortContext) (vxlan : Segment) (vlan_group : Text) (t : Tables)
      → IsConsistent t
      → find? is_vxlan context.segments_to_bind ≡ some vxlan
      → vlan_group_of context.current ≡ some vlan_group
      → (o : Result Error Segment × Tables) → Picks vlan_group t o
      → Binds context t (
          continue o (λ dynamic_segment.
            configure_details tm context.current.trunk_details context.current.id
            >> pure (some (record { segment_id = vxlan.id; next_segment = dynamic_segment }))))
  picked-Binds context vxlan vlan_group t c offered group (err e, u) p =
      (subst IsSound (sym p) c.sound, subst (Grows t) (sym p) (Grows-refl t))
  picked-Binds context vxlan vlan_group t c offered group (ok segment, u) p =
      configured-Binds context vxlan vlan_group t offered group segment u p _ (
        configure_details-Keeps (text_eq segment.id) context.current.trunk_details
          context.current.id u p.consistent)

  segment-Binds :
      (context : PortContext) (vxlan : Segment) (t : Tables)
      → IsConsistent t
      → All (λ s. network_segment_by_id s.id t.segments ≡ some s) context.network_segments
      → find? is_vxlan context.segments_to_bind ≡ some vxlan
      → (group : Option Text) → vlan_group_of context.current ≡ group
      → Binds context t (bind_port_segment tm context vxlan group t)
  segment-Binds context vxlan t c there offered none group = refl
  segment-Binds context vxlan t c there offered (some vlan_group) group =
      picked-Binds context vxlan vlan_group t c offered group _
        (or_allocate-Picks context.current.network_id vlan_group context.network_segments t c there)

  offered-Binds :
      (context : PortContext) (t : Tables)
      → IsConsistent t
      → All (λ s. network_segment_by_id s.id t.segments ≡ some s) context.network_segments
      → (vxlan : Option Segment) → find? is_vxlan context.segments_to_bind ≡ vxlan
      → Binds context t (bind_port_to tm context vxlan t)
  offered-Binds context t c there none offered = refl
  offered-Binds context t c there (some vxlan) offered =
      segment-Binds context vxlan t c there offered (vlan_group_of context.current) refl

  -- With a type manager that does what neutron documents, from consistent tables, and for a
  -- network whose segments are in the tables: `bind_port` either binds nothing and leaves the
  -- tables as they were; or it binds the first VXLAN segment that is offered and below it a VLAN
  -- segment of the port's VLAN group that is in the tables, loses nothing, and every other
  -- dynamic segment still has a level; or it raises, nothing is lost, and every level still has
  -- a segment.
  pub bind_port-Binds :
      (context : PortContext) (t : Tables)
      → IsConsistent t
      → All (λ s. network_segment_by_id s.id t.segments ≡ some s) context.network_segments
      → Binds context t (bind_port tm context t)
  unfolding bind_port
  bind_port-Binds context t c there = elim (Bool-cases (is_supported context.current.vnic_type)) [
    | inl e ↦
        rw (Binds, e)
          (offered-Binds context t c there (find? is_vxlan context.segments_to_bind) refl)
    | inr e ↦ rw (Binds, e) refl
  ]
