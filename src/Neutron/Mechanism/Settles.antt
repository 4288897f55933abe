-- ===== src/Neutron/Mechanism/Settles.antt =====
-- What the handlers of an unbound and of a removed port leave in the tables.
use understack.Prelude.{
  ◌≡◌, refl, sym, ap, subst, Bool, true, false, List, find?, find?-All, Option, none, some, Text,
  text_eq, text_eq_iff, text_eq_sound, Result, ok, err, arith, inl, inr, Option-cases, Bool-cases,
}
use understack.Neutron.Tables.{
  Segment, Level, Tables, Error, no_bound_segment, Exec, continue, ◌>>=◌, ◌>>◌, or_raise,
  TypeManager, network_segment_by_id, network_segment_by_physnet, is_segment_of,
  ports_bound_to_segment, release_dynamic_segment,
}
use understack.Neutron.Tables.Invariant.{IsKeyed, IsDocumented, InUse, IsConsistentBut}
use understack.Neutron.Trunks.{
  Subport, sync, sync_if_set, clean_trunk, handle_subports_removal, handle_segment_deallocation,
}
use understack.Neutron.Trunks.Detach.{or_segment}
use understack.Neutron.Trunks.Release.{Clears, InUse-bound, InUse-static, released-IsConsistent}
use understack.Neutron.Trunks.Releases.{of_subports, handle_segment_deallocation-Clears}
use understack.Neutron.Mechanism.{
  PortContext, vlan_group_of, is_baremetal_port, is_unbinding, release_segment_if_unused,
  release_found, clean_details, tenant_network_port_cleanup, update_port_baremetal,
  update_port_postcommit, delete_port_in, delete_port_baremetal, delete_port_postcommit,
}

-- A row that was found by a test is found by its id.
found_by_id :
    (p : Segment → Bool) (segments : List Segment) (segment : Segment)
    → IsKeyed segments
    → find? p segments ≡ some segment
    → network_segment_by_id segment.id segments ≡ some segment
unfolding IsKeyed
found_by_id p segments segment keyed e =
    (find?-All (λ s. network_segment_by_id s.id segments ≡ some s) p segments segment keyed e).1

found_again :
    (segment_id : Text) (t : Tables)
    → IsKeyed t.segments
    → (segment : Segment) → network_segment_by_id segment_id t.segments ≡ some segment
    → network_segment_by_id segment.id t.segments ≡ some segment
unfolding network_segment_by_id
found_again segment_id t keyed segment e =
    found_by_id (λ s. text_eq s.id segment_id) t.segments segment keyed e

-- The segment that was looked up need not be in use, nor need the spared ones.
abbrev pub spares : (Text → Bool) → Option Segment → Text → Bool
spares spared none = spared
spares spared (some segment) = or_segment spared segment.id

module _ (spared : Text → Bool) where
  -- The action returns, and the tables are consistent but for the spared segments.
  abbrev pub Settles : {A : Type 0} → Result Error A × Tables → Type 0
  Settles (ok a, t) = IsConsistentBut spared t
  Settles (err e, t) = ⊥

  Settles-bind :
      {A B : Type 0} (o : Result Error A × Tables) (f : A → Exec B)
      → Settles o
      → ((a : A) (t : Tables) → IsConsistentBut spared t → Settles (f a t))
      → Settles (continue o f)
  Settles-bind (ok a, t) f c step = step a t c
  Settles-bind (err e, t) f c step = elim c [ ]

  Clears-Settles :
      (gone : Level → Bool) (t : Tables) (o : Result Error Unit × Tables)
      → Clears spared gone t o
      → Settles o
  Clears-Settles gone t (ok done, u) c = c.consistent
  Clears-Settles gone t (err e, u) c = elim c [ ]

  Settles-sync :
      (vlan_group : Text) (t : Tables) → IsConsistentBut spared t → Settles (sync vlan_group t)
  unfolding sync
  Settles-sync vlan_group t c = record {
    sound = record {
      keyed = c.sound.keyed;
      linked = c.sound.linked;
      level_keys = c.sound.level_keys;
    };
    in_use = c.in_use;
  }

  Settles-sync_if_set :
      (o : Option Text) (t : Tables) → IsConsistentBut spared t → Settles (sync_if_set o t)
  Settles-sync_if_set none t c = c
  Settles-sync_if_set (some vlan_group) t c = Settles-sync vlan_group t c

  spares-by_id :
      (segment_id : Text) (t : Tables)
      → IsConsistentBut (or_segment spared segment_id) t
      → IsConsistentBut (spares spared (network_segment_by_id segment_id t.segments)) t
  unfolding InUse network_segment_by_id IsKeyed
  spares-by_id segment_id t c = elim (Option-cases (network_segment_by_id segment_id t.segments)) [
    | inl e ↦
        subst (λ o. IsConsistentBut (spares spared o) t) (sym e)
          (record {
            sound = c.sound;
            in_use = λ id s h d. ground (
              arith,
              c.in_use id s h d,
              text_eq_iff segment_id id,
              ap (λ i. network_segment_by_id i t.segments),
            );
          })
    | inr (segment, e) ↦
        let is_it =
          (find?-All (λ s. network_segment_by_id s.id t.segments ≡ some s)
            (λ s. text_eq s.id segment_id) t.segments segment c.sound.keyed e).0 in
        let same = text_eq_sound segment.id segment_id is_it in
        subst (λ o. IsConsistentBut (spares spared o) t) (sym e)
          (subst (λ i. IsConsistentBut (or_segment spared i) t) (sym same) c)
  ]

  module _ (tm : TypeManager) (documented : IsDocumented tm) where
    release_segment_if_unused-Settles :
        (segment : Segment) (t : Tables)
        → IsConsistentBut (or_segment spared segment.id) t
        → network_segment_by_id segment.id t.segments ≡ some segment
        → Settles (release_segment_if_unused tm segment t)
    unfolding release_segment_if_unused release_dynamic_segment
    release_segment_if_unused-Settles segment t c found =
        elim (Bool-cases (ports_bound_to_segment segment.id t.levels)) [
          | inl b ↦
              rw b (record { sound = c.sound; in_use = InUse-bound spared segment.id t c.in_use b })
          | inr b ↦ elim (Bool-cases segment.is_dynamic) [
            | inl dynamic ↦ rw b (
                rw dynamic
                  (released-IsConsistent spared tm documented segment.id t c.sound c.in_use b))
            | inr static ↦ rw b (
                rw static (record {
                  sound = c.sound;
                  in_use = InUse-static spared segment.id segment t c.in_use found static;
                }))
          ]
        ]

    release_found-Settles :
        (o : Option Segment) (t : Tables)
        → IsConsistentBut (spares spared o) t
        → ((segment : Segment)
            → o ≡ some segment
            → network_segment_by_id segment.id t.segments ≡ some segment)
        → Settles (release_found tm o t)
    release_found-Settles none t c found = c
    release_found-Settles (some segment) t c found =
        release_segment_if_unused-Settles segment t c (found segment refl)

    clean_details-Settles :
        (details : Option (List Subport)) (host : Text) (t : Tables)
        → IsConsistentBut spared t
        → Settles (clean_details tm details host t)
    unfolding clean_trunk handle_subports_removal
    clean_details-Settles none host t c = c
    clean_details-Settles (some subports) host t c =
        Settles-bind (handle_segment_deallocation tm subports host t) _
          (Clears-Settles (of_subports subports host) t _
            (handle_segment_deallocation-Clears spared tm documented subports host t c))
          λ done u cu. cu

    tenant_network_port_cleanup-Settles :
        (context : PortContext) (segment_id : Text) (t : Tables)
        → context.original_top_bound_segment ≡ some segment_id
        → IsConsistentBut (or_segment spared segment_id) t
        → Settles (tenant_network_port_cleanup tm context t)
    unfolding tenant_network_port_cleanup
    tenant_network_port_cleanup-Settles context segment_id t top c =
        let found = network_segment_by_id segment_id t.segments in
        subst
          (λ o. Settles (
            (do
              id ← or_raise no_bound_segment o
              (λ u. release_found tm (network_segment_by_id id u.segments) u)
              clean_details tm context.current.trunk_details context.original_host)
              t))
          (sym top)
          (Settles-bind (release_found tm found t) _
            (release_found-Settles found t (spares-by_id segment_id t c)
              (found_again segment_id t c.sound.keyed))
            λ done u cu.
              clean_details-Settles context.current.trunk_details context.original_host u cu)

    -- With a type manager that does what neutron documents: when a baremetal port is unbound, from
    -- tables that are consistent but that the segment it was bound to at the top and any spared
    -- ones may have no level, `update_port_postcommit` returns and the tables are consistent but
    -- for the spared ones, so that the top segment, if not spared, is released if it is dynamic
    -- and has no level.
    pub update_port_postcommit-Settles :
        (context : PortContext) (segment_id : Text) (t : Tables)
        → is_baremetal_port context ≡ true
        → is_unbinding context ≡ true
        → context.original_top_bound_segment ≡ some segment_id
        → IsConsistentBut (or_segment spared segment_id) t
        → Settles (update_port_postcommit tm context t)
    unfolding update_port_postcommit update_port_baremetal
    update_port_postcommit-Settles context segment_id t baremetal unbinding top c = rw baremetal (
        rw unbinding (
          Settles-bind (tenant_network_port_cleanup tm context t) _
            (tenant_network_port_cleanup-Settles context segment_id t top c)
            λ done u cu. Settles-sync_if_set (vlan_group_of context.original) u cu))

    -- With a type manager that does what neutron documents: when a baremetal port in a VLAN group
    -- and not on the provisioning network is removed, from tables that are consistent but that
    -- its network's VLAN segment in the group and any spared ones may have no level,
    -- `delete_port_postcommit` returns and the tables are consistent but for the spared ones, so
    -- that the network's segment, if not spared, is released if it is dynamic and has no level.
    pub delete_port_postcommit-Settles :
        (provisioning_network vlan_group : Text) (context : PortContext) (t : Tables)
        → is_baremetal_port context ≡ true
        → vlan_group_of context.current ≡ some vlan_group
        → text_eq context.current.network_id provisioning_network ≡ false
        → IsConsistentBut
            (spares spared
              (network_segment_by_physnet context.current.network_id vlan_group t.segments))
            t
        → Settles (delete_port_postcommit tm provisioning_network context t)
    unfolding delete_port_postcommit delete_port_baremetal delete_port_in network_segment_by_physnet
    delete_port_postcommit-Settles provisioning_network vlan_group context t baremetal group tenant
          c =
        let found = network_segment_by_physnet context.current.network_id vlan_group t.segments in
        rw baremetal (
          rw group (
            rw tenant (
              Settles-bind (release_found tm found t) _
                (release_found-Settles found t c (λ segment e.
                  found_by_id (is_segment_of context.current.network_id vlan_group) t.segments
                    segment c.sound.keyed e))
                λ done u cu. Settles-sync vlan_group u cu)))
