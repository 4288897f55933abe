-- ===== src/Neutron/Trunks/Allocate.antt =====
-- Giving segments to subports: what `_handle_segment_allocation` leaves in the tables.
use understack.Prelude.{
  ◌||◌, ◌≡◌, refl, ap, ◌∙◌, Bool, true, List, any, find?, find?-All, All-map, some, is_some, Text,
  text_eq, text_eq_iff, text_eq_refl, Result, ok, err, arith, inl, inr, Option-cases,
}
use understack.Neutron.Tables.{
  Port, Segment, Level, Tables, Error, TypeManager, network_segment_by_id, is_segment_of,
  same_level, level_row, network_segment_by_physnet, allocate_dynamic_segment,
}
use understack.Neutron.Tables.Invariant.{
  IsKeyed, IsDocumented, InUse, IsSound, IsConsistentBut, Added,
}
use understack.Neutron.Trunks.{Subport, segment_for}

-- Nothing is lost: ports stay, a segment stays what it is, and a level stays.
pub record Grows (t t' : Tables) : Type 0 where
  pub same_ports : t'.ports ≡ t.ports
  pub more_segments :
      (id : Text) (s : Segment)
      → network_segment_by_id id t.segments ≡ some s
      → network_segment_by_id id t'.segments ≡ some s
  pub more_levels : (p : Level → Bool) → any p t.levels ≡ true → any p t'.levels ≡ true

pub Grows-refl : (t : Tables) → Grows t t
Grows-refl t = record { same_ports = refl; more_segments = λ id s h. h; more_levels = λ p h. h }

pub Grows-trans : (t u v : Tables) → Grows t u → Grows u v → Grows t v
Grows-trans t u v g h = record {
  same_ports = h.same_ports ∙ g.same_ports;
  more_segments = λ id s e. h.more_segments id s (g.more_segments id s e);
  more_levels = λ p e. h.more_levels p (g.more_levels p e);
}

-- A subport's port has a level at the host, with a VLAN segment of its network in the VLAN group.
pub record IsAssigned (vlan_group host : Text) (subport : Subport) (t : Tables) : Type 0 where
  pub port : Port
  pub segment : Segment
  pub port_found : find? (λ p. text_eq p.id subport.port_id) t.ports ≡ some port
  pub segment_found : network_segment_by_id segment.id t.segments ≡ some segment
  pub of_network : is_segment_of port.network_id vlan_group segment ≡ true
  pub has_level : any (same_level (level_row subport.port_id host 0 segment.id)) t.levels ≡ true

pub Grows-IsAssigned :
    (vlan_group host : Text) (subport : Subport) (t t' : Tables)
    → Grows t t'
    → IsAssigned vlan_group host subport t
    → IsAssigned vlan_group host subport t'
Grows-IsAssigned vlan_group host subport t t' g a = record {
  port = a.port;
  segment = a.segment;
  port_found = ap (find? (λ p. text_eq p.id subport.port_id)) g.same_ports ∙ a.port_found;
  segment_found = g.more_segments a.segment.id a.segment a.segment_found;
  of_network = a.of_network;
  has_level =
      g.more_levels (same_level (level_row subport.port_id host 0 a.segment.id)) a.has_level;
}

-- The tables with a segment for a network, which may not be in use yet.
pub record Prepared (spared : Text → Bool) (network_id vlan_group : Text) (segment : Segment)
    (t t' : Tables) : Type 0 where
  pub grows : Grows t t'
  pub of_network : is_segment_of network_id vlan_group segment ≡ true
  pub segment_found : network_segment_by_id segment.id t'.segments ≡ some segment
  pub sound : IsSound t'
  pub in_use : InUse (λ id. spared id || text_eq segment.id id) t'.segments t'.levels

abbrev pub Prepares : (Text → Bool) → Text → Text → Tables → Result Error Segment × Tables → Type 0
Prepares spared network_id vlan_group t (ok segment, t') =
    Prepared spared network_id vlan_group segment t t'
Prepares spared network_id vlan_group t (err e, t') = t' ≡ t

found-Prepared :
    {spared : Text → Bool} (network_id vlan_group : Text) (segment : Segment) (t : Tables)
    → IsConsistentBut spared t
    → network_segment_by_physnet network_id vlan_group t.segments ≡ some segment
    → Prepared spared network_id vlan_group segment t t
unfolding IsKeyed network_segment_by_physnet InUse
found-Prepared network_id vlan_group segment t c e =
    let (is_it, found) =
      find?-All (λ s. network_segment_by_id s.id t.segments ≡ some s)
        (is_segment_of network_id vlan_group) t.segments segment c.sound.keyed e in
    record {
      grows = Grows-refl t;
      of_network = is_it;
      segment_found = found;
      sound = c.sound;
      in_use = λ id s h d. ground (arith, c.in_use id s h d);
    }

-- A level for the prepared segment makes the tables consistent, and completes the assignment.
module _ (spared : Text → Bool) (vlan_group host : Text) (subport : Subport) (port : Port)
    (segment : Segment) (t u : Tables) (levels : List Level)
    (port_found : find? (λ p. text_eq p.id subport.port_id) t.ports ≡ some port)
    (p : Prepared spared port.network_id vlan_group segment t u)
    (a : Added (level_row subport.port_id host 0 segment.id) u.levels levels) where
  pub added-IsConsistentBut : IsConsistentBut spared (record u { levels = levels })
  unfolding InUse
  added-IsConsistentBut = record {
    sound = record {
      keyed = p.sound.keyed;
      linked =
          a.all (λ l. is_some (network_segment_by_id l.segment_id u.segments) ≡ true) p.sound.linked
            (ap is_some p.segment_found);
      level_keys = a.level_keys p.sound.level_keys;
    };
    in_use = λ id s h d. ground (arith, a.bound id, p.in_use id s h d);
  }

  pub added-Grows : Grows t (record u { levels = levels })
  added-Grows =
      Grows-trans t u (record u { levels = levels }) p.grows
        (record { same_ports = refl; more_segments = λ id s h. h; more_levels = a.keeps })

  pub added-IsAssigned : IsAssigned vlan_group host subport (record u { levels = levels })
  added-IsAssigned = record {
    port = port;
    segment = segment;
    port_found = ap (find? (λ p. text_eq p.id subport.port_id)) p.grows.same_ports ∙ port_found;
    segment_found = p.segment_found;
    of_network = p.of_network;
    has_level = a.has;
  }

module _ (tm : TypeManager) (documented : IsDocumented tm) where
  still_there :
      (t : Tables) (network_id vlan_group : Text) (segment : Segment) (after : List Segment)
      → tm.allocate_dynamic_segment t.segments network_id vlan_group ≡ some (segment, after)
      → (id : Text) (s : Segment) → network_segment_by_id id t.segments ≡ some s
      → network_segment_by_id id after ≡ some s
  still_there t network_id vlan_group segment after e id s h =
      let law = documented.allocated t.segments network_id vlan_group segment after e id in
      elim (documented.was_there_or_new t.segments network_id vlan_group segment after e) [
        | inl new ↦ ground (arith, law, new, text_eq_iff segment.id id)
        | inr there ↦ ground (arith, law, there, text_eq_iff segment.id id)
      ]

  pub allocated-Prepared :
      {spared : Text → Bool} (network_id vlan_group : Text) (segment : Segment)
      (after : List Segment) (t : Tables)
      → IsConsistentBut spared t
      → tm.allocate_dynamic_segment t.segments network_id vlan_group ≡ some (segment, after)
      → Prepared spared network_id vlan_group segment t (record t { segments = after })
  unfolding InUse
  allocated-Prepared network_id vlan_group segment after t c e =
      let law = documented.allocated t.segments network_id vlan_group segment after e in
      record {
        grows = record {
          same_ports = refl;
          more_segments = still_there t network_id vlan_group segment after e;
          more_levels = λ p h. h;
        };
        of_network = documented.of_network t.segments network_id vlan_group segment after e;
        segment_found = law segment.id ∙ ground (arith, text_eq_refl segment.id);
        sound = record {
          keyed =
              documented.allocated_keys t.segments network_id vlan_group segment after e
                c.sound.keyed;
          linked = All-map t.levels (λ l h. ground (arith, law l.segment_id)) c.sound.linked;
          level_keys = c.sound.level_keys;
        };
        in_use = λ id s h d. ground (arith, law id, c.in_use id s);
      }

  pub segment_for-Prepares :
      {spared : Text → Bool} (network_id vlan_group : Text) (t : Tables)
      → IsConsistentBut spared t
      → Prepares spared network_id vlan_group t (segment_for tm network_id vlan_group t)
  unfolding segment_for allocate_dynamic_segment
  segment_for-Prepares network_id vlan_group t c =
      elim (Option-cases (network_segment_by_physnet network_id vlan_group t.segments)) [
        | inr (segment, e) ↦
            rw (segment_for, e) (found-Prepared network_id vlan_group segment t c e)
        | inl e ↦
            elim (Option-cases (tm.allocate_dynamic_segment t.segments network_id vlan_group)) [
              | inl f ↦ rw (segment_for, e) (rw (allocate_dynamic_segment, f) refl)
              | inr ((segment, after), f) ↦
                  rw (segment_for, e)
                    (rw (allocate_dynamic_segment, f)
                      (allocated-Prepared network_id vlan_group segment after t c f))
            ]
      ]
