-- ===== src/Neutron/Trunks/Returns.antt =====
-- When `_handle_segment_allocation` returns, and with which levels.
use mathlib.Core.List.{append-nil, append_assoc}
use understack.Prelude.{
  ℕ, suc, ◌≡◌, ◌⊎◌, refl, sym, ap, ◌∙◌, Bool, true, false, List, [], ◌∷◌, ◌++◌, map, length, any,
  find?, All, All-map, All-zip, none, some, is_some, Text, text_eq, text_eq_refl, Result, ok, err,
  arith, inl, inr, Option-cases,
}
use understack.Neutron.Tables.{
  Port, Segment, Level, Tables, Error, not_allocated, TypeManager, network_segment_by_physnet,
  create_binding_profile_level, level_row, is_level_of, fetch_port_object, fetch_subport_network_id,
  allocate_dynamic_segment,
}
use understack.Neutron.Trunks.{Subport, segment_for, allocate_for, handle_segment_allocation}
use understack.Neutron.Trunks.Ready.{IsReady, AreApart, add_level_new, still-IsReady}

-- The levels of subports at the host, with the segment of each.
abbrev pub level_rows : Text → List Subport → List Segment → List Level
level_rows host (s ∷ subports) (segment ∷ segments) =
    level_row s.port_id host 0 segment.id ∷ level_rows host subports segments
level_rows host _ _ = []

abbrev pub is_in_network : List Port → Text → Subport → Bool
is_in_network ports network_id s = elim (find? (λ p. text_eq p.id s.port_id) ports) [
  | none ↦ false
  | some port ↦ text_eq port.network_id network_id
]

-- The loop returned: each subport has one new level, in order, with its segment, whose VLAN id is
-- returned for it; no other level and no port changed.
pub record Assigns (host : Text) (subports : List Subport) (t : Tables)
    (o : Result Error (List ℕ) × Tables) : Type 0 where
  pub segments : List Segment
  pub after : Tables
  pub returns : o ≡ (ok (map (λ s. s.segmentation_id) segments), after)
  pub one_each : length segments ≡ length subports
  pub levels : after.levels ≡ t.levels ++ level_rows host subports segments
  pub ports : after.ports ≡ t.ports

-- The loop raised what the type manager raised, at a subport whose network has no segment in the
-- VLAN group, and for which the type manager has none for the segments that are there then.
pub record Refuses (tm : TypeManager) (vlan_group : Text) (subports : List Subport)
    (ports : List Port) {A : Type 0} (o : Result Error A × Tables) : Type 0 where
  pub network_id : Text
  pub after : Tables
  pub raises : o ≡ (err (not_allocated network_id vlan_group), after)
  pub of_subport : any (is_in_network ports network_id) subports ≡ true
  pub absent : network_segment_by_physnet network_id vlan_group after.segments ≡ none
  pub refused : tm.allocate_dynamic_segment after.segments network_id vlan_group ≡ none

-- The action returns, the ports stay, and one row is added.
record Adds (port_id host : Text) (t : Tables) (o : Result Error ℕ × Tables) : Type 0 where
  pub segment : Segment
  pub after : Tables
  pub returns : o ≡ (ok segment.segmentation_id, after)
  pub ports : after.ports ≡ t.ports
  pub levels : after.levels ≡ t.levels ++ level_row port_id host 0 segment.id ∷ []

record Reads {A : Type 0} (t : Tables) (o : Result Error A × Tables) : Type 0 where
  pub value : A
  pub after : Tables
  pub returns : o ≡ (ok value, after)
  pub ports : after.ports ≡ t.ports
  pub levels : after.levels ≡ t.levels

-- There is no segment of the network, and none can be had.
record Lacks (tm : TypeManager) (network_id vlan_group : Text) {A : Type 0} (t : Tables)
    (o : Result Error A × Tables) : Type 0 where
  pub raises : o ≡ (err (not_allocated network_id vlan_group), t)
  pub absent : network_segment_by_physnet network_id vlan_group t.segments ≡ none
  pub refused : tm.allocate_dynamic_segment t.segments network_id vlan_group ≡ none

module _ (tm : TypeManager) where
  segment_for-Reads :
      (network_id vlan_group : Text) (t : Tables)
      → Reads t (segment_for tm network_id vlan_group t)
        ⊎ Lacks tm network_id vlan_group t (segment_for tm network_id vlan_group t)
  unfolding segment_for allocate_dynamic_segment
  segment_for-Reads network_id vlan_group t =
      elim (Option-cases (network_segment_by_physnet network_id vlan_group t.segments)) [
        | inr (segment, e) ↦ inl (record {
          value = segment;
          after = t;
          returns = rw (segment_for, e) refl;
          ports = refl;
          levels = refl;
        })
        | inl e ↦
            elim (Option-cases (tm.allocate_dynamic_segment t.segments network_id vlan_group)) [
              | inl f ↦ inr (record {
                raises = rw (segment_for, e) (rw (allocate_dynamic_segment, f) refl);
                absent = e;
                refused = f;
              })
              | inr ((segment, segments), f) ↦ inl (record {
                value = segment;
                after = record t { segments = segments };
                returns = rw (segment_for, e) (rw (allocate_dynamic_segment, f) refl);
                ports = refl;
                levels = refl;
              })
            ]
      ]

  allocate_for-Adds :
      (vlan_group host : Text) (subport : Subport) (t : Tables)
      → IsReady host t subport
      → Adds subport.port_id host t (allocate_for tm vlan_group host subport t)
        ⊎ Refuses tm vlan_group (subport ∷ []) t.ports (allocate_for tm vlan_group host subport t)
  unfolding allocate_for fetch_subport_network_id fetch_port_object create_binding_profile_level any
  allocate_for-Adds vlan_group host subport t (there, free) =
      elim (Option-cases (find? (λ p. text_eq p.id subport.port_id) t.ports)) [
        | inl e ↦ let nothing : false ≡ true = sym (ap is_some e) ∙ there in cc
        | inr (port, e) ↦ elim (segment_for-Reads port.network_id vlan_group t) [
          | inl r ↦
              let row = level_row subport.port_id host 0 r.value.id in
              let still_free = ap (any (is_level_of subport.port_id host 0)) r.levels ∙ free in
              inl (record {
                segment = r.value;
                after = record r.after { levels = r.after.levels ++ row ∷ [] };
                returns =
                    rw e (rw r.returns (rw (add_level_new row r.after.levels still_free) refl));
                ports = r.ports;
                levels = ap (λ ls. ls ++ row ∷ []) r.levels;
              })
          | inr l ↦ inr (record {
            network_id = port.network_id;
            after = t;
            raises = rw e (rw l.raises refl);
            of_subport = rw (e, is_in_network) (rw (text_eq_refl port.network_id) refl);
            absent = l.absent;
            refused = l.refused;
          })
        ]
      ]

  -- For subports with distinct ports that are there and have no level at the host,
  -- `_handle_segment_allocation` raises only what the type manager raises, for the network of a
  -- subport that has no segment in the VLAN group and for which the type manager has none for
  -- the segments that are there then. Otherwise it returns the VLAN ids of a list of segments,
  -- one for each subport; each subport's port has one new level at the host, in the order of the
  -- subports, with the segment of its place in the list, and no other level and no port changes.
  pub handle_segment_allocation-Assigns :
      (vlan_group host : Text) (subports : List Subport) (t : Tables)
      → All (IsReady host t) subports
      → AreApart subports
      → Assigns host subports t (handle_segment_allocation tm subports vlan_group host t)
        ⊎ Refuses tm vlan_group subports t.ports
            (handle_segment_allocation tm subports vlan_group host t)
  unfolding handle_segment_allocation any
  handle_segment_allocation-Assigns vlan_group host [] t ready apart = inl (record {
    segments = [];
    after = t;
    returns = refl;
    one_each = refl;
    levels = sym (append-nil t.levels);
    ports = refl;
  })
  handle_segment_allocation-Assigns vlan_group host (s ∷ subports) t (now, later) (others, apart) =
      elim (allocate_for-Adds vlan_group host s t now) [
        | inr r ↦ inr (record {
          network_id = r.network_id;
          after = r.after;
          raises = rw r.raises refl;
          of_subport = ground (arith, r.of_subport);
          absent = r.absent;
          refused = r.refused;
        })
        | inl a ↦
            let still =
              All-map subports
                (λ r h. still-IsReady host s r t a.after a.segment.id a.ports a.levels h.0 h.1)
                (All-zip (IsReady host t) (λ r. text_eq s.port_id r.port_id ≡ false) subports later
                  others) in
            elim (handle_segment_allocation-Assigns vlan_group host subports a.after still apart) [
              | inl rest ↦ inl (record {
                segments = a.segment ∷ rest.segments;
                after = rest.after;
                returns = rw a.returns (rw rest.returns refl);
                one_each = ap suc rest.one_each;
                levels =
                    rest.levels
                    ∙ rw a.levels (
                        append_assoc t.levels (level_row s.port_id host 0 a.segment.id ∷ [])
                          (level_rows host subports rest.segments));
                ports = rest.ports ∙ a.ports;
              })
              | inr rest ↦ inr (record {
                network_id = rest.network_id;
                after = rest.after;
                raises = rw a.returns (rw rest.raises refl);
                of_subport =
                    let there =
                      sym (ap (λ ps. any (is_in_network ps rest.network_id) subports) a.ports)
                      ∙ rest.of_subport in
                    ground arith;
                absent = rest.absent;
                refused = rest.refused;
              })
            ]
      ]
