-- ===== src/Neutron/Trunks/Assign.antt =====
-- `_handle_segment_allocation` for all subports.
use understack.Prelude.{
  Bool, ◌≡◌, sym, subst, List, [], ◌∷◌, find?, All, some, Text, text_eq, Result, ok, err, inl, inr,
  Option-cases,
}
use understack.Neutron.Tables.{
  Port, Segment, Tables, Error, Exec, continue, ◌>>◌, pure, TypeManager,
  create_binding_profile_level, level_row, add_level, fetch_port_object, fetch_subport_network_id,
}
use understack.Neutron.Tables.Invariant.{IsDocumented, IsSound, IsConsistentBut, add_level-Added}
use understack.Neutron.Trunks.{Subport, segment_for, allocate_for, handle_segment_allocation}
use understack.Neutron.Trunks.Allocate.{
  Grows, Grows-refl, Grows-trans, IsAssigned, Grows-IsAssigned, Prepares, added-IsConsistentBut,
  added-Grows, added-IsAssigned, segment_for-Prepares,
}

-- What an action leaves, whether it returns or raises, and what holds if it returns.
abbrev pub Keeps :
    {A : Type 0} → (Text → Bool) → (A → Tables → Type 0) → Tables → Result Error A × Tables → Type 0
Keeps spared Q t (ok a, t') = IsConsistentBut spared t' × Grows t t' × Q a t'
Keeps spared Q t (err e, t') = IsSound t' × Grows t t'

pub Keeps-bind :
    {A B : Type 0} (spared : Text → Bool) (Q : A → Tables → Type 0) (R : B → Tables → Type 0)
    (t : Tables) (o : Result Error A × Tables) (f : A → Exec B)
    → Keeps spared Q t o
    → ((a : A) (u : Tables)
        → IsConsistentBut spared u
        → Grows t u
        → Q a u
        → Keeps spared R t (f a u))
    → Keeps spared R t (continue o f)
Keeps-bind spared Q R t (ok a, u) f (c, g, q) step = step a u c g q
Keeps-bind spared Q R t (err e, u) f (c, g) step = (c, g)

pub Keeps-after :
    {A : Type 0} (spared : Text → Bool) (Q : A → Tables → Type 0) (t u : Tables)
    (o : Result Error A × Tables)
    → Grows t u
    → Keeps spared Q u o
    → Keeps spared Q t o
Keeps-after spared Q t u (ok a, v) g (c, h, q) = (c, Grows-trans t u v g h, q)
Keeps-after spared Q t u (err e, v) g (c, h) = (c, Grows-trans t u v g h)

completed :
    (spared : Text → Bool) (vlan_group host : Text) (subport : Subport) (port : Port) (t : Tables)
    → IsConsistentBut spared t
    → find? (λ p. text_eq p.id subport.port_id) t.ports ≡ some port
    → (o : Result Error Segment × Tables) → Prepares spared port.network_id vlan_group t o
    → Keeps spared
        (λ n. IsAssigned vlan_group host subport)
        t
        (continue o (λ segment.
          create_binding_profile_level subport.port_id host 0 segment.id
          >> pure segment.segmentation_id))
unfolding create_binding_profile_level
completed spared vlan_group host subport port t c f (err e, u) p =
    (subst IsSound (sym p) c.sound, subst (Grows t) (sym p) (Grows-refl t))
completed spared vlan_group host subport port t c f (ok segment, u) p =
    let row = level_row subport.port_id host 0 segment.id in
    elim (Option-cases (add_level row u.levels)) [
      | inl e ↦ rw e (p.sound, p.grows)
      | inr (levels, e) ↦
          let a = add_level-Added row u.levels levels e in
          rw e (
            added-IsConsistentBut spared vlan_group host subport port segment t u levels f p a,
            added-Grows spared vlan_group host subport port segment t u levels f p a,
            added-IsAssigned spared vlan_group host subport port segment t u levels f p a,
          )
    ]

module _ (tm : TypeManager) (documented : IsDocumented tm) (spared : Text → Bool) where
  allocate_for-Keeps :
      (vlan_group host : Text) (subport : Subport) (t : Tables)
      → IsConsistentBut spared t
      → Keeps spared
          (λ n. IsAssigned vlan_group host subport)
          t
          (allocate_for tm vlan_group host subport t)
  unfolding allocate_for fetch_subport_network_id fetch_port_object
  allocate_for-Keeps vlan_group host subport t c =
      elim (Option-cases (find? (λ p. text_eq p.id subport.port_id) t.ports)) [
        | inl e ↦ rw e (c.sound, Grows-refl t)
        | inr (port, e) ↦ rw e (
            completed spared vlan_group host subport port t c e
              (segment_for tm port.network_id vlan_group t)
              (segment_for-Prepares tm documented port.network_id vlan_group t c))
      ]

  -- With a type manager that does what neutron documents, and from consistent tables (every
  -- level has a segment, every dynamic segment but any spared ones a level, ids and keys are
  -- unique): if `_handle_segment_allocation` returns, the tables are consistent but for the same
  -- spared ones, no port, segment or level is lost, and every subport's port has a level at the
  -- host with a VLAN segment of its network in the VLAN group. If it raises, nothing is lost
  -- either, and every level still has a segment.
  pub handle_segment_allocation-Keeps :
      (vlan_group host : Text) (subports : List Subport) (t : Tables)
      → IsConsistentBut spared t
      → Keeps spared
          (λ ids t'. All (λ s. IsAssigned vlan_group host s t') subports)
          t
          (handle_segment_allocation tm subports vlan_group host t)
  unfolding handle_segment_allocation
  handle_segment_allocation-Keeps vlan_group host [] t c = (c, Grows-refl t, tt)
  handle_segment_allocation-Keeps vlan_group host (subport ∷ subports) t c =
      Keeps-bind spared (λ n. IsAssigned vlan_group host subport)
        (λ ids t'. All (λ s. IsAssigned vlan_group host s t') (subport ∷ subports)) t
        (allocate_for tm vlan_group host subport t) _
        (allocate_for-Keeps vlan_group host subport t c)
        λ n u cu g a. Keeps-after spared _ t u _ g (
          Keeps-bind spared (λ ids t'. All (λ s. IsAssigned vlan_group host s t') subports)
            (λ ids t'. All (λ s. IsAssigned vlan_group host s t') (subport ∷ subports)) u
            (handle_segment_allocation tm subports vlan_group host u) _
            (handle_segment_allocation-Keeps vlan_group host subports u cu)
            λ ids v cv h all. (cv, h, (Grows-IsAssigned vlan_group host subport u v h a, all)))
