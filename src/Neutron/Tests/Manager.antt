-- ===== src/Neutron/Tests/Manager.antt =====
-- A type manager to run the handlers with: it keeps at most one segment of its own.
use understack.Prelude.{
  ◌≡◌, refl, sym, ap, ◌∙◌, subst, true, not, if◌then◌else◌, List, [], ◌∷◌, filter, find?,
  find?-filter, All-filter, All-map, Option, none, some, is_some, Text, codes, text_eq, text_eq_iff,
  text_eq_refl, opt_text_eq, arith, inl, inr, Option-cases, some-injective,
}
use understack.Neutron.Tables.{Segment, TypeManager, network_segment_by_id, is_segment_of}
use understack.Neutron.Tables.Invariant.{IsKeyed, IsDocumented}

abbrev pub new_segment : Text → Text → Segment
new_segment network_id physnet = record {
  id = codes "new";
  network_id = network_id;
  physical_network = some physnet;
  network_type = codes "vlan";
  segmentation_id = 1800;
  is_dynamic = true;
}

unfoldable pub allocate : List Segment → Text → Text → Option (Segment × List Segment)
unfolding network_segment_by_id
allocate segments network_id physnet =
    if is_some (network_segment_by_id (codes "new") segments)
    then none
    else some (new_segment network_id physnet, new_segment network_id physnet ∷ segments)

unfoldable pub release : Text → List Segment → List Segment
release segment_id segments = filter (λ s. not (text_eq segment_id s.id)) segments

abbrev pub manager : TypeManager
manager = record { allocate_dynamic_segment = allocate; release_dynamic_segment = release }

new_segment-is_segment_of :
    (network_id physnet : Text)
    → is_segment_of network_id physnet (new_segment network_id physnet) ≡ true
unfolding is_segment_of opt_text_eq
new_segment-is_segment_of network_id physnet =
    ground (arith, text_eq_refl network_id, text_eq_refl physnet, text_eq_refl (codes "vlan"))

-- What an allocation that succeeds gave.
record Allocated (segments : List Segment) (network_id physnet : Text) (s : Segment)
    (after : List Segment) : Type 0 where
  pub absent : network_segment_by_id (codes "new") segments ≡ none
  pub segment : new_segment network_id physnet ≡ s
  pub segments_after : new_segment network_id physnet ∷ segments ≡ after

allocate-Allocated :
    (segments : List Segment) (network_id physnet : Text) (s : Segment) (after : List Segment)
    → allocate segments network_id physnet ≡ some (s, after)
    → Allocated segments network_id physnet s after
unfolding allocate
allocate-Allocated segments network_id physnet s after h =
    elim (Option-cases (network_segment_by_id (codes "new") segments)) [
      | inl e ↦
          let same =
            some-injective
              (new_segment network_id physnet, new_segment network_id physnet ∷ segments) (s, after)
              (rw e at h) in
          record { absent = e; segment = ap (λ x. x.0) same; segments_after = ap (λ x. x.1) same }
      | inr (x, e) ↦ let nothing : none ≡ some (s, after) = rw e at h in cc
    ]

find?-release :
    (segments : List Segment) (segment_id id : Text)
    → network_segment_by_id id (release segment_id segments)
      ≡ (if text_eq segment_id id then none else network_segment_by_id id segments)
unfolding network_segment_by_id release find? filter
find?-release [] segment_id id = ground arith
find?-release (s ∷ segments) segment_id id = ground (
  arith,
  find?-release segments segment_id id,
  text_eq_iff segment_id id,
  text_eq_iff segment_id s.id,
  text_eq_iff s.id id,
)

cons-IsKeyed :
    (network_id physnet : Text) (segments : List Segment)
    → network_segment_by_id (codes "new") segments ≡ none
    → IsKeyed segments
    → IsKeyed (new_segment network_id physnet ∷ segments)
unfolding IsKeyed network_segment_by_id find?
cons-IsKeyed network_id physnet segments absent keyed = (
  rw (text_eq_refl (codes "new")) refl,
  All-map segments
      (λ s h.
        ground
          (arith, text_eq_iff (codes "new") s.id, ap (λ i. find? (λ z. text_eq z.id i) segments)))
      keyed,
)

pub manager-IsDocumented : IsDocumented manager
unfolding network_segment_by_id find? IsKeyed release
manager-IsDocumented = record {
  of_network = λ segments network_id physnet s after h.
      let a = allocate-Allocated segments network_id physnet s after h in
      subst (λ x. is_segment_of network_id physnet x ≡ true) a.segment
        (new_segment-is_segment_of network_id physnet);
  was_there_or_new = λ segments network_id physnet s after h.
      let a = allocate-Allocated segments network_id physnet s after h in
      inl (ap (λ x. network_segment_by_id x.id segments) (sym a.segment) ∙ a.absent);
  allocated = λ segments network_id physnet s after h id.
      let a = allocate-Allocated segments network_id physnet s after h in
      subst
        (λ x.
          network_segment_by_id id after
          ≡ (if text_eq x.id id then some x else network_segment_by_id id segments))
        a.segment (ap (network_segment_by_id id) (sym a.segments_after));
  allocated_keys = λ segments network_id physnet s after h k.
      let a = allocate-Allocated segments network_id physnet s after h in
      subst IsKeyed a.segments_after (cons-IsKeyed network_id physnet segments a.absent k);
  released = λ segments segment_id id. find?-release segments segment_id id;
  released_keys = λ segments segment_id k.
      All-map (release segment_id segments)
        (λ s h.
          find?-filter (λ z. text_eq z.id s.id) (λ z. not (text_eq segment_id z.id)) segments s h.0
            h.1)
        (All-filter (λ s. network_segment_by_id s.id segments ≡ some s)
          (λ z. not (text_eq segment_id z.id)) segments k);
}
