-- ===== src/Neutron/Trunks/Release.antt =====
-- Taking subports away: what `_handle_segment_deallocation` leaves in the tables.
use understack.Prelude.{
  ◌≡◌, refl, sym, ap, ◌∙◌, Bool, true, false, not, ◌||◌, filter, filter-find?-none, All-map,
  All-zip, any-false_All, none, some, is_some, Text, text_eq, text_eq_iff, Result, ok, err, arith,
  inl, inr, Option-cases, Bool-cases,
}
use understack.Neutron.Tables.{
  Segment, Level, Tables, Error, TypeManager, network_segment_by_id, is_level_of,
  ports_bound_to_segment, port_binding_level_by_port_id, release_dynamic_segment,
}
use understack.Neutron.Tables.Invariant.{IsDocumented, InUse, IsSound, IsConsistentBut}
use understack.Neutron.Trunks.{
  Subport, delete_level, release_if_dynamic, delete_unused_segment, deallocate_for,
}
use understack.Neutron.Trunks.Detach.{
  stays, or_segment, Detached, without_level, without_level-Detached,
}

module _ (spared : Text → Bool) where
  -- What is left of the tables once some rows are gone: the ports, the calls of undersync, and every
  -- segment that is in use or not dynamic.
  pub record Cleared (gone : Level → Bool) (t t' : Tables) : Type 0 where
    pub consistent : IsConsistentBut spared t'
    pub same_ports : t'.ports ≡ t.ports
    pub same_synced : t'.synced ≡ t.synced
    pub levels : t'.levels ≡ filter (λ l. not (gone l)) t.levels
    pub kept :
        (id : Text) (s : Segment)
        → network_segment_by_id id t.segments ≡ some s
        → (ports_bound_to_segment id t'.levels || not s.is_dynamic) ≡ true
        → network_segment_by_id id t'.segments ≡ some s

  abbrev pub Clears : (Level → Bool) → Tables → Result Error Unit × Tables → Type 0
  Clears gone t (ok _, t') = Cleared gone t t'
  Clears gone t (err e, t') = ⊥

  unchanged-Cleared :
      (port_id host : Text) (t : Tables)
      → IsConsistentBut spared t
      → port_binding_level_by_port_id port_id host t.levels ≡ none
      → Cleared (is_level_of port_id host 0) t t
  unfolding port_binding_level_by_port_id
  unchanged-Cleared port_id host t c e = record {
    consistent = c;
    same_ports = refl;
    same_synced = refl;
    levels = sym (filter-find?-none (is_level_of port_id host 0) t.levels e);
    kept = λ id s h k. h;
  }

  -- A segment in use is kept; so is one that is not dynamic.
  Detached-Cleared :
      (port_id host segment_id : Text) (t : Tables)
      → Detached spared segment_id (without_level port_id host t)
      → InUse spared t.segments (without_level port_id host t).levels
      → Cleared (is_level_of port_id host 0) t (without_level port_id host t)
  Detached-Cleared port_id host segment_id t d u = record {
    consistent = record { sound = d.sound; in_use = u };
    same_ports = refl;
    same_synced = refl;
    levels = refl;
    kept = λ id s h k. h;
  }

  pub InUse-bound :
      (segment_id : Text) (t : Tables)
      → InUse (or_segment spared segment_id) t.segments t.levels
      → ports_bound_to_segment segment_id t.levels ≡ true
      → InUse spared t.segments t.levels
  unfolding InUse
  InUse-bound segment_id t u b id s h d = ground (arith, u id s h d, text_eq_iff segment_id id)

  pub InUse-static :
      (segment_id : Text) (segment : Segment) (t : Tables)
      → InUse (or_segment spared segment_id) t.segments t.levels
      → network_segment_by_id segment_id t.segments ≡ some segment
      → segment.is_dynamic ≡ false
      → InUse spared t.segments t.levels
  unfolding InUse
  InUse-static segment_id segment t u e n id s h d =
      ground (arith, u id s h d, text_eq_iff segment_id id)

  module _ (tm : TypeManager) (documented : IsDocumented tm) where
    -- The release of a segment without a level, when it is the one that need not be in use.
    pub released-IsConsistent :
        (segment_id : Text) (t : Tables)
        → IsSound t
        → InUse (or_segment spared segment_id) t.segments t.levels
        → ports_bound_to_segment segment_id t.levels ≡ false
        → IsConsistentBut spared
            (record t { segments = tm.release_dynamic_segment segment_id t.segments })
    unfolding InUse ports_bound_to_segment
    released-IsConsistent segment_id t sound in_use b =
        let law = documented.released t.segments segment_id in
        record {
          sound = record {
            keyed = documented.released_keys t.segments segment_id sound.keyed;
            linked =
                All-map t.levels
                  (λ m h. ground (
                    arith,
                    law m.segment_id,
                    text_eq_iff segment_id m.segment_id,
                    text_eq_iff m.segment_id segment_id,
                  ))
                  (All-zip (λ m. is_some (network_segment_by_id m.segment_id t.segments) ≡ true)
                    (λ m. text_eq m.segment_id segment_id ≡ false) t.levels sound.linked
                    (any-false_All (λ m. text_eq m.segment_id segment_id) t.levels b));
            level_keys = sound.level_keys;
          };
          in_use = λ id s h dyn. ground (arith, law id, in_use id s);
        }

    released-Cleared :
        (port_id host segment_id : Text) (segment : Segment) (t : Tables)
        → network_segment_by_id segment_id t.segments ≡ some segment
        → segment.is_dynamic ≡ true
        → Detached spared segment_id (without_level port_id host t)
        → ports_bound_to_segment segment_id (without_level port_id host t).levels ≡ false
        → Cleared (is_level_of port_id host 0) t (record t {
          segments = tm.release_dynamic_segment segment_id t.segments;
          levels = filter (stays port_id host) t.levels;
        })
    unfolding InUse ports_bound_to_segment
    released-Cleared port_id host segment_id segment t found dynamic d b =
        let law = documented.released t.segments segment_id in
        record {
          consistent =
              released-IsConsistent segment_id (without_level port_id host t) d.sound d.in_use b;
          same_ports = refl;
          same_synced = refl;
          levels = refl;
          kept = λ id s h k. ground (arith, law id, d.in_use id s h, text_eq_iff segment_id id);
        }

    -- The release of the segment of a level that is gone.
    delete_unused_segment-Clears :
        (port_id host segment_id : Text) (t : Tables)
        → Detached spared segment_id (without_level port_id host t)
        → Clears
            (is_level_of port_id host 0)
            t
            (delete_unused_segment tm segment_id (without_level port_id host t))
    unfolding delete_unused_segment release_if_dynamic release_dynamic_segment
    delete_unused_segment-Clears port_id host segment_id t d =
        let u = without_level port_id host t in
        elim (Bool-cases (ports_bound_to_segment segment_id u.levels)) [
          | inl b ↦
              rw b
                (Detached-Cleared port_id host segment_id t d (InUse-bound segment_id u d.in_use b))
          | inr b ↦ elim (Option-cases (network_segment_by_id segment_id t.segments)) [
            | inl e ↦ let no_segment : false ≡ true = sym (ap is_some e) ∙ d.there in cc
            | inr (segment, e) ↦ elim (Bool-cases segment.is_dynamic) [
              | inl dynamic ↦
                  rw (b, e)
                    (rw dynamic (released-Cleared port_id host segment_id segment t e dynamic d b))
              | inr static ↦
                  rw (b, e)
                    (rw static (
                      Detached-Cleared port_id host segment_id t d
                        (InUse-static segment_id segment u d.in_use e static)))
            ]
          ]
        ]

    pub deallocate_for-Clears :
        (host : Text) (subport : Subport) (t : Tables)
        → IsConsistentBut spared t
        → Clears (is_level_of subport.port_id host 0) t (deallocate_for tm host subport t)
    unfolding deallocate_for delete_level
    deallocate_for-Clears host subport t c =
        elim (Option-cases (port_binding_level_by_port_id subport.port_id host t.levels)) [
          | inl e ↦ rw (deallocate_for, e) (unchanged-Cleared subport.port_id host t c e)
          | inr (l, e) ↦
              rw (deallocate_for, e)
                (delete_unused_segment-Clears subport.port_id host l.segment_id t
                  (without_level-Detached spared subport.port_id host l t c e))
        ]
