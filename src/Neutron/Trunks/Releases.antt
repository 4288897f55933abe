-- ===== src/Neutron/Trunks/Releases.antt =====
-- `_handle_segment_deallocation` for all subports.
use understack.Prelude.{
  ◌≡◌, refl, sym, ap, ◌∙◌, Bool, true, not, ◌&&◌, ◌||◌, List, [], ◌∷◌, any, filter, filter-filter,
  Text, Result, ok, err, arith,
}
use understack.Neutron.Tables.{
  Level, Tables, Error, continue, TypeManager, is_level_of, ports_bound_to_segment,
}
use understack.Neutron.Tables.Invariant.{IsDocumented, IsConsistentBut}
use understack.Neutron.Trunks.{Subport, deallocate_for, handle_segment_deallocation}
use understack.Neutron.Trunks.Release.{Cleared, Clears, deallocate_for-Clears}

-- The level of one of the subports at the host.
pub of_subports : List Subport → Text → Level → Bool
of_subports subports host l = any (λ s. is_level_of s.port_id host 0 l) subports

bound-filter :
    (id : Text) (q : Level → Bool) (levels : List Level)
    → ports_bound_to_segment id (filter q levels) ≡ true
    → ports_bound_to_segment id levels ≡ true
unfolding ports_bound_to_segment any filter
bound-filter id q [] h = h
bound-filter id q (l ∷ levels) h = ground (arith, bound-filter id q levels)

filter-true : (levels : List Level) → filter (λ l. true) levels ≡ levels
unfolding filter
filter-true [] = refl
filter-true (l ∷ levels) = ap (λ ls. l ∷ ls) (filter-true levels)

filter-ext :
    (first rest : Level → Bool) (levels : List Level)
    → filter (λ l. not (first l) && not (rest l)) levels
      ≡ filter (λ l. not (first l || rest l)) levels
unfolding filter
filter-ext first rest [] = refl
filter-ext first rest (l ∷ levels) = ground (arith, filter-ext first rest levels)

still_kept :
    (rest : Level → Bool) (id : Text) (dynamic : Bool) (u v : Tables)
    → v.levels ≡ filter (λ l. not (rest l)) u.levels
    → (ports_bound_to_segment id v.levels || not dynamic) ≡ true
    → (ports_bound_to_segment id u.levels || not dynamic) ≡ true
still_kept rest id dynamic u v e k =
    let same = ap (ports_bound_to_segment id) e in
    ground (arith, bound-filter id (λ l. not (rest l)) u.levels)

module _ (spared : Text → Bool) where
  Cleared-none :
      (host : Text) (t : Tables)
      → IsConsistentBut spared t
      → Cleared spared (of_subports [] host) t t
  unfolding of_subports any
  Cleared-none host t c = record {
    consistent = c;
    same_ports = refl;
    same_synced = refl;
    levels = sym (filter-true t.levels);
    kept = λ id s h k. h;
  }

  Cleared-trans :
      (first rest : Level → Bool) (t u v : Tables)
      → Cleared spared first t u
      → Cleared spared rest u v
      → Cleared spared (λ l. first l || rest l) t v
  Cleared-trans first rest t u v a b = record {
    consistent = b.consistent;
    same_ports = b.same_ports ∙ a.same_ports;
    same_synced = b.same_synced ∙ a.same_synced;
    levels =
        b.levels
        ∙ ap (filter (λ l. not (rest l))) a.levels
        ∙ filter-filter (λ l. not (rest l)) (λ l. not (first l)) t.levels
        ∙ filter-ext first rest t.levels;
    kept =
        λ id s h k. b.kept id s (a.kept id s h (still_kept rest id s.is_dynamic u v b.levels k)) k;
  }

  Clears-cons :
      (subport : Subport) (subports : List Subport) (host : Text) (t u : Tables)
      (o : Result Error Unit × Tables)
      → Cleared spared (is_level_of subport.port_id host 0) t u
      → Clears spared (of_subports subports host) u o
      → Clears spared (of_subports (subport ∷ subports) host) t o
  unfolding of_subports any
  Clears-cons subport subports host t u (ok x, v) a b =
      Cleared-trans (is_level_of subport.port_id host 0) (of_subports subports host) t u v a b
  Clears-cons subport subports host t u (err e, v) a b = b

  module _ (tm : TypeManager) (documented : IsDocumented tm) where
    then_Clears :
        (subport : Subport) (subports : List Subport) (host : Text) (t : Tables)
        (o : Result Error Unit × Tables)
        → Clears spared (is_level_of subport.port_id host 0) t o
        → ((u : Tables)
            → IsConsistentBut spared u
            → Clears spared
                (of_subports subports host)
                u
                (handle_segment_deallocation tm subports host u))
        → Clears spared
            (of_subports (subport ∷ subports) host)
            t
            (continue o (λ _. handle_segment_deallocation tm subports host))
    then_Clears subport subports host t (ok x, u) a step =
        Clears-cons subport subports host t u (handle_segment_deallocation tm subports host u) a
          (step u a.consistent)
    then_Clears subport subports host t (err e, u) a step = a

    -- With a type manager that does what neutron documents, and from tables that are consistent
    -- but that any spared dynamic segments may have no level, `_handle_segment_deallocation`
    -- always returns; then exactly the levels of the subports at the host are gone, the tables
    -- are consistent but for the same spared ones, so that no other dynamic segment without a
    -- level is left, and every segment that has a level or is not dynamic is kept.
    pub handle_segment_deallocation-Clears :
        (subports : List Subport) (host : Text) (t : Tables)
        → IsConsistentBut spared t
        → Clears spared
            (of_subports subports host)
            t
            (handle_segment_deallocation tm subports host t)
    unfolding handle_segment_deallocation
    handle_segment_deallocation-Clears [] host t c = Cleared-none host t c
    handle_segment_deallocation-Clears (subport ∷ subports) host t c =
        then_Clears subport subports host t (deallocate_for tm host subport t)
          (deallocate_for-Clears spared tm documented host subport t c)
          λ u cu. handle_segment_deallocation-Clears subports host u cu
