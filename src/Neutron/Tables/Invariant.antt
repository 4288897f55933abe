-- ===== src/Neutron/Tables/Invariant.antt =====
-- Consistent tables: a binding level refers to a segment that is there, a dynamic segment is in
-- use, and a segment's id is its key.
use understack.Prelude.{
  ◌≡◌, refl, subst, Bool, true, false, ◌||◌, if◌then◌else◌, List, [], ◌∷◌, ◌++◌, some-injective,
  All-map, any, any-append, append-All, find?, All, none, some, is_some, Text, text_eq, text_eq_iff,
  text_eq_refl, arith, ◌⊎◌, inl, inr, Bool-cases,
}
use understack.Neutron.Tables.{
  Segment, Level, Tables, TypeManager, network_segment_by_id, is_segment_of, same_level, add_level,
  ports_bound_to_segment, is_level_of,
}

-- What neutron documents of its type manager. A segment is allocated for the network and the
-- physical network, and is one that was there or a new one; no other is touched. A release takes
-- the one segment away. Ids stay keys.
unfoldable pub IsKeyed : List Segment → Type 0
IsKeyed segments = All (λ s. network_segment_by_id s.id segments ≡ some s) segments

pub record IsDocumented (tm : TypeManager) : Type 0 where
  pub of_network :
      (segments : List Segment) (network_id physnet : Text) (s : Segment) (after : List Segment)
      → tm.allocate_dynamic_segment segments network_id physnet ≡ some (s, after)
      → is_segment_of network_id physnet s ≡ true
  pub was_there_or_new :
      (segments : List Segment) (network_id physnet : Text) (s : Segment) (after : List Segment)
      → tm.allocate_dynamic_segment segments network_id physnet ≡ some (s, after)
      → (network_segment_by_id s.id segments ≡ none)
        ⊎ (network_segment_by_id s.id segments ≡ some s)
  pub allocated :
      (segments : List Segment) (network_id physnet : Text) (s : Segment) (after : List Segment)
      → tm.allocate_dynamic_segment segments network_id physnet ≡ some (s, after)
      → (id : Text)
      → network_segment_by_id id after
        ≡ (if text_eq s.id id then some s else network_segment_by_id id segments)
  pub allocated_keys :
      (segments : List Segment) (network_id physnet : Text) (s : Segment) (after : List Segment)
      → tm.allocate_dynamic_segment segments network_id physnet ≡ some (s, after)
      → IsKeyed segments
      → IsKeyed after
  pub released :
      (segments : List Segment) (segment_id id : Text)
      → network_segment_by_id id (tm.release_dynamic_segment segment_id segments)
        ≡ (if text_eq segment_id id then none else network_segment_by_id id segments)
  pub released_keys :
      (segments : List Segment) (segment_id : Text)
      → IsKeyed segments
      → IsKeyed (tm.release_dynamic_segment segment_id segments)

abbrev pub IsLinked : List Segment → List Level → Type 0
IsLinked segments levels =
    All (λ l. is_some (network_segment_by_id l.segment_id segments) ≡ true) levels

-- Every dynamic segment but the one that `spared` holds of has a binding level.
unfoldable pub InUse : (Text → Bool) → List Segment → List Level → Type 0
InUse spared segments levels =
    (id : Text) (s : Segment)
    → network_segment_by_id id segments ≡ some s
    → s.is_dynamic ≡ true
    → (ports_bound_to_segment id levels || spared id) ≡ true

-- A row is the one that is found by its key.
abbrev pub IsFound : List Level → Level → Type 0
IsFound levels l = find? (is_level_of l.port_id l.host l.level) levels ≡ some l

pub record IsSound (t : Tables) : Type 0 where
  pub keyed : IsKeyed t.segments
  pub linked : IsLinked t.segments t.levels
  pub level_keys : All (IsFound t.levels) t.levels

-- Sound tables in which every dynamic segment is in use, but for the spared ones.
pub record IsConsistentBut (spared : Text → Bool) (t : Tables) : Type 0 where
  pub sound : IsSound t
  pub in_use : InUse spared t.segments t.levels

abbrev pub IsConsistent : Tables → Type 0
IsConsistent = IsConsistentBut (λ id. false)

bound-same :
    (row : Level) (levels : List Level)
    → any (same_level row) levels ≡ true
    → ports_bound_to_segment row.segment_id levels ≡ true
unfolding ports_bound_to_segment any
bound-same row [] h = cc
bound-same row (l ∷ levels) h = ground (
  arith,
  bound-same row levels,
  text_eq_iff row.segment_id l.segment_id,
  text_eq_refl row.segment_id,
)

bound-append :
    (id : Text) (row : Level) (levels : List Level)
    → ports_bound_to_segment id (levels ++ row ∷ [])
      ≡ (ports_bound_to_segment id levels || text_eq row.segment_id id)
unfolding ports_bound_to_segment any
bound-append id row [] = ground arith
bound-append id row (l ∷ levels) = ground (arith, bound-append id row levels)

-- A row that is added is there, no other goes, and it brings nothing else.
pub record Added (row : Level) (levels after : List Level) : Type 1 where
  pub bound :
      (id : Text)
      → ports_bound_to_segment id after
        ≡ (ports_bound_to_segment id levels || text_eq row.segment_id id)
  pub has : any (same_level row) after ≡ true
  pub keeps : (p : Level → Bool) → any p levels ≡ true → any p after ≡ true
  pub all : (P : Level → Type 0) → All P levels → P row → All P after
  pub level_keys : All (IsFound levels) levels → All (IsFound after) after

same_self : (row : Level) → same_level row row ≡ true
same_self row = ground (
  arith,
  text_eq_refl row.port_id,
  text_eq_refl row.host,
  text_eq_refl row.driver,
  text_eq_refl row.segment_id,
)

there-Added :
    (row : Level) (levels : List Level)
    → any (same_level row) levels ≡ true
    → Added row levels levels
there-Added row levels h = record {
  bound = λ id. ground (arith, bound-same row levels h, text_eq_iff row.segment_id id);
  has = h;
  keeps = λ p k. k;
  all = λ P a p. a;
  level_keys = λ k. k;
}

find?-append_some {ℓ} :
    {A : Type ℓ} (p : A → Bool) (xs ys : List A) (x : A)
    → find? p xs ≡ some x
    → find? p (xs ++ ys) ≡ some x
unfolding find?
find?-append_some p [] ys x h = cc
find?-append_some p (z ∷ zs) ys x h = ground (arith, find?-append_some p zs ys x)

find?-append_none {ℓ} :
    {A : Type ℓ} (p : A → Bool) (xs : List A) (y : A)
    → any p xs ≡ false
    → p y ≡ true
    → find? p (xs ++ y ∷ []) ≡ some y
unfolding find? any
find?-append_none p [] y h k = rw k refl
find?-append_none p (x ∷ xs) y h k = ground (arith, find?-append_none p xs y)

new-Added :
    (row : Level) (levels : List Level)
    → any (is_level_of row.port_id row.host row.level) levels ≡ false
    → Added row levels (levels ++ row ∷ [])
unfolding any is_level_of
new-Added row levels h = record {
  bound = λ id. bound-append id row levels;
  has = ground (arith, any-append (same_level row) levels (row ∷ []), same_self row);
  keeps = λ p k. ground (arith, any-append p levels (row ∷ []));
  all = λ P a p. append-All P levels row a p;
  level_keys = λ k.
      append-All (IsFound (levels ++ row ∷ [])) levels row
        (All-map levels
          (λ l f. find?-append_some (is_level_of l.port_id l.host l.level) levels (row ∷ []) l f) k)
        (find?-append_none (is_level_of row.port_id row.host row.level) levels row h
          (ground (arith, text_eq_refl row.port_id, text_eq_refl row.host)));
}

pub add_level-Added :
    (row : Level) (levels after : List Level)
    → add_level row levels ≡ some after
    → Added row levels after
unfolding add_level
add_level-Added row levels after h = elim (Bool-cases (any (same_level row) levels)) [
  | inl e ↦
      subst (Added row levels) (some-injective levels after (rw e at h)) (there-Added row levels e)
  | inr e ↦ elim (Bool-cases (any (is_level_of row.port_id row.host row.level) levels)) [
    | inl f ↦ let no_rows : none ≡ some after = rw f at (rw e at h) in cc
    | inr f ↦
        subst (Added row levels) (some-injective (levels ++ row ∷ []) after (rw f at (rw e at h)))
          (new-Added row levels f)
  ]
]
