-- ===== src/Neutron/Trunks/Detach.antt =====
-- Taking a port's level away: what is left of the tables before the segment is looked at.
use understack.Prelude.{
  ◌≡◌, sym, ap, ◌∙◌, subst, Bool, true, not, ◌||◌, List, [], ◌∷◌, any, filter, find?, find?-All,
  find?-filter, All-filter, All-map, All, some, is_some, Text, text_eq, text_eq_iff, arith,
  some-injective,
}
use understack.Neutron.Tables.{
  Level, Tables, network_segment_by_id, is_level_of, ports_bound_to_segment,
  port_binding_level_by_port_id,
}
use understack.Neutron.Tables.Invariant.{InUse, IsFound, IsSound, IsConsistentBut}

-- The rows that stay when a port's level at a host goes.
abbrev pub stays : Text → Text → Level → Bool
stays port_id host l = not (is_level_of port_id host 0 l)

-- The row that a search by a key finds is the only one with the key.
only_row :
    (port_id host : Text) (levels : List Level) (l m : Level)
    → find? (is_level_of port_id host 0) levels ≡ some l
    → IsFound levels m
    → is_level_of port_id host 0 m ≡ true
    → m.segment_id ≡ l.segment_id
unfolding is_level_of
only_row port_id host levels l m e f k =
    let same_port : m.port_id ≡ port_id = ground (arith, text_eq_iff m.port_id port_id) in
    let same_host : m.host ≡ host = ground (arith, text_eq_iff m.host host) in
    let same_number : m.level ≡ 0 = ground arith in
    let by_port = subst (λ x. find? (is_level_of x m.host m.level) levels ≡ some m) same_port f in
    let by_host =
      subst (λ x. find? (is_level_of port_id x m.level) levels ≡ some m) same_host by_port in
    let by_key =
      subst (λ x. find? (is_level_of port_id host x) levels ≡ some m) same_number by_host in
    ap (λ x. x.segment_id) (some-injective m l (sym by_key ∙ e))

-- A segment with a row has one still, unless it was the row's that went.
bound-stays :
    (port_id host segment_id id : Text) (levels : List Level)
    → All (λ m. is_level_of port_id host 0 m ≡ true → m.segment_id ≡ segment_id) levels
    → ports_bound_to_segment id levels ≡ true
    → (ports_bound_to_segment id (filter (stays port_id host) levels) || text_eq segment_id id)
      ≡ true
unfolding ports_bound_to_segment any filter
bound-stays port_id host segment_id id [] a h = cc
bound-stays port_id host segment_id id (m ∷ levels) (here, later) h = ground (
  arith,
  here,
  bound-stays port_id host segment_id id levels later,
  text_eq_iff segment_id id,
  text_eq_iff m.segment_id id,
)

abbrev pub without_level : Text → Text → Tables → Tables
without_level port_id host t = record t { levels = filter (stays port_id host) t.levels }

-- The segment that is looked at need not be in use, nor need the spared ones.
abbrev pub or_segment : (Text → Bool) → Text → Text → Bool
or_segment spared segment_id id = text_eq segment_id id || spared id

module _ (spared : Text → Bool) where
  -- The tables without a port's level at a host, but with its segment.
  pub record Detached (segment_id : Text) (t : Tables) : Type 0 where
    pub sound : IsSound t
    pub in_use : InUse (or_segment spared segment_id) t.segments t.levels
    pub there : is_some (network_segment_by_id segment_id t.segments) ≡ true

  pub without_level-Detached :
      (port_id host : Text) (l : Level) (t : Tables)
      → IsConsistentBut spared t
      → port_binding_level_by_port_id port_id host t.levels ≡ some l
      → Detached l.segment_id (without_level port_id host t)
  unfolding port_binding_level_by_port_id InUse
  without_level-Detached port_id host l t c e =
      let only =
        All-map t.levels (λ m f k. only_row port_id host t.levels l m e f k) c.sound.level_keys in
      record {
        sound = record {
          keyed = c.sound.keyed;
          linked =
              All-map (filter (stays port_id host) t.levels) (λ m h. h.0)
                (All-filter (λ m. is_some (network_segment_by_id m.segment_id t.segments) ≡ true)
                  (stays port_id host) t.levels c.sound.linked);
          level_keys =
              All-map (filter (stays port_id host) t.levels)
                (λ m h.
                  find?-filter (is_level_of m.port_id m.host m.level) (stays port_id host) t.levels
                    m h.0 h.1)
                (All-filter (IsFound t.levels) (stays port_id host) t.levels c.sound.level_keys);
        };
        in_use = λ id s h d.
            ground
              (arith, c.in_use id s h d, bound-stays port_id host l.segment_id id t.levels only);
        there =
            (find?-All (λ m. is_some (network_segment_by_id m.segment_id t.segments) ≡ true)
              (is_level_of port_id host 0) t.levels l c.sound.linked e).1;
      }
