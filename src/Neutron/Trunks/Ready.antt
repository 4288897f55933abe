-- ===== src/Neutron/Trunks/Ready.antt =====
-- Subports that can be given a level: their ports are there, and have none at the host.
use understack.Prelude.{
  ◌≡◌, refl, ap, ◌∙◌, true, false, List, [], ◌∷◌, ◌++◌, any, any-append, find?, All, some, is_some,
  Text, text_eq, text_eq_iff, arith,
}
use understack.Neutron.Tables.{Level, Tables, same_level, level_row, is_level_of, add_level}
use understack.Neutron.Trunks.{Subport}

-- A subport's port is there, and has no level at the host yet.
abbrev pub IsReady : Text → Tables → Subport → Type 0
IsReady host t s =
    (is_some (find? (λ p. text_eq p.id s.port_id) t.ports) ≡ true)
    × (any (is_level_of s.port_id host 0) t.levels ≡ false)

-- No two subports have the same port.
abbrev pub AreApart : List Subport → Type 0
AreApart [] = Unit
AreApart (s ∷ subports) =
    All (λ r. text_eq s.port_id r.port_id ≡ false) subports × AreApart subports

no_same_level :
    (row : Level) (levels : List Level)
    → any (is_level_of row.port_id row.host row.level) levels ≡ false
    → any (same_level row) levels ≡ false
unfolding any is_level_of
no_same_level row [] h = refl
no_same_level row (l ∷ levels) h = ground (
  arith,
  no_same_level row levels,
  text_eq_iff row.port_id l.port_id,
  text_eq_iff l.port_id row.port_id,
  text_eq_iff row.host l.host,
  text_eq_iff l.host row.host,
)

pub add_level_new :
    (row : Level) (levels : List Level)
    → any (is_level_of row.port_id row.host row.level) levels ≡ false
    → add_level row levels ≡ some (levels ++ row ∷ [])
unfolding add_level
add_level_new row levels h = rw (no_same_level row levels h) (rw h refl)

-- A row for one subport leaves the others ready.
pub still-IsReady :
    (host : Text) (s r : Subport) (t u : Tables) (segment_id : Text)
    → u.ports ≡ t.ports
    → u.levels ≡ t.levels ++ level_row s.port_id host 0 segment_id ∷ []
    → IsReady host t r
    → text_eq s.port_id r.port_id ≡ false
    → IsReady host u r
unfolding any is_level_of
still-IsReady host s r t u segment_id ports levels (there, free) d = (
  ap (λ ps. is_some (find? (λ p. text_eq p.id r.port_id) ps)) ports ∙ there,
  ap (any (is_level_of r.port_id host 0)) levels
      ∙ ground (
        arith,
        any-append (is_level_of r.port_id host 0) t.levels
            (level_row s.port_id host 0 segment_id ∷ []),
      ),
)
