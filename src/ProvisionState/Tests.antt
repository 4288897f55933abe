-- ===== src/ProvisionState/Tests.antt =====
-- Tests of the mapping of provision states.
use understack.Prelude.{
  ◌≡◌, ◌≢◌, ◌↔◌, false, refl, none, some, codes, contains, text_eq, get, ok, err,
}
use understack.ProvisionState.{
  translate_to_nautobot, translate-unknown_iff, unknown, all_ironic_states,
}

-- Ironic's "unrescuing" is not the map's "unrescueing", and has no status.
test_unrescuing : translate_to_nautobot (codes "unrescuing") ≡ ok none
unfolding translate_to_nautobot contains get text_eq
test_unrescuing = refl

test_active : translate_to_nautobot (codes "active") ≡ ok (some (codes "Active"))
unfolding translate_to_nautobot get text_eq
test_active = refl

test_bogus : translate_to_nautobot (codes "bogus") ≡ err (unknown (codes "bogus"))
unfolding translate_to_nautobot contains get text_eq
test_bogus = refl

translate-unknown_iff_example :
    (translate_to_nautobot (codes "bogus") ≡ err (unknown (codes "bogus")))
    ↔ ((contains (codes "bogus") all_ironic_states ≡ false) × (codes "bogus" ≢ codes "unrescueing"))
translate-unknown_iff_example = translate-unknown_iff (codes "bogus")
