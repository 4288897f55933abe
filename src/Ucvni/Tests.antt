-- ===== src/Ucvni/Tests.antt =====
-- Runs of the change of a UCVNI group, and the theorem at a concrete input.
use understack.Prelude.{
  ◌≡◌, refl, true, List, [], ◌∷◌, some, Text, codes, text_eq, split_on, get, put, ok, strip,
}
use understack.Vni.Ranges.{digits, signed, parse_int}
use understack.Ucvni.{
  update, Store, print_number, print_range, range_of, left_of, remove_range, remove_subrange,
  modified_ranges, join_ranges, modify_range, capture_segment_range_in_notes, update_ucvni_range,
}
use understack.Ucvni.Removal.{Leaves, after_event, modified_ranges-Leaves}

abbrev ranges : List Text
ranges = codes "100-200" ∷ codes "300-400" ∷ []

abbrev store : Store
store = record {
  range = some (codes "100-200,300-400");
  notes = (codes "seg", codes "150-350") ∷ [];
}

update-run : update_ucvni_range true update (codes "seg") (500, 600) store ≡ (
  ok true,
  record {
    range = some (codes "100-149,351-400,500-600");
    notes = (codes "seg", codes "500-600") ∷ [];
  },
)
unfolding update_ucvni_range print_range print_number modify_range modified_ranges remove_subrange
    remove_range left_of range_of parse_int signed digits join_ranges split_on get put text_eq
    capture_segment_range_in_notes strip
update-run = refl

modified_ranges-Leaves_example :
    (left : List Text) × (modified_ranges update
        (print_range (500, 600))
        ranges
        (some (codes "150-350"))
      ≡ ok left)
    × Leaves (after_event update (500, 600) (150, 350) ranges) left
unfolding range_of parse_int split_on signed digits strip
modified_ranges-Leaves_example =
    modified_ranges-Leaves update (500, 600) (150, 350) ranges (codes "150-350") refl
      (refl, (refl, tt))
