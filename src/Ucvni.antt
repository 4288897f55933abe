-- ===== src/Ucvni.antt =====
-- The VNI ranges of a UCVNI group in Nautobot, and their change with neutron's segment ranges:
-- python/understack-workflows/understack_workflows/main/sync_ucvni_group_range.py.
-- Nautobot is the group's range and the notes, with each note's text under the id of its segment
-- range; whether it saves the group is an input.
pub mod Numbers
pub mod Removal
mod Tests
use understack.Prelude.{
  ℕ, zero, suc, ◌+◌, ◌-◌, ◌/◌, ◌%◌, ltb, ◌==◌, if◌then◌else◌, Bool, true, false, not, ◌&&◌, ◌||◌,
  List, [], ◌∷◌, ◌++◌, filter, Option, none, some, ℤ, pos, negsuc, Text, text_eq, split_on, Result,
  ok, err, Dict, get, put,
}
use understack.Vni.Ranges.{Range, parse_int}

-- SegmentRangeEvent
pub data SegmentRangeEvent : Type 0 where
  create update delete : SegmentRangeEvent

-- AttributeError of a note that is not there, and ValueError of a range that is not two integers.
pub data Failure : Type 0 where
  no_note not_a_range : Failure

-- The decimal digits of a number, before `out`; the fuel is more than the number.
unfoldable pub emit : ℕ → ℕ → Text → Text
emit zero n out = out
emit (suc fuel) n out =
    let rest = emit fuel (n / 10) ((b'0' + n % 10) ∷ out) in
    if ltb n 10 then (b'0' + n) ∷ out else rest

unfoldable pub print_number : ℕ → Text
unfolding emit
print_number n = emit (n + 1) n []

-- `f"{start}-{end}"`
unfoldable pub print_range : Range → Text
unfolding print_number
print_range (start, end) = print_number start ++ b'-' ∷ print_number end

-- A part between dashes has no sign "-".
abbrev pub both : Option ℤ → Option ℤ → Option Range
both (some (pos start)) (some (pos end)) = some (start, end)
both _ _ = none

abbrev pub pair_of : Text × List Text → Option Range
pair_of (start, []) = none
pair_of (start, end ∷ []) = both (parse_int start) (parse_int end)
pair_of (start, end ∷ part ∷ parts) = none

-- `start, end = map(int, r.split("-"))`
unfoldable pub range_of : Text → Option Range
range_of text = pair_of (split_on b'-' text)

-- What is left of a range when another is removed.
unfoldable pub left_of : Range → Text → Range → List Text
left_of (remove_start, remove_end) text (start, end) =
    if (start == remove_start) && (end == remove_end)
    then []
    else if ltb end remove_start || ltb remove_end start
    then text ∷ []
    else (if ltb start remove_start then print_range (start, remove_start - 1) ∷ [] else [])
      ++ (if ltb remove_end end then print_range (remove_end + 1, end) ∷ [] else [])

abbrev pub and_left : Range → Text → Option Range → Option (List Text) → Option (List Text)
and_left removed text (some range) (some rest) = some (left_of removed text range ++ rest)
and_left removed text _ _ = none

-- The loop of `_remove_subrange`; `none` is ValueError.
unfoldable pub remove_range : Range → List Text → Option (List Text)
remove_range removed [] = some []
remove_range removed (text ∷ ranges) =
    and_left removed text (range_of text) (remove_range removed ranges)

abbrev pub remove_if_range : Option Range → List Text → Option (List Text)
remove_if_range none ranges = some ranges
remove_if_range (some removed) ranges = remove_range removed ranges

-- `_remove_subrange`, with the note's text
unfoldable pub remove_subrange : Text → List Text → Option (List Text)
remove_subrange [] ranges = some ranges
remove_subrange (c ∷ note) ranges = remove_if_range (range_of (c ∷ note)) ranges

-- `existing_range.split(",") if existing_range else []`
abbrev pub split_ranges : Option Text → List Text
split_ranges none = []
split_ranges (some []) = []
split_ranges (some (c ∷ s)) = let (part, parts) = split_on b',' (c ∷ s) in part ∷ parts

-- `",".join(ranges)`
unfoldable pub join_ranges : List Text → Text
join_ranges [] = []
join_ranges (text ∷ []) = text
join_ranges (text ∷ next ∷ ranges) = text ++ b',' ∷ join_ranges (next ∷ ranges)

abbrev pub or_not_a_range : Option (List Text) → Result Failure (List Text)
or_not_a_range none = err not_a_range
or_not_a_range (some left) = ok left

abbrev pub removed_from : Option Text → List Text → Result Failure (List Text)
removed_from none ranges = err no_note
removed_from (some note) ranges = or_not_a_range (remove_subrange note ranges)

abbrev pub and_new : Text → Result Failure (List Text) → Result Failure (List Text)
and_new new_range (err failure) = err failure
and_new new_range (ok ranges) = ok (ranges ++ new_range ∷ [])

-- `modify_range`, before the ranges are joined
unfoldable pub modified_ranges :
    SegmentRangeEvent → Text → List Text → Option Text → Result Failure (List Text)
modified_ranges create new_range ranges noted = ok (ranges ++ new_range ∷ [])
modified_ranges delete new_range ranges noted = removed_from noted ranges
modified_ranges update new_range ranges noted = and_new new_range (removed_from noted ranges)

abbrev pub joined : Result Failure (List Text) → Result Failure Text
joined (err failure) = err failure
joined (ok ranges) = ok (join_ranges ranges)

unfoldable pub modify_range :
    SegmentRangeEvent → Text → Option Text → Option Text → Result Failure Text
modify_range action new_range existing_range note =
    joined (modified_ranges action new_range (split_ranges existing_range) note)

pub record Store : Type 0 where
  pub range : Option Text
  pub notes : Dict Text

-- `capture_segment_range_in_notes`; a note that is there has one text.
unfoldable pub capture_segment_range_in_notes :
    SegmentRangeEvent → Text → Text → Dict Text → Dict Text
capture_segment_range_in_notes update segment_range_id segment_range notes =
    put segment_range_id segment_range notes
capture_segment_range_in_notes delete segment_range_id segment_range notes =
    filter (λ note. not (text_eq note.0 segment_range_id)) notes
capture_segment_range_in_notes create segment_range_id segment_range notes =
    put segment_range_id segment_range notes

abbrev pub saved :
    Bool
    → SegmentRangeEvent
    → Text
    → Text
    → Store
    → Result Failure Text
    → Result Failure Bool × Store
saved is_updated action id requested store (err failure) = (err failure, store)
saved is_updated action id requested store (ok new_range) =
    if is_updated
    then (
      ok true,
      record {
        range = some new_range;
        notes = capture_segment_range_in_notes action id requested store.notes;
      },
    )
    else (ok false, store)

-- `update_ucvni_range`; `is_updated` is what Nautobot answers.
unfoldable pub update_ucvni_range :
    Bool → SegmentRangeEvent → Text → Range → Store → Result Failure Bool × Store
update_ucvni_range is_updated action segment_range_id range store =
    let requested_range = print_range range in
    saved is_updated action segment_range_id requested_range store
      (modify_range action requested_range store.range (get segment_range_id store.notes))
