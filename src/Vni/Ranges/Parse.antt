-- ===== src/Vni/Ranges/Parse.antt =====
-- What `parse_vni_ranges` promises of the ranges that it returns.
use understack.Prelude.{
  ℕ, ◌≤◌, ◌≡◌, ◌≢◌, subst, true, List, [], ◌∷◌, All, Option, arith, ok, Text, ℤ, pos, negsuc, strip,
  is_nil, >>=-eq-ok, >>-eq-ok,
}
use understack.Vni.Ranges.{
  bounds_text, empty_range, Range, invalid, check_range, int_or_raise, parse_entry, parse_entries,
  merge_parsed, merge_ranges, parse_vni_ranges, covers, entries_of,
}
use understack.Vni.Ranges.Merge.{
  IsProper, IsSeparatedFrom, covers-merge_ranges, merge_ranges-IsSeparated,
}

-- A range that is proper and lies between the least and the greatest VNI.
abbrev pub IsWithin : ℕ → ℕ → Range → Type 0
IsWithin lo hi (s, e) = (lo ≤ s) × (s ≤ e) × (e ≤ hi)

check_range-IsWithin :
    (lo hi : ℕ) (entry : Text) (s e : ℤ) (r : Range)
    → check_range lo hi entry s e ≡ ok r
    → IsWithin lo hi r
unfolding check_range
check_range-IsWithin lo hi entry (pos s) (pos e) r h = ground arith
check_range-IsWithin lo hi entry (pos s) (negsuc e) r h = ground arith
check_range-IsWithin lo hi entry (negsuc s) (pos e) r h = ground arith
check_range-IsWithin lo hi entry (negsuc s) (negsuc e) r h = ground arith

parse_entry-IsWithin :
    (lo hi : ℕ) (entry : Text) (r : Range) → parse_entry lo hi entry ≡ ok r → IsWithin lo hi r
unfolding parse_entry
parse_entry-IsWithin lo hi raw r h =
    let entry = strip raw in
    let (_, read) = >>-eq-ok (is_nil entry) (invalid entry empty_range) _ h in
    let (s, _, with_start) = >>=-eq-ok (int_or_raise entry (bounds_text entry).0) _ read in
    let (e, _, with_end) = >>=-eq-ok (int_or_raise entry (bounds_text entry).1) _ with_start in
    check_range-IsWithin lo hi entry s e r with_end

parse_entries-IsWithin :
    (lo hi : ℕ) (entries : List Text) (rs : List Range)
    → parse_entries lo hi entries ≡ ok rs
    → All (IsWithin lo hi) rs
unfolding parse_entries
parse_entries-IsWithin lo hi [] [] h = tt
parse_entries-IsWithin lo hi [] (r ∷ rs) h = cc
parse_entries-IsWithin lo hi (entry ∷ entries) rs h =
    let (r, e, more) = >>=-eq-ok (parse_entry lo hi entry) _ h in
    let (rest, f, last) = >>=-eq-ok (parse_entries lo hi entries) _ more in
    let same : (r ∷ rest) ≡ rs = ground arith in
    subst (All (IsWithin lo hi)) same
      (parse_entry-IsWithin lo hi entry r e, parse_entries-IsWithin lo hi entries rest f)

covers-IsWithin :
    (lo hi v : ℕ) (rs : List Range)
    → All (IsWithin lo hi) rs
    → covers rs v ≡ true
    → (lo ≤ v) × (v ≤ hi)
unfolding covers
covers-IsWithin lo hi v [] w h = cc
covers-IsWithin lo hi v (r ∷ rs) w h = ground (arith, covers-IsWithin lo hi v rs w.1)

All-IsProper : (lo hi : ℕ) (rs : List Range) → All (IsWithin lo hi) rs → All IsProper rs
All-IsProper lo hi [] w = tt
All-IsProper lo hi (r ∷ rs) (w, ws) = (w.1, All-IsProper lo hi rs ws)

merge_parsed_ok :
    (parsed rs : List Range)
    → merge_parsed parsed ≡ ok rs
    → (rs ≡ merge_ranges parsed) × (parsed ≢ [])
unfolding merge_parsed
merge_parsed_ok [] rs h = cc
merge_parsed_ok (r ∷ parsed) rs h = (ground arith, λ e. cc)

-- Ranges that `parse_vni_ranges` returns are in ascending order with a gap between neighbours,
-- and cover no VNI outside the bounds; each entry was read as a range, there is at least one,
-- and the result covers exactly the VNIs of the ranges that were read.
pub parse_vni_ranges-IsSeparated :
    (lo hi : ℕ) (entries : Option (List Text)) (rs : List Range)
    → parse_vni_ranges lo hi entries ≡ ok rs
    → IsSeparatedFrom 0 rs
      × ((v : ℕ) → covers rs v ≡ true → (lo ≤ v) × (v ≤ hi))
      × ((parsed : List Range) × (parsed ≢ [])
          × (parse_entries lo hi (entries_of entries) ≡ ok parsed)
          × ((v : ℕ) → covers rs v ≡ covers parsed v))
unfolding parse_vni_ranges
parse_vni_ranges-IsSeparated lo hi entries rs h =
    let (parsed, e, f) = >>=-eq-ok (parse_entries lo hi (entries_of entries)) merge_parsed h in
    let (same, some_given) = merge_parsed_ok parsed rs f in
    let within = parse_entries-IsWithin lo hi (entries_of entries) parsed e in
    let covered : (v : ℕ) → covers rs v ≡ covers parsed v =
      λ v. rw same (covers-merge_ranges v parsed) in
    (
      rw same (merge_ranges-IsSeparated parsed (All-IsProper lo hi parsed within)),
      λ v c. covers-IsWithin lo hi v parsed within (rw (← covered v) c),
      (parsed, some_given, e, covered),
    )
