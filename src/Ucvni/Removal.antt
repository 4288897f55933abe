-- ===== src/Ucvni/Removal.antt =====
-- Which VNIs the removal of a range leaves.
use understack.Prelude.{
  ℕ, ◌+◌, ◌-◌, ◌≡◌, refl, sym, ap, ◌∙◌, ltb, ◌==◌, between, if◌then◌else◌, Bool, true, false, not,
  ◌&&◌, ◌||◌, List, [], ◌∷◌, ◌++◌, any, any-append, All, ok, split_on, Option, none, some, is_some,
  Text, arith, Bool-cases, Option-cases, inl, inr,
}
use understack.Vni.Ranges.{Range}
use understack.Ucvni.{
  SegmentRangeEvent, create, update, delete, or_not_a_range, removed_from, and_new, modified_ranges,
  print_range, range_of, left_of, and_left, remove_range, remove_if_range, remove_subrange,
}
use understack.Ucvni.Numbers.{range_of-print_range}

abbrev pub covered_by : Option Range → ℕ → Bool
covered_by none v = false
covered_by (some (start, end)) v = between start end v

-- Some range of the texts has the VNI.
unfoldable pub covers_texts : List Text → ℕ → Bool
unfolding any
covers_texts texts v = any (λ text. covered_by (range_of text) v) texts

-- Every text is a range.
abbrev pub AreRanges : List Text → Type 0
AreRanges = All (λ text. is_some (range_of text) ≡ true)

covers-print_range :
    (start end v : ℕ) → covered_by (range_of (print_range (start, end))) v ≡ between start end v
covers-print_range start end v = ap (λ r. covered_by r v) (range_of-print_range (start, end))

covers_text :
    (text : Text) (start end v : ℕ)
    → range_of text ≡ some (start, end)
    → covered_by (range_of text) v ≡ between start end v
covers_text text start end v e = ap (λ r. covered_by r v) e

covers_left_of :
    (remove_start remove_end : ℕ) (text : Text) (start end v : ℕ)
    → range_of text ≡ some (start, end)
    → covers_texts (left_of (remove_start, remove_end) text (start, end)) v
      ≡ (between start end v && not (between remove_start remove_end v))
unfolding left_of covers_texts any
covers_left_of remove_start remove_end text start end v e = ground (
  arith,
  covers_text text start end v e,
  covers-print_range start (remove_start - 1) v,
  covers-print_range (remove_end + 1) end v,
)

All-append {ℓ} :
    {A : Type ℓ} (P : A → Type 0) (xs ys : List A) → All P xs → All P ys → All P (xs ++ ys)
All-append P [] ys h k = k
All-append P (x ∷ xs) ys (here, later) k = (here, All-append P xs ys later k)

-- What is left: texts of ranges, which cover what `expected` says.
pub record Leaves (expected : ℕ → Bool) (left : List Text) : Type 0 where
  pub are_ranges : AreRanges left
  pub covers : (v : ℕ) → covers_texts left v ≡ expected v

AreRanges-print_range : (r : Range) → AreRanges (print_range r ∷ [])
AreRanges-print_range r = (ap is_some (range_of-print_range r), tt)

AreRanges-if :
    (b : Bool) (texts : List Text) → AreRanges texts → AreRanges (if b then texts else [])
AreRanges-if true texts h = h
AreRanges-if false texts h = tt

AreRanges-left_of :
    (removed : Range) (text : Text) (range : Range)
    → is_some (range_of text) ≡ true
    → AreRanges (left_of removed text range)
unfolding left_of
AreRanges-left_of (remove_start, remove_end) text (start, end) h =
    elim (Bool-cases ((start == remove_start) && (end == remove_end))) [
      | inl e ↦ rw (AreRanges, e) tt
      | inr e ↦ elim (Bool-cases (ltb end remove_start || ltb remove_end start)) [
        | inl f ↦ rw (AreRanges, e) (rw (AreRanges, f) (h, tt))
        | inr f ↦
            rw (AreRanges, e)
              (rw (AreRanges, f)
                (All-append (λ t. is_some (range_of t) ≡ true)
                  (if ltb start remove_start
                    then print_range (start, remove_start - 1) ∷ []
                    else [])
                  (if ltb remove_end end then print_range (remove_end + 1, end) ∷ [] else [])
                  (AreRanges-if (ltb start remove_start) _
                    (AreRanges-print_range (start, remove_start - 1)))
                  (AreRanges-if (ltb remove_end end) _
                    (AreRanges-print_range (remove_end + 1, end)))))
      ]
    ]

-- The VNIs without those of the removed range.
abbrev pub without : Range → List Text → ℕ → Bool
without (remove_start, remove_end) ranges v =
    covers_texts ranges v && not (between remove_start remove_end v)

remove_range-Leaves :
    (removed : Range) (ranges : List Text)
    → AreRanges ranges
    → (left : List Text) × (remove_range removed ranges ≡ some left)
      × Leaves (without removed ranges) left
unfolding remove_range covers_texts any
remove_range-Leaves removed [] h = ([], refl, record { are_ranges = tt; covers = λ v. refl })
remove_range-Leaves (remove_start, remove_end) (text ∷ ranges) (here, later) =
    elim (Option-cases (range_of text)) [
      | inl e ↦ let nothing : false ≡ true = sym (ap is_some e) ∙ here in cc
      | inr ((start, end), e) ↦
          let removed : Range = (remove_start, remove_end) in
          let (rest, same, leaves) = remove_range-Leaves removed ranges later in
          let here_left = left_of removed text (start, end) in
          (
            here_left ++ rest,
            ap (λ r. and_left removed text r (remove_range removed ranges)) e
                ∙ ap (and_left removed text (some (start, end))) same,
            record {
              are_ranges =
                  All-append (λ t. is_some (range_of t) ≡ true) here_left rest
                    (AreRanges-left_of removed text (start, end) here) leaves.are_ranges;
              covers = λ v. ground (
                arith,
                any-append (λ t. covered_by (range_of t) v) here_left rest,
                covers_left_of remove_start remove_end text start end v e,
                covers_text text start end v e,
                leaves.covers v,
              );
            },
          )
    ]

-- What the VNIs of a group are after an event: those of the new range come, those of the old go.
abbrev pub after_event : SegmentRangeEvent → Range → Range → List Text → ℕ → Bool
after_event create (start, end) old ranges v = covers_texts ranges v || between start end v
after_event delete new_range old ranges v = without old ranges v
after_event update (start, end) old ranges v = without old ranges v || between start end v

appended-Leaves :
    (expected : ℕ → Bool) (left : List Text) (start end : ℕ)
    → Leaves expected left
    → Leaves (λ v. expected v || between start end v) (left ++ print_range (start, end) ∷ [])
unfolding covers_texts any
appended-Leaves expected left start end l = record {
  are_ranges =
      All-append (λ t. is_some (range_of t) ≡ true) left (print_range (start, end) ∷ [])
        l.are_ranges (AreRanges-print_range (start, end));
  covers = λ v. ground (
    arith,
    any-append (λ t. covered_by (range_of t) v) left (print_range (start, end) ∷ []),
    covers-print_range start end v,
    l.covers v,
  );
}

-- The note of a range removes it.
removed_from-Leaves :
    (note : Text) (old : Range) (ranges : List Text)
    → range_of note ≡ some old
    → AreRanges ranges
    → (left : List Text) × (removed_from (some note) ranges ≡ ok left)
      × Leaves (without old ranges) left
unfolding remove_subrange range_of split_on
removed_from-Leaves [] old ranges e h = let nothing : none ≡ some old = e in cc
removed_from-Leaves (c ∷ note) old ranges e h =
    let (left, same, leaves) = remove_range-Leaves old ranges h in
    (left, ap or_not_a_range (ap (λ r. remove_if_range r ranges) e ∙ same), leaves)

-- Where each text of the group is a range and the note of the segment range is one,
-- `modify_range` makes a list in which each text is a range again, and which covers: on creation
-- what was covered and the new range, on deletion what was covered without the note's range, and
-- on an update that with the new range.
pub modified_ranges-Leaves :
    (action : SegmentRangeEvent) (new_range old : Range) (ranges : List Text) (note : Text)
    → range_of note ≡ some old
    → AreRanges ranges
    → (left : List Text) × (modified_ranges action (print_range new_range) ranges (some note)
        ≡ ok left)
      × Leaves (after_event action new_range old ranges) left
unfolding modified_ranges
modified_ranges-Leaves create (start, end) old ranges note e h = (
  ranges ++ print_range (start, end) ∷ [],
  refl,
  appended-Leaves (covers_texts ranges) ranges start end
      (record { are_ranges = h; covers = λ v. refl }),
)
modified_ranges-Leaves delete new_range old ranges note e h =
    removed_from-Leaves note old ranges e h
modified_ranges-Leaves update (start, end) old ranges note e h =
    let (left, same, leaves) = removed_from-Leaves note old ranges e h in
    (
      left ++ print_range (start, end) ∷ [],
      ap (and_new (print_range (start, end))) same,
      appended-Leaves (without old ranges) left start end leaves,
    )
