-- ===== src/Vni/Tests.antt =====
-- Runs of the allocator, and each theorem at a concrete input.
use understack.Prelude.{
  ℕ, ◌≤◌, ◌≡◌, ◌≢◌, ◌⊎◌, refl, ap, true, false, ◌||◌, ◌==◌, List, [], ◌∷◌, Option, none, some, Text,
  codes, text_eq, opt_text_eq, any, ok, err, arith, if◌then◌else◌,
}
use understack.Vni.Ranges.{
  Range, invalid, start_after_end, parse_vni_ranges, parse_entries, covers, entries_of,
}
use understack.Vni.Ranges.Merge.{IsSeparatedFrom}
use understack.Vni.Ranges.Parse.{parse_vni_ranges-IsSeparated}
use understack.Vni.Table.{
  get_router_allocation, Allocation, Table, held_by, find_never_used_vni, has_vni, get_allocation,
  row_before,
}
use understack.Vni.Table.Rows.{IsValid}
use understack.Vni.Table.Search.{NeverUsed, find_never_used_vni-NeverUsed}
use understack.Vni.Table.Released.{IsReleased}
use understack.Vni.Allocator.{
  Helper, Error, not_specified, number, allocate_vni_for_router, allocate_new, allocate_auto_vni,
  ranges_of, get_vni_for_router, release_vni_for_router, is_auto_vni, to_vni,
}
use understack.Vni.Allocator.Invariant.{Allocates, allocate_vni_for_router-Allocates}
use understack.Vni.Allocator.New.{
  IsFree, allocate_new-IsFree, allocate_auto_vni_exhausted, allocate_auto_vni_oldest,
}
use understack.Vni.Allocator.Lifecycle.{
  Op, allocate, release, run, release_vni_for_router_lem, run_exclusive,
  run-allocate_vni_for_router,
}

abbrev entries : Option (List Text)
entries = some (codes "7" ∷ codes " 2 : 3" ∷ codes "+4:0_5" ∷ [])

abbrev ranges : List Range
ranges = (2, 5) ∷ (7, 7) ∷ []

parse-entries : parse_vni_ranges 1 100 entries ≡ ok ranges
unfolding parse_vni_ranges
parse-entries = refl

parse-backwards :
    parse_vni_ranges 1 100 (some (codes "9:8" ∷ [])) ≡ err (invalid (codes "9:8") start_after_end)
unfolding parse_vni_ranges
parse-backwards = refl

abbrev helper : Helper
helper = record { min_vni = 1; max_vni = 100; vni_ranges = none; conf_vni_ranges = entries }

helper-ranges : ranges_of helper ≡ ok ranges
unfolding ranges_of
helper-ranges = refl

abbrev router_a : Text
router_a = codes "a"

abbrev router_b : Text
router_b = codes "b"

abbrev rows : Table
rows =
    record { vni = 3; router_id = none; released_at = some 20 }
    ∷ held_by router_a 2
    ∷ record { vni = 7; router_id = none; released_at = some 10 }
    ∷ held_by (codes "c") 4
    ∷ []

abbrev used : Table
used = held_by (codes "d") 5 ∷ rows

-- 5 was never used; after it the VNI that was released first is used again.
allocate-auto : (allocate_vni_for_router helper router_b not_specified rows).0 ≡ ok 5
unfolding allocate_vni_for_router opt_text_eq text_eq
allocate-auto = refl

allocate-auto_again : (allocate_vni_for_router helper router_b not_specified used).0 ≡ ok 7
unfolding allocate_vni_for_router opt_text_eq text_eq
allocate-auto_again = refl

rows-IsValid : IsValid rows
unfolding has_vni get_router_allocation any opt_text_eq text_eq
rows-IsValid = (refl, tt, (refl, ((λ e. cc), refl), (refl, tt, (refl, ((λ e. cc), refl), tt))))

used-IsValid : IsValid used
unfolding has_vni get_router_allocation any opt_text_eq text_eq
used-IsValid = (refl, ((λ e. cc), refl), rows-IsValid)

ranges-IsSeparated : IsSeparatedFrom 0 ranges
ranges-IsSeparated = omega arith

allocate_vni_for_router-Allocates_example :
    Allocates router_b rows (allocate_vni_for_router helper router_b not_specified rows)
allocate_vni_for_router-Allocates_example =
    allocate_vni_for_router-Allocates helper router_b not_specified rows (λ e. cc) rows-IsValid

allocate_new-IsFree_example :
    IsFree ranges rows 3 × ((is_auto_vni (number 3) ≡ true) ⊎ (to_vni (number 3) ≡ 3))
unfolding allocate_new
allocate_new-IsFree_example =
    allocate_new-IsFree 0 ranges router_b (number 3) rows 3 ranges-IsSeparated rows-IsValid refl

find_never_used_vni-NeverUsed_example : NeverUsed rows ranges (find_never_used_vni rows ranges)
find_never_used_vni-NeverUsed_example =
    find_never_used_vni-NeverUsed 0 rows ranges ranges-IsSeparated

parse_vni_ranges-IsSeparated_example :
    IsSeparatedFrom 0 ranges
    × ((v : ℕ) → covers ranges v ≡ true → (1 ≤ v) × (v ≤ 100))
    × ((parsed : List Range) × (parsed ≢ [])
        × (parse_entries 1 100 (entries_of entries) ≡ ok parsed)
        × ((v : ℕ) → covers ranges v ≡ covers parsed v))
parse_vni_ranges-IsSeparated_example =
    parse_vni_ranges-IsSeparated 1 100 entries ranges parse-entries

release_vni_for_router_lem_example :
    IsValid (release_vni_for_router 30 router_a rows)
    × ((q : Text)
        → get_vni_for_router q (release_vni_for_router 30 router_a rows)
          ≡ (if text_eq router_a q then none else get_vni_for_router q rows))
    × ((u : ℕ) → has_vni u (release_vni_for_router 30 router_a rows) ≡ has_vni u rows)
release_vni_for_router_lem_example = release_vni_for_router_lem 30 router_a rows rows-IsValid

abbrev one : List Range
one = (2, 2) ∷ []

allocate_auto_vni_exhausted_example :
    (Error.no_available one ≡ Error.no_available one)
    × ((u : ℕ)
        → covers one u ≡ true
        → (a : Allocation) × (get_allocation u rows ≡ some a) × (a.router_id ≢ none))
unfolding allocate_auto_vni covers
allocate_auto_vni_exhausted_example =
    allocate_auto_vni_exhausted 0 one router_b rows (Error.no_available one) (omega arith) refl

allocate_auto_vni_oldest_example :
    ((u : ℕ) → covers ranges u ≡ true → has_vni u used ≡ true)
    × ((a : Allocation) × IsReleased ranges used a
        × (a.vni ≡ 7)
        × ((b : Allocation) → IsReleased ranges used b → row_before b a ≡ false))
unfolding allocate_auto_vni has_vni covers
allocate_auto_vni_oldest_example =
    allocate_auto_vni_oldest 0 ranges router_b used 7 ranges-IsSeparated used-IsValid refl refl

abbrev history : List Op
history =
    allocate router_a not_specified
    ∷ allocate router_b (number 2)
    ∷ release 8 router_a
    ∷ allocate router_b (number 2)
    ∷ []

run_exclusive_example : router_b ≡ router_b
unfolding run allocate_vni_for_router release_vni_for_router get_vni_for_router opt_text_eq text_eq
run_exclusive_example =
    run_exclusive helper history router_b router_b 2 ((λ e. cc), ((λ e. cc), (tt, ((λ e. cc), tt))))
      refl refl

-- Router b takes its VNI, gives it back, and asks in vain for the one of router a.
abbrev others : List Op
others = allocate router_b not_specified ∷ release 8 router_b ∷ allocate router_b (number 2) ∷ []

abbrev one_row : Table
one_row = held_by router_a 2 ∷ []

routers_apart : router_b ≢ router_a
unfolding text_eq
routers_apart e = let nothing : false ≡ true = ap (text_eq router_a) e in cc

run-allocate_vni_for_router_example :
    (get_vni_for_router router_a (run helper others one_row) ≡ some 2)
    × (allocate_vni_for_router helper router_a (number 9) (run helper others one_row) ≡ (
      (if is_auto_vni (number 9) || (to_vni (number 9) == 2)
          then ok 2
          else err (Error.router_has_vni router_a 2 (to_vni (number 9)))),
      run helper others one_row,
    ))
unfolding allocate_vni_for_router
run-allocate_vni_for_router_example =
    run-allocate_vni_for_router helper router_a not_specified (number 9) [] one_row 2 others
      (λ e. cc) tt refl ((λ e. cc), (tt, ((λ e. cc), tt))) (tt, (routers_apart, (tt, tt)))
