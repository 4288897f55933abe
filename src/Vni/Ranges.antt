-- ===== src/Vni/Ranges.antt =====
-- The configured VNI ranges: `parse_vni_ranges` and `_merge_ranges` of
-- python/neutron-understack/neutron_understack/l3_router/understack_vni_db.py.
-- Python's `int(text)` is written out for ASCII texts.
pub mod Merge
pub mod Parse
use mathlib.Core.Option
use understack.Prelude.{
  ℕ, ◌+◌, ◌-◌, ◌*◌, max, ℤ, pos, negsuc, neg, ltb, ltb_ℤ, ◌==◌, between, if◌then◌else◌, Bool, true,
  false, ◌&&◌, ◌||◌, List, [], ◌∷◌, reverse, any, is_nil, Option, none, some, Text, strip, is_digit,
  split_first, Result, ok, err, ◌>>=◌, ◌>>◌, raise_if,
}

abbrev pub Range : Type 0
Range = ℕ × ℕ

-- The digits of an integer literal: single underscores may stand between digits.
unfoldable pub digits : Bool → ℕ → Text → Option ℕ
unfolding is_digit
digits after acc [] = if after then some acc else none
digits after acc (c ∷ s) =
    let rest = digits (is_digit c) (if is_digit c then acc * 10 + (c - b'0') else acc) s in
    if is_digit c then rest else if after && (c == b'_') then rest else none

unfoldable pub signed : Text → Option ℤ
unfolding digits
signed [] = none
signed (c ∷ s) =
    if c == b'-'
    then Option.map neg (digits false 0 s)
    else if c == b'+'
    then Option.map pos (digits false 0 s)
    else Option.map pos (digits false 0 (c ∷ s))

-- `int(text)`; `none` is ValueError
unfoldable pub parse_int : Text → Option ℤ
unfolding signed strip
parse_int s = signed (strip s)

pub data Reason : Type 0 where
  empty_range not_integers start_after_end out_of_bounds none_given : Reason

-- UnderstackVNIInvalidRange
pub data InvalidRange : Type 0 where
  invalid : Text → Reason → InvalidRange

pub bounds_text : Text → Text × Text
unfolding split_first
bounds_text entry = elim (split_first b':' entry) [ none ↦ (entry, entry) | some p ↦ p ]

-- What the check has found not negative.
abbrev pub to_ℕ : ℤ → ℕ
to_ℕ (pos n) = n
to_ℕ (negsuc n) = 0

-- The tests on the two integers of an entry. MIN_VNI and MAX_VNI are neutron_lib's.
unfoldable pub check_range : ℕ → ℕ → Text → ℤ → ℤ → Result InvalidRange Range
check_range min_vni max_vni entry start end = do
  raise_if (ltb_ℤ end start) (invalid entry start_after_end)
  raise_if (ltb_ℤ start (pos min_vni) || ltb_ℤ (pos max_vni) end) (invalid entry out_of_bounds)
  ok (to_ℕ start, to_ℕ end)

unfoldable pub int_or_raise : Text → Text → Result InvalidRange ℤ
unfolding parse_int
int_or_raise entry text = elim (parse_int text) [
  | none ↦ err (invalid entry not_integers)
  | some n ↦ ok n
]

-- One round of the loop of `parse_vni_ranges`.
unfoldable pub parse_entry : ℕ → ℕ → Text → Result InvalidRange Range
unfolding bounds_text check_range strip int_or_raise
parse_entry min_vni max_vni raw = do
  let entry = strip raw
  raise_if (is_nil entry) (invalid entry empty_range)
  let texts = bounds_text entry
  start ← int_or_raise entry texts.0
  end ← int_or_raise entry texts.1
  check_range min_vni max_vni entry start end

unfoldable pub parse_entries : ℕ → ℕ → List Text → Result InvalidRange (List Range)
unfolding parse_entry
parse_entries min_vni max_vni [] = ok []
parse_entries min_vni max_vni (entry ∷ entries) = do
  r ← parse_entry min_vni max_vni entry
  rs ← parse_entries min_vni max_vni entries
  ok (r ∷ rs)

-- Python's order of pairs
unfoldable pub before : Range → Range → Bool
before (s, e) (s', e') = ltb s s' || ((s == s') && ltb e e')

unfoldable pub insert : Range → List Range → List Range
unfolding before
insert r [] = r ∷ []
insert r (x ∷ xs) = if before x r then x ∷ insert r xs else r ∷ x ∷ xs

-- `sorted(ranges)`
unfoldable pub sort : List Range → List Range
unfolding insert
sort [] = []
sort (r ∷ rs) = insert r (sort rs)

-- `merged` is held in reverse, so that `merged[-1]` is its head.
unfoldable pub merge_step : List Range → Range → List Range
merge_step [] r = r ∷ []
merge_step ((s₀, e₀) ∷ merged) (s, e) =
    if ltb (e₀ + 1) s then (s, e) ∷ (s₀, e₀) ∷ merged else (s₀, max e₀ e) ∷ merged

unfoldable pub merge_loop : List Range → List Range → List Range
unfolding merge_step
merge_loop merged [] = reverse merged
merge_loop merged (r ∷ rs) = merge_loop (merge_step merged r) rs

-- `_merge_ranges`
unfoldable pub merge_ranges : List Range → List Range
unfolding merge_loop sort
merge_ranges ranges = merge_loop [] (sort ranges)

pub merge_parsed : List Range → Result InvalidRange (List Range)
unfolding merge_ranges
merge_parsed [] = err (invalid [] none_given)
merge_parsed (r ∷ rs) = ok (merge_ranges (r ∷ rs))

-- `vni_ranges or []`
abbrev pub entries_of : Option (List Text) → List Text
entries_of none = []
entries_of (some entries) = entries

unfoldable pub parse_vni_ranges : ℕ → ℕ → Option (List Text) → Result InvalidRange (List Range)
unfolding parse_entries merge_parsed
parse_vni_ranges min_vni max_vni vni_ranges = do
  parsed ← parse_entries min_vni max_vni (entries_of vni_ranges)
  merge_parsed parsed

-- `any(start <= vni <= end for start, end in ranges)`
unfoldable pub covers : List Range → ℕ → Bool
unfolding any
covers ranges v = any (λ r. between r.0 r.1 v) ranges
