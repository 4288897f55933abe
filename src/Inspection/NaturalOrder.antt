-- ===== src/Inspection/NaturalOrder.antt =====
-- The natural order of switch names: `_natural_sort_key` and `_natural_sorted_switch_names` of
-- python/ironic-understack/ironic_understack/inspect_hook_update_baremetal_ports.py.
use understack.Prelude.{
  ℕ, ◌+◌, ◌-◌, ◌*◌, Bool, true, false, ◌&&◌, ◌||◌, ltb, ◌==◌, if◌then◌else◌, List, [], ◌∷◌, map,
  Option, none, some, Text, text_eq, text_before, is_digit,
}

-- A text as `re.split(r"(\d+)", value)` has it: what precedes the first number, then for each
-- number its digits and what follows it.
pub record Parts : Type 0 where
  pub start : Text
  pub numbers : List (Text × Text)

-- A digit before a text: of the number that the text starts with, if it starts with one.
unfoldable pub add_digit : ℕ → Text → List (Text × Text) → Parts
add_digit c [] ((digits, word) ∷ numbers) = record {
  start = [];
  numbers = (c ∷ digits, word) ∷ numbers;
}
add_digit c [] [] = record { start = []; numbers = (c ∷ [], []) ∷ [] }
add_digit c (d ∷ s) numbers = record { start = []; numbers = (c ∷ [], d ∷ s) ∷ numbers }

unfoldable pub split_numbers : Text → Parts
split_numbers [] = record { start = []; numbers = [] }
split_numbers (c ∷ s) =
    let rest = split_numbers s in
    if is_digit c
    then add_digit c rest.start rest.numbers
    else record { start = c ∷ rest.start; numbers = rest.numbers }

-- `int(digits)`, from the value of the digits before them.
unfoldable pub int_from : ℕ → Text → ℕ
int_from n [] = n
int_from n (c ∷ digits) = int_from (n * 10 + (c - b'0')) digits

-- The sort key: the text at the start, then numbers and texts in turn.
pub record Key : Type 0 where
  pub start : Text
  pub numbers : List (ℕ × Text)

unfoldable pub natural_sort_key : Text → Key
natural_sort_key value =
    let parts = split_numbers value in
    record {
      start = parts.start;
      numbers = map (λ part. (int_from 0 part.0, part.1)) parts.numbers;
    }

-- The order of Python's lists: the first difference decides, and a prefix comes first.
unfoldable pub numbers_before : List (ℕ × Text) → List (ℕ × Text) → Bool
numbers_before [] [] = false
numbers_before [] (b ∷ bs) = true
numbers_before (a ∷ as') [] = false
numbers_before ((m, s) ∷ as') ((n, t) ∷ bs) =
    ltb m n || ((m == n) && (text_before s t || (text_eq s t && numbers_before as' bs)))

unfoldable pub key_before : Key → Key → Bool
key_before a b =
    text_before a.start b.start || (text_eq a.start b.start && numbers_before a.numbers b.numbers)

unfoldable pub insert_name : Text → List Text → List Text
insert_name name [] = name ∷ []
insert_name name (other ∷ names) =
    if key_before (natural_sort_key other) (natural_sort_key name)
    then other ∷ insert_name name names
    else name ∷ other ∷ names

-- The stable sort by the key.
unfoldable pub natural_sorted_switch_names : List Text → List Text
natural_sorted_switch_names [] = []
natural_sorted_switch_names (name ∷ names) = insert_name name (natural_sorted_switch_names names)

-- `_natural_sorted_switch_names(switch_names)[0]`
unfoldable pub first_switch : List Text → Option Text
first_switch names = elim (natural_sorted_switch_names names) [
  | [] ↦ none
  | name ∷ others ↦ some name
]
