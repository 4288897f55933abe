-- ===== src/Ucvni/Numbers.antt =====
-- A range that is printed is read back.
use mathlib.Core.Option
use mathlib.Core.List.{reverse_aux, reverse-reverse}
use understack.Prelude.{
  ℕ, zero, suc, ◌+◌, ◌/◌, ◌%◌, ◌<◌, ◌≡◌, refl, ap, ◌∙◌, Bool, true, false, ◌&&◌, [], ◌∷◌, ◌++◌, all,
  reverse, none, some, pos, Text, is_digit, is_space, strip, strip_left, split_on, arith,
}
use understack.Vni.Ranges.{Range, digits, signed, parse_int}
use understack.Ucvni.{emit, print_number, print_range, range_of, pair_of, both}

digits-emit :
    (fuel n : ℕ) (after : Bool) (out : Text)
    → n < fuel
    → digits after 0 (emit fuel n out) ≡ digits true n out
unfolding emit digits is_digit
digits-emit zero n after out h = ground arith
digits-emit (suc fuel) n after out h =
    ground (arith, digits-emit fuel (n / 10) after ((b'0' + n % 10) ∷ out))

all-emit :
    (fuel n : ℕ) (out : Text)
    → n < fuel
    → all is_digit out ≡ true
    → all is_digit (emit fuel n out) ≡ true
unfolding emit all is_digit
all-emit zero n out h k = ground arith
all-emit (suc fuel) n out h k = ground (arith, all-emit fuel (n / 10) ((b'0' + n % 10) ∷ out))

print_number-digits : (n : ℕ) → all is_digit (print_number n) ≡ true
unfolding print_number all
print_number-digits n = all-emit (n + 1) n [] (ground arith) refl

strip_left-digits : (s : Text) → all is_digit s ≡ true → strip_left s ≡ s
unfolding strip_left all is_digit is_space
strip_left-digits [] h = refl
strip_left-digits (c ∷ s) h = ground arith

all-reverse_aux : (p : ℕ → Bool) (s t : Text) → all p (reverse_aux s t) ≡ (all p s && all p t)
unfolding all
all-reverse_aux p [] t = refl
all-reverse_aux p (c ∷ s) t = ground (arith, all-reverse_aux p s (c ∷ t))

strip-digits : (s : Text) → all is_digit s ≡ true → strip s ≡ s
unfolding strip all
strip-digits s h =
    ap (λ x. reverse (strip_left (reverse x))) (strip_left-digits s h)
    ∙ ap reverse (strip_left-digits (reverse s) (ground (arith, all-reverse_aux is_digit s [])))
    ∙ reverse-reverse s

signed-digits :
    (s : Text) (n : ℕ) → all is_digit s ≡ true → digits false 0 s ≡ some n → signed s ≡ some (pos n)
unfolding signed all is_digit digits
signed-digits [] n h k = let nothing : none ≡ some n = k in cc
signed-digits (c ∷ s) n h k = ground (arith, ap (Option.map pos) k)

parse_int-digits :
    (s : Text) (n : ℕ)
    → all is_digit s ≡ true
    → digits false 0 s ≡ some n
    → parse_int s ≡ some (pos n)
unfolding parse_int
parse_int-digits s n h k = ap signed (strip-digits s h) ∙ signed-digits s n h k

split_on-digits : (s : Text) → all is_digit s ≡ true → split_on b'-' s ≡ (s, [])
unfolding split_on all is_digit
split_on-digits [] h = refl
split_on-digits (c ∷ s) h =
    let rest : all is_digit s ≡ true = ground arith in rw (split_on-digits s rest) (ground arith)

split_on-dash :
    (s t : Text)
    → all is_digit s ≡ true
    → all is_digit t ≡ true
    → split_on b'-' (s ++ b'-' ∷ t) ≡ (s, t ∷ [])
unfolding split_on all is_digit
split_on-dash [] t h k = rw (split_on-digits t k) refl
split_on-dash (c ∷ s) t h k =
    let rest : all is_digit s ≡ true = ground arith in rw (split_on-dash s t rest k) (ground arith)

parse_int-print_number : (n : ℕ) → parse_int (print_number n) ≡ some (pos n)
unfolding print_number digits
parse_int-print_number n =
    parse_int-digits (print_number n) n (print_number-digits n)
      (digits-emit (n + 1) n false [] (ground arith))

pub range_of-print_range : (r : Range) → range_of (print_range r) ≡ some r
unfolding range_of print_range
range_of-print_range (start, end) =
    ap pair_of (
      split_on-dash (print_number start) (print_number end) (print_number-digits start)
        (print_number-digits end))
    ∙ ap (λ x. both x (parse_int (print_number end))) (parse_int-print_number start)
    ∙ ap (both (some (pos start))) (parse_int-print_number end)
