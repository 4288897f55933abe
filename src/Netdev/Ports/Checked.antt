-- ===== src/Netdev/Ports/Checked.antt =====
-- What `build_netdev_ports` promises of the ports that it returns.
use understack.Prelude.{
  suc, ℕ, ◌+◌, ◌≡◌, ◌≢◌, refl, ap, subst, Bool, true, false, not, List, [], ◌∷◌, map, length, All,
  is_nil, filter, Text, codes, lower, ok, >>=-eq-ok, >>-eq-ok, contains, Json, str, Fields,
  is_truthy, is_str, get_field, text_of, arith,
}
use understack.Netdev.Ports.{
  NetdevPort, missing, non_string, unknown, to_port, check_entry, as_object, build_from,
  build_netdev_ports, no_ports, duplicate_label, duplicate_mac, missing_fields, non_string_fields,
  unknown_fields, bad_switch_id, none_or_str,
}

-- No text of the list stands in `seen` or twice in the list.
abbrev pub IsFresh : List Text → List Text → Type 0
IsFresh seen [] = Unit
IsFresh seen (t ∷ ts) = (contains t seen ≡ false) × IsFresh (t ∷ seen) ts

pub record IsComplete (p : NetdevPort) : Type 0 where
  pub label : p.label ≢ []
  pub mac : p.mac ≢ []
  pub switch : p.switch ≢ []
  pub interface : p.interface ≢ []

truthy_str : (v : Json) → is_truthy v ≡ true → is_str v ≡ true → text_of v ≢ []
truthy_str (str []) h k = cc
truthy_str (str (c ∷ s)) h k = λ e. cc
truthy_str (Json.num n) h k = cc
truthy_str _ h k = cc

-- A test that raises unless its list is empty.
empty_of_ok : (l : List Text) → not (is_nil l) ≡ false → l ≡ []
empty_of_ok [] h = refl
empty_of_ok (x ∷ l) h = cc

AllRequired : (Json → Bool) → Fields → Type 0
AllRequired p e =
    (p (get_field (codes "label") e) ≡ true)
    × (p (get_field (codes "mac") e) ≡ true)
    × (p (get_field (codes "switch") e) ≡ true)
    × (p (get_field (codes "intf") e) ≡ true)

missing_empty : (e : Fields) → missing e ≡ [] → AllRequired is_truthy e
unfolding missing filter AllRequired
missing_empty e h = ground arith

non_string_empty : (e : Fields) → non_string e ≡ [] → AllRequired is_str e
unfolding non_string filter AllRequired
non_string_empty e h = ground arith

to_port-IsComplete :
    (e : Fields) → AllRequired is_truthy e → AllRequired is_str e → IsComplete (to_port e)
unfolding to_port AllRequired
to_port-IsComplete e (a, b, c, d) (a', b', c', d') = record {
  label = truthy_str (get_field (codes "label") e) a a';
  mac = truthy_str (get_field (codes "mac") e) b b';
  switch = truthy_str (get_field (codes "switch") e) c c';
  interface = truthy_str (get_field (codes "intf") e) d d';
}

check_entry-IsComplete :
    (i : ℕ) (e : Fields) (p : NetdevPort) → check_entry i e ≡ ok p → IsComplete p × (unknown e ≡ [])
unfolding check_entry
check_entry-IsComplete i e p h =
    let (no_missing, h₁) = >>-eq-ok (not (is_nil (missing e))) (missing_fields i (missing e)) _ h in
    let (all_strings, h₂) =
      >>-eq-ok (not (is_nil (non_string e))) (non_string_fields i (non_string e)) _ h₁ in
    let id = get_field (codes "switch_id") e in
    let (_, h₃) = >>-eq-ok (not (none_or_str id)) (bad_switch_id i id) _ h₂ in
    let (no_unknown, h₄) =
      >>-eq-ok (not (is_nil (unknown e))) (unknown_fields i (unknown e)) _ h₃ in
    let same : to_port e ≡ p = ground arith in
    (
      subst IsComplete same (
          to_port-IsComplete e (missing_empty e (empty_of_ok (missing e) no_missing))
            (non_string_empty e (empty_of_ok (non_string e) all_strings))),
      empty_of_ok (unknown e) no_unknown,
    )

-- What the loop promises from its sets on.
abbrev pub IsAccepted : List Text → List Text → List Json → List NetdevPort → Type 0
IsAccepted labels macs values ports =
    (length ports ≡ length values)
    × All IsComplete ports
    × IsFresh labels (map (λ p. p.label) ports)
    × IsFresh macs (map (λ p. lower p.mac) ports)

build_from-IsAccepted :
    (i : ℕ) (labels macs : List Text) (values : List Json) (ports : List NetdevPort)
    → build_from i labels macs values ≡ ok ports
    → IsAccepted labels macs values ports
unfolding build_from
build_from-IsAccepted i labels macs [] [] h = (refl, tt, tt, tt)
build_from-IsAccepted i labels macs [] (p ∷ ports) h = cc
build_from-IsAccepted i labels macs (v ∷ values) ports h =
    let (e, _, h₁) = >>=-eq-ok (as_object i v) _ h in
    let (p, checked, h₂) = >>=-eq-ok (check_entry i e) _ h₁ in
    let (new_label, h₃) = >>-eq-ok (contains p.label labels) (duplicate_label p.label) _ h₂ in
    let (new_mac, h₄) = >>-eq-ok (contains (lower p.mac) macs) (duplicate_mac p.mac) _ h₃ in
    let (rest, built, h₅) =
      >>=-eq-ok (build_from (i + 1) (p.label ∷ labels) (lower p.mac ∷ macs) values) _ h₄ in
    let (l, complete, fresh_labels, fresh_macs) =
      build_from-IsAccepted (i + 1) (p.label ∷ labels) (lower p.mac ∷ macs) values rest built in
    let same : (p ∷ rest) ≡ ports = ground arith in
    subst (IsAccepted labels macs (v ∷ values)) same (
      ap suc l,
      ((check_entry-IsComplete i e p checked).0, complete),
      (new_label, fresh_labels),
      (new_mac, fresh_macs),
    )

-- Ports that `build_netdev_ports` returns are one for each entry and at least one; each has a
-- label, a MAC, a switch and an interface that are not empty; no label occurs twice, and no MAC
-- occurs twice even where the case of its letters differs.
pub build_netdev_ports-IsAccepted :
    (values : List Json) (ports : List NetdevPort)
    → build_netdev_ports values ≡ ok ports
    → (values ≢ []) × IsAccepted [] [] values ports
unfolding build_netdev_ports
build_netdev_ports-IsAccepted values ports h =
    let (some_given, built) = >>-eq-ok (is_nil values) no_ports _ h in
    (λ none_given. ground arith, build_from-IsAccepted 1 [] [] values ports built)
