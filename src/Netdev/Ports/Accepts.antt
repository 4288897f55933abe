-- ===== src/Netdev/Ports/Accepts.antt =====
-- Every well-formed list of ports is accepted as it stands.
use understack.Prelude.{
  ℕ, ◌+◌, ◌≡◌, ◌≢◌, refl, true, not, List, [], ◌∷◌, map, All, filter, Option, none, some, Text,
  codes, text_eq, lower, ok, contains, sorted, Json, str, obj, Fields, field, no_fields, is_truthy,
  get_field, field_names,
}
use understack.Netdev.Ports.{
  none_or_str, optional_text, allowed_port_fields, NetdevPort, missing, non_string, unknown,
  to_port, check_entry, build_from, build_netdev_ports,
}
use understack.Netdev.Ports.Checked.{IsComplete, IsFresh}

unfoldable pub id_field : Option Text → Fields
id_field none = no_fields
id_field (some s) = field (codes "switch_id") (str s) no_fields

-- The JSON object of a port, as a caller writes it.
unfoldable pub to_fields : NetdevPort → Fields
to_fields p = field (codes "label") (str p.label) (
    field (codes "mac") (str p.mac) (
      field (codes "switch") (str p.switch)
        (field (codes "intf") (str p.interface) (id_field p.switch_id))))

abbrev pub to_json : NetdevPort → Json
to_json p = obj (to_fields p)

nonempty_truthy : (s : Text) → s ≢ [] → is_truthy (str s) ≡ true
nonempty_truthy [] h = absurd (h refl)
nonempty_truthy (c ∷ s) h = refl

module _ (p : NetdevPort) (c : IsComplete p) where
  missing-to_fields : missing (to_fields p) ≡ []
  unfolding missing filter to_fields get_field text_eq
  missing-to_fields = simp (
    nonempty_truthy p.label c.label,
    nonempty_truthy p.mac c.mac,
    nonempty_truthy p.switch c.switch,
    nonempty_truthy p.interface c.interface,
  )

  non_string-to_fields : non_string (to_fields p) ≡ []
  unfolding non_string filter to_fields get_field text_eq
  non_string-to_fields = refl

id_read : (o : Option Text) → optional_text (get_field (codes "switch_id") (id_field o)) ≡ o
unfolding id_field get_field text_eq
id_read none = refl
id_read (some s) = refl

id_allowed : (o : Option Text) → none_or_str (get_field (codes "switch_id") (id_field o)) ≡ true
unfolding id_field get_field text_eq
id_allowed none = refl
id_allowed (some s) = refl

known_names :
    (o : Option Text)
    → filter (λ key. not (contains key allowed_port_fields)) (field_names (id_field o)) ≡ []
unfolding id_field filter field_names contains text_eq
known_names none = refl
known_names (some s) = refl

unknown-to_fields : (p : NetdevPort) → unknown (to_fields p) ≡ []
unfolding unknown filter to_fields field_names contains text_eq sorted
unknown-to_fields p = rw (known_names p.switch_id)

to_port-to_fields : (p : NetdevPort) → to_port (to_fields p) ≡ p
unfolding to_port to_fields get_field text_eq
to_port-to_fields p = λ i. record p { switch_id = id_read p.switch_id i }

id_unguarded : (p : NetdevPort) → none_or_str (get_field (codes "switch_id") (to_fields p)) ≡ true
unfolding to_fields get_field text_eq
id_unguarded p = id_allowed p.switch_id

check_entry-to_fields : (i : ℕ) (p : NetdevPort) → IsComplete p → check_entry i (to_fields p) ≡ ok p
unfolding check_entry
check_entry-to_fields i p c = rw (
  missing-to_fields p c,
  non_string-to_fields p c,
  id_unguarded p,
  unknown-to_fields p,
  to_port-to_fields p,
)

-- A complete list of ports with distinct labels and distinct MACs, written as JSON objects, is
-- read back as it was, with `seen_labels` and `seen_macs` from earlier entries.
build_from-to_json :
    (i : ℕ) (labels macs : List Text) (ports : List NetdevPort)
    → All IsComplete ports
    → IsFresh labels (map (λ p. p.label) ports)
    → IsFresh macs (map (λ p. lower p.mac) ports)
    → build_from i labels macs (map to_json ports) ≡ ok ports
unfolding build_from
build_from-to_json i labels macs [] c l m = refl
build_from-to_json i labels macs (p ∷ ports) (c, cs) (l, ls) (m, ms) = rw (
  check_entry-to_fields i p c,
  l,
  m,
  build_from-to_json (i + 1) (p.label ∷ labels) (lower p.mac ∷ macs) ports cs ls ms,
)

-- At least one port, each with a label, a MAC, a switch and an interface, with distinct labels
-- and with MACs that differ in more than case, written as JSON objects, are accepted and read
-- back as they were.
pub build_netdev_ports-to_json :
    (ports : List NetdevPort)
    → ports ≢ []
    → All IsComplete ports
    → IsFresh [] (map (λ p. p.label) ports)
    → IsFresh [] (map (λ p. lower p.mac) ports)
    → build_netdev_ports (map to_json ports) ≡ ok ports
unfolding build_netdev_ports
build_netdev_ports-to_json [] n c l m = absurd (n refl)
build_netdev_ports-to_json (p ∷ ports) n c l m = build_from-to_json 1 [] [] (p ∷ ports) c l m
