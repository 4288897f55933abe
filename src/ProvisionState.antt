-- ===== src/ProvisionState.antt =====
-- The mapping of Ironic's provision states to Nautobot's statuses:
-- python/understack-workflows/understack_workflows/ironic/provision_state_mapper.py.
mod Tests
use understack.Prelude.{
  ◌≡◌, ◌≢◌, ◌↔◌, refl, Bool, true, false, ◌||◌, List, [], ◌∷◌, all, map, Option, none, some, Text,
  codes, text_eq, text_eq_iff, text_eq_sound, sym, contains, Dict, get, Result, ok, err, arith,
  if◌then◌else◌, Option-cases, Bool-cases, inl, inr,
}

abbrev pub status_map : Dict Text
status_map =
    (codes "active", codes "Active")
    ∷ (codes "enroll", codes "Planned")
    ∷ (codes "available", codes "Available")
    ∷ (codes "deploy failed", codes "Quarantine")
    ∷ (codes "error", codes "Quarantine")
    ∷ (codes "rescue", codes "Quarantine")
    ∷ (codes "rescue failed", codes "Quarantine")
    ∷ (codes "unrescueing", codes "Quarantine")
    ∷ (codes "manageable", codes "Staged")
    ∷ (codes "inspecting", codes "Provisioning")
    ∷ (codes "deploying", codes "Provisioning")
    ∷ (codes "cleaning", codes "Quarantine")
    ∷ (codes "clean failed", codes "Quarantine")
    ∷ (codes "deleting", codes "Decommissioning")
    ∷ []

abbrev pub all_ironic_states : List Text
all_ironic_states =
    codes "enroll"
    ∷ codes "verifying"
    ∷ codes "manageable"
    ∷ codes "inspecting"
    ∷ codes "inspect wait"
    ∷ codes "inspect failed"
    ∷ codes "cleaning"
    ∷ codes "clean wait"
    ∷ codes "clean failed"
    ∷ codes "available"
    ∷ codes "deploying"
    ∷ codes "wait call-back"
    ∷ codes "deploy failed"
    ∷ codes "active"
    ∷ codes "deleting"
    ∷ codes "error"
    ∷ codes "adopting"
    ∷ codes "rescuing"
    ∷ codes "rescue wait"
    ∷ codes "rescue failed"
    ∷ codes "rescue"
    ∷ codes "unrescuing"
    ∷ codes "unrescue failed"
    ∷ codes "servicing"
    ∷ codes "service wait"
    ∷ codes "service failed"
    ∷ []

-- ValueError, with the state
pub data Unknown : Type 0 where
  unknown : Text → Unknown

unfoldable pub translate_to_nautobot : Text → Result Unknown (Option Text)
translate_to_nautobot provision_state = elim (get provision_state status_map) [
  | some status ↦ ok (some status)
  | none ↦
      if contains provision_state all_ironic_states then ok none else err (unknown provision_state)
]

-- What holds of every key of a dict holds of a key that is found.
get-all :
    (p : Text → Bool) (s v : Text) (d : Dict Text)
    → all p (map (λ e. e.0) d) ≡ true
    → get s d ≡ some v
    → p s ≡ true
unfolding all get
get-all p s v [] h e = cc
get-all p s v ((k, w) ∷ d) h e = ground (arith, get-all p s v d, text_eq_iff k s)

misspelt : Text
misspelt = codes "unrescueing"

known : Text → Bool
known s = contains s all_ironic_states || text_eq misspelt s

keys-known : all known (map (λ e. e.0) status_map) ≡ true
unfolding all known misspelt contains text_eq
keys-known = refl

misspelt-mapped : get (codes "unrescueing") status_map ≡ some (codes "Quarantine")
unfolding get text_eq
misspelt-mapped = refl

-- The translation of a state that the map lacks.
translate-unmapped :
    (s : Text)
    → get s status_map ≡ none
    → translate_to_nautobot s ≡ (if contains s all_ironic_states then ok none else err (unknown s))
unfolding translate_to_nautobot get contains text_eq
translate-unmapped s h = rw h refl

-- The translation of a state that the map has.
translate-mapped : (s v : Text) → get s status_map ≡ some v → translate_to_nautobot s ≡ ok (some v)
unfolding translate_to_nautobot get text_eq
translate-mapped s v h = rw h refl

or-right : (a b : Bool) → a ≡ false → a || b ≡ true → b ≡ true
or-right a b h e = ground arith

raised-unlisted :
    (s : Text) → translate_to_nautobot s ≡ err (unknown s) → contains s all_ironic_states ≡ false
raised-unlisted s h = elim (Option-cases (get s status_map)) [
  | inr (v, e) ↦ ground (arith, translate-mapped s v e)
  | inl e ↦ ground (arith, translate-unmapped s e)
]

raised-not-misspelt : (s : Text) → translate_to_nautobot s ≡ err (unknown s) → s ≢ misspelt
unfolding misspelt
raised-not-misspelt s h m =
    let e = translate-mapped misspelt (codes "Quarantine") misspelt-mapped in ground (arith, e)

unknown-unmapped :
    (s v : Text) → contains s all_ironic_states ≡ false → s ≢ misspelt → get s status_map ≢ some v
unfolding contains known
unknown-unmapped s v h n e =
    let k = get-all known s v status_map keys-known e in
    n (
      sym (
        text_eq_sound misspelt s
          (or-right (contains s all_ironic_states) (text_eq misspelt s) h k)))

-- `translate_to_nautobot` raises ValueError exactly for the texts that are neither a state in
-- the list of all Ironic states nor "unrescueing", the one key of the map that is not in that
-- list.
pub translate-unknown_iff :
    (s : Text)
    → (translate_to_nautobot s ≡ err (unknown s))
      ↔ ((contains s all_ironic_states ≡ false) × (s ≢ codes "unrescueing"))
unfolding misspelt
translate-unknown_iff s = (
  λ e. (raised-unlisted s e, λ m. raised-not-misspelt s e m),
  λ h. elim (Option-cases (get s status_map)) [
    | inl e ↦ rw (translate-unmapped s e, h.0) refl
    | inr (v, e) ↦ elim (unknown-unmapped s v h.0 h.1 e) [ ]
  ],
)
