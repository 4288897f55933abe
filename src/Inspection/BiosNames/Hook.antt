-- ===== src/Inspection/BiosNames/Hook.antt =====
-- What the BIOS name hook leaves behind.
use understack.Prelude.{
  ◌≡◌, ◌≢◌, refl, true, List, [], ◌∷◌, ◌++◌, any, Option, none, some, Text, text_eq_refl,
  opt_text_eq_iff, upper, Dict, get, get-put, filter, Bool-cases, inl, inr, arith, sym, ap, subst,
  ◌∙◌, All,
}
use understack.Inspection.BiosNames.{
  BaremetalPort, Interface, pop_key, bios_name_key, required_extra, set_port_extra, set_port_name,
  clear_unwanted_pxe, set_port_pxe_placeholder, save, update_port, update_ports, with_placeholder,
  interface_names_of, name_ports,
}

with_placeholder-any :
    (port : BaremetalPort) (ports saves : List BaremetalPort)
    → any (λ p. p.pxe_enabled) (with_placeholder (port ∷ ports, saves)).0 ≡ true
unfolding with_placeholder any set_port_pxe_placeholder
with_placeholder-any port ports saves = ground arith

-- A port that the loop leaves alone.
IsNamed : Dict Text → Text → BaremetalPort → Type 0
IsNamed names node_name port =
    (set_port_extra (get (upper port.address) names) port ≡ none)
    × (set_port_name (get (upper port.address) names) node_name port ≡ none)
    × (clear_unwanted_pxe port ≡ none)

IsNamed-update_port :
    (names : Dict Text) (node_name : Text) (port : BaremetalPort)
    → IsNamed names node_name port
    → update_port names node_name port ≡ (port, [])
unfolding IsNamed update_port
IsNamed-update_port names node_name port (e, n, c) = rw (e, n, c) refl

get-pop : (k : Text) (d : Dict Text) → get k (pop_key k d) ≡ none
unfolding get pop_key filter
get-pop k [] = refl
get-pop k ((j, v) ∷ d) = ground (arith, get-pop k d)

get-required_extra :
    (required : Option Text) (d : Dict Text)
    → required ≢ some []
    → get bios_name_key (required_extra required d) ≡ required
unfolding required_extra
get-required_extra none d ok = get-pop _ d
get-required_extra (some []) d ok = elim (ok refl) [ ]
get-required_extra (some (c ∷ s)) d ok =
    ground (arith, get-put bios_name_key bios_name_key (c ∷ s) d, text_eq_refl bios_name_key)

extra_set :
    (b : Option Text) (p : BaremetalPort) (saves : List BaremetalPort)
    → b ≢ some []
    → get bios_name_key (save (set_port_extra b p) (p, saves)).0.extra ≡ b
unfolding set_port_extra
extra_set b p saves h =
    ground (arith, get-required_extra b p.extra, opt_text_eq_iff (get bios_name_key p.extra) b)

name_set :
    (b : Option Text) (n : Text) (p : BaremetalPort) (saves : List BaremetalPort)
    → set_port_name b n (save (set_port_name b n p) (p, saves)).0 ≡ none
unfolding set_port_name
name_set none n p saves = refl
name_set (some []) n p saves = refl
name_set (some (c ∷ s)) n p saves =
    ground (arith, opt_text_eq_iff (some (n ++ b':' ∷ c ∷ s)) (some (n ++ b':' ∷ c ∷ s)))

pxe_cleared :
    (p : BaremetalPort) (saves : List BaremetalPort)
    → clear_unwanted_pxe (save (clear_unwanted_pxe p) (p, saves)).0 ≡ none
unfolding clear_unwanted_pxe
pxe_cleared p saves = ground arith

name_keeps :
    (b : Option Text) (n : Text) (p : BaremetalPort) (saves : List BaremetalPort)
    → ((save (set_port_name b n p) (p, saves)).0.extra ≡ p.extra)
      × ((save (set_port_name b n p) (p, saves)).0.address ≡ p.address)
unfolding set_port_name
name_keeps none n p saves = (refl, refl)
name_keeps (some []) n p saves = (refl, refl)
name_keeps (some (c ∷ s)) n p saves = ground arith

clear_keeps :
    (p : BaremetalPort) (saves : List BaremetalPort)
    → ((save (clear_unwanted_pxe p) (p, saves)).0.extra ≡ p.extra)
      × ((save (clear_unwanted_pxe p) (p, saves)).0.name ≡ p.name)
      × ((save (clear_unwanted_pxe p) (p, saves)).0.address ≡ p.address)
unfolding clear_unwanted_pxe
clear_keeps p saves = ground arith

extra_keeps :
    (b : Option Text) (p : BaremetalPort) (saves : List BaremetalPort)
    → (save (set_port_extra b p) (p, saves)).0.address ≡ p.address
unfolding set_port_extra
extra_keeps b p saves = ground arith

name_by_name :
    (b : Option Text) (n : Text) (p q : BaremetalPort)
    → set_port_name b n p ≡ none
    → q.name ≡ p.name
    → set_port_name b n q ≡ none
unfolding set_port_name
name_by_name none n p q h e = refl
name_by_name (some []) n p q h e = refl
name_by_name (some (c ∷ s)) n p q h e = ground arith

extra_by_extra :
    (b : Option Text) (p : BaremetalPort)
    → get bios_name_key p.extra ≡ b
    → set_port_extra b p ≡ none
unfolding set_port_extra
extra_by_extra b p h = ground (arith, opt_text_eq_iff (get bios_name_key p.extra) b)

-- The name of a MAC is never the empty text.
unfoldable pub HasNames : Dict Text → Type 0
HasNames names = (mac : Text) → get mac names ≢ some []

update_port-IsNamed :
    (names : Dict Text) (n : Text) (p : BaremetalPort)
    → HasNames names
    → IsNamed names n (update_port names n p).0
unfolding IsNamed update_port HasNames
update_port-IsNamed names n p h =
    let b = get (upper p.address) names in
    let s1 = save (set_port_extra b p) (p, []) in
    let s2 = save (set_port_name b n s1.0) s1 in
    let s3 = save (clear_unwanted_pxe s2.0) s2 in
    let e1 = extra_set b p [] (h (upper p.address)) in
    let a1 = extra_keeps b p [] in
    let (e2, a2) = name_keeps b n s1.0 s1.1 in
    let (e3, n3, a3) = clear_keeps s2.0 s2.1 in
    let a = a3 ∙ a2 ∙ a1 in
    (
      subst (λ x. set_port_extra (get (upper x) names) s3.0 ≡ none) (sym a)
          (extra_by_extra b s3.0 (ap (get bios_name_key) (e3 ∙ e2) ∙ e1)),
      subst (λ x. set_port_name (get (upper x) names) n s3.0 ≡ none) (sym a)
          (name_by_name b n s2.0 s3.0 (name_set b n s1.0 s1.1) n3),
      pxe_cleared s2.0 s2.1,
    )

update_ports-IsNamed :
    (names : Dict Text) (n : Text) (ports : List BaremetalPort)
    → HasNames names
    → All (IsNamed names n) (update_ports names n ports).0
unfolding update_ports
update_ports-IsNamed names n [] h = tt
update_ports-IsNamed names n (p ∷ ports) h =
    (update_port-IsNamed names n p h, update_ports-IsNamed names n ports h)

IsNamed-update_ports :
    (names : Dict Text) (n : Text) (ports : List BaremetalPort)
    → All (IsNamed names n) ports
    → update_ports names n ports ≡ (ports, [])
unfolding update_ports
IsNamed-update_ports names n [] h = refl
IsNamed-update_ports names n (p ∷ ports) (here, later) =
    rw (IsNamed-update_port names n p here, IsNamed-update_ports names n ports later) refl

placeholder-IsNamed :
    (names : Dict Text) (n : Text) (p : BaremetalPort)
    → IsNamed names n p
    → IsNamed names n (set_port_pxe_placeholder p)
unfolding IsNamed set_port_pxe_placeholder clear_unwanted_pxe set_port_extra
placeholder-IsNamed names n p (e, m, c) = (
  ground (arith, e),
  name_by_name (get (upper p.address) names) n p (set_port_pxe_placeholder p) m refl,
  refl,
)

with_placeholder-IsNamed :
    (names : Dict Text) (n : Text) (ports saves : List BaremetalPort)
    → All (IsNamed names n) ports
    → All (IsNamed names n) (with_placeholder (ports, saves)).0
with_placeholder-IsNamed names n [] saves h = unfold with_placeholder in tt
with_placeholder-IsNamed names n (p ∷ ports) saves (here, later) =
    elim (Bool-cases (any (λ p. p.pxe_enabled) (p ∷ ports))) [
      | inl e ↦ unfold with_placeholder in rw e (here, later)
      | inr e ↦ unfold with_placeholder in rw e (placeholder-IsNamed names n p here, later)
    ]

with_placeholder-stays :
    (ports saves : List BaremetalPort)
    → any (λ p. p.pxe_enabled) ports ≡ true
    → with_placeholder (ports, saves) ≡ (ports, saves)
with_placeholder-stays [] saves h = unfold with_placeholder in refl
with_placeholder-stays (p ∷ ports) saves h = unfold with_placeholder in rw h refl

name_ports-IsNamed :
    (i : Interface) (interfaces : List Interface) (n : Text) (ports : List BaremetalPort)
    → All (IsNamed (interface_names_of (i ∷ interfaces)) n) ports
    → any (λ p. p.pxe_enabled) ports ≡ true
    → name_ports (i ∷ interfaces) n ports ≡ (ports, [])
unfolding name_ports
name_ports-IsNamed i interfaces n ports h a =
    rw (IsNamed-update_ports (interface_names_of (i ∷ interfaces)) n ports h)
      (with_placeholder-stays ports [] a)

-- For a node with an interface and a port, some port has its PXE flag after the BIOS name hook.
pub name_ports-any :
    (i : Interface) (interfaces : List Interface) (node_name : Text) (port : BaremetalPort)
    (ports : List BaremetalPort)
    → any (λ p. p.pxe_enabled) (name_ports (i ∷ interfaces) node_name (port ∷ ports)).0 ≡ true
unfolding name_ports update_ports
name_ports-any i interfaces node_name port ports = with_placeholder-any _ _ _

-- Where no interface has an empty name, a second run of the BIOS name hook, on the ports that a
-- first run left, saves nothing and changes no port, for a node with an interface and a port.
pub name_ports-again :
    (i : Interface) (interfaces : List Interface) (node_name : Text) (port : BaremetalPort)
    (ports : List BaremetalPort)
    → HasNames (interface_names_of (i ∷ interfaces))
    → let after = (name_ports (i ∷ interfaces) node_name (port ∷ ports)).0 in
      name_ports (i ∷ interfaces) node_name after ≡ (after, [])
name_ports-again i interfaces node_name port ports h =
    name_ports-IsNamed i interfaces node_name
      (name_ports (i ∷ interfaces) node_name (port ∷ ports)).0
      (unfold name_ports in
        with_placeholder-IsNamed _ _ _ _ (update_ports-IsNamed _ node_name (port ∷ ports) h))
      (name_ports-any i interfaces node_name port ports)
