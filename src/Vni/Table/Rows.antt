-- ===== src/Vni/Table/Rows.antt =====
-- Tables that keep the schema's uniqueness, and what the writes do to their rows.
use native.Mathlib.Decide.{ℕ_discrete}
use understack.Prelude.{
  ℕ, ◌≡◌, ◌≢◌, refl, sym, subst, ◌⊎◌, ◌==◌, if◌then◌else◌, true, false, [], ◌∷◌, ◌++◌, Option, none,
  some, Text, opt_text_eq_iff, arith, Option-cases, inl, inr,
}
use understack.Vni.Table.{Allocation, Table, get_router_allocation, write_row, has_vni, held_by}

-- No row of the table belongs to the router of a new row.
abbrev pub IsFreeRouter : Option Text → Table → Type 0
IsFreeRouter none rows = Unit
IsFreeRouter (some r) rows = (r ≢ []) × (get_router_allocation r rows ≡ none)

-- The primary key and the unique constraint of the table; no router has an empty id.
abbrev pub IsValid : Table → Type 0
IsValid [] = Unit
IsValid (a ∷ rows) = (has_vni a.vni rows ≡ false) × IsFreeRouter a.router_id rows × IsValid rows

pub has_vni-write_row :
    (u v : ℕ) (o : Option Text) (t : Option ℕ) (rows : Table)
    → has_vni u (write_row v o t rows) ≡ has_vni u rows
unfolding has_vni write_row
has_vni-write_row u v o t [] = refl
has_vni-write_row u v o t (a ∷ rows) = ground (arith, has_vni-write_row u v o t rows)

pub has_vni-append :
    (u : ℕ) (a : Allocation) (rows : Table)
    → has_vni u (rows ++ a ∷ []) ≡ (if a.vni == u then true else has_vni u rows)
unfolding has_vni
has_vni-append u a [] = ground arith
has_vni-append u a (b ∷ rows) = ground (arith, has_vni-append u a rows)

pub get_router-append :
    (r : Text) (a : Allocation) (rows : Table)
    → a.router_id ≢ some r
    → get_router_allocation r rows ≡ none
    → get_router_allocation r (rows ++ a ∷ []) ≡ none
unfolding get_router_allocation
get_router-append r a [] h k = ground (arith, opt_text_eq_iff a.router_id (some r))
get_router-append r a (b ∷ rows) h k = ground (arith, get_router-append r a rows)

pub get_router-write_row :
    (r : Text) (v : ℕ) (o : Option Text) (t : Option ℕ) (rows : Table)
    → o ≢ some r
    → get_router_allocation r rows ≡ none
    → get_router_allocation r (write_row v o t rows) ≡ none
unfolding get_router_allocation write_row
get_router-write_row r v o t [] h k = refl
get_router-write_row r v o t (a ∷ rows) h k =
    ground (arith, get_router-write_row r v o t rows, opt_text_eq_iff o (some r))

get_router_cons :
    (r : Text) (a : Allocation) (rows : Table)
    → get_router_allocation r (a ∷ rows) ≡ none
    → (a.router_id ≢ some r) × (get_router_allocation r rows ≡ none)
unfolding get_router_allocation
get_router_cons r a rows h =
    (λ e. ground (arith, opt_text_eq_iff a.router_id (some r)), ground arith)

IsFreeRouter-append :
    (o : Option Text) (a : Allocation) (rows : Table)
    → (o ≡ none) ⊎ (a.router_id ≢ o)
    → IsFreeRouter o rows
    → IsFreeRouter o (rows ++ a ∷ [])
IsFreeRouter-append none a rows h k = tt
IsFreeRouter-append (some r) a rows (inl e) k = cc
IsFreeRouter-append (some r) a rows (inr ne) k = (k.0, get_router-append r a rows ne k.1)

IsFreeRouter-write_row :
    (o' : Option Text) (v : ℕ) (o : Option Text) (t : Option ℕ) (rows : Table)
    → (o' ≡ none) ⊎ (o ≢ o')
    → IsFreeRouter o' rows
    → IsFreeRouter o' (write_row v o t rows)
IsFreeRouter-write_row none v o t rows h k = tt
IsFreeRouter-write_row (some r) v o t rows (inl e) k = cc
IsFreeRouter-write_row (some r) v o t rows (inr ne) k =
    (k.0, get_router-write_row r v o t rows ne k.1)

IsFreeRouter-tail :
    (o : Option Text) (a : Allocation) (rows : Table)
    → IsFreeRouter o (a ∷ rows)
    → IsFreeRouter o rows
IsFreeRouter-tail none a rows h = tt
IsFreeRouter-tail (some r) a rows h = (h.0, (get_router_cons r a rows h.1).1)

IsFreeRouter-ne :
    (o : Option Text) (a : Allocation) (rows : Table)
    → IsFreeRouter o (a ∷ rows)
    → (a.router_id ≡ none) ⊎ (o ≢ a.router_id)
IsFreeRouter-ne (some r) a rows h = inr λ e. (get_router_cons r a rows h.1).0 (sym e)
IsFreeRouter-ne none a rows h = elim (Option-cases a.router_id) [
  | inl e ↦ inl e
  | inr (r, e) ↦ inr λ p. cc
]

-- A new row with a new VNI for a router that holds none keeps the table valid.
pub append-IsValid :
    (r : Text) (v : ℕ) (rows : Table)
    → r ≢ []
    → has_vni v rows ≡ false
    → get_router_allocation r rows ≡ none
    → IsValid rows
    → IsValid (rows ++ held_by r v ∷ [])
append-IsValid r v [] n h k ok = (h, (n, k), tt)
append-IsValid r v (b ∷ rows) n h k ok =
    let (ne, rest) = get_router_cons r b rows k in
    (
      rw (has_vni-append b.vni (held_by r v) rows) (unfold has_vni in ground arith),
      IsFreeRouter-append b.router_id (held_by r v) rows (inr λ e. ne (sym e)) ok.1,
      append-IsValid r v rows n (unfold has_vni in ground arith) rest ok.2,
    )

pub write_row_absent :
    (v : ℕ) (o : Option Text) (t : Option ℕ) (rows : Table)
    → has_vni v rows ≡ false
    → write_row v o t rows ≡ rows
unfolding write_row has_vni
write_row_absent v o t [] h = refl
write_row_absent v o t (a ∷ rows) h = ground (arith, write_row_absent v o t rows)

-- In a table with distinct VNIs the write changes the row of the VNI, and no other.
pub write_row_here :
    (v : ℕ) (o : Option Text) (t : Option ℕ) (a : Allocation) (rows : Table)
    → a.vni ≡ v
    → has_vni a.vni rows ≡ false
    → write_row v o t (a ∷ rows) ≡ record { vni = a.vni; router_id = o; released_at = t } ∷ rows
write_row_here v o t a rows e h =
    let same = write_row_absent v o t rows (subst (λ u. has_vni u rows ≡ false) e h) in
    unfold write_row in ground arith

pub write_row_there :
    (v : ℕ) (o : Option Text) (t : Option ℕ) (a : Allocation) (rows : Table)
    → a.vni ≢ v
    → write_row v o t (a ∷ rows) ≡ a ∷ write_row v o t rows
unfolding write_row
write_row_there v o t a rows ne = ground arith

-- A write of a router that holds no VNI, or of none, keeps the table valid.
pub write_row-IsValid :
    (v : ℕ) (o : Option Text) (t : Option ℕ) (rows : Table)
    → IsFreeRouter o rows
    → IsValid rows
    → IsValid (write_row v o t rows)
write_row-IsValid v o t [] k h = unfold write_row in tt
write_row-IsValid v o t (a ∷ rows) k h = elim (ℕ_discrete a.vni v) [
  | yes here ↦ rw (write_row_here v o t a rows here h.0) (h.0, IsFreeRouter-tail o a rows k, h.2)
  | no there ↦ rw (write_row_there v o t a rows there) (
    rw (has_vni-write_row a.vni v o t rows) h.0,
    IsFreeRouter-write_row a.router_id v o t rows (IsFreeRouter-ne o a rows k) h.1,
    write_row-IsValid v o t rows (IsFreeRouter-tail o a rows k) h.2,
  )
]
