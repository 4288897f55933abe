-- ===== src/Netdev/Enroll/Script.antt =====
-- The calls of an action, checked one by one against the provision state that the waits in
-- between have established.
use mathlib.Core.List.{append_assoc, append-nil}
use understack.Prelude.{
  ◌≡◌, ◌≢◌, refl, sym, ap, ◌∙◌, subst, Bool, true, false, List, [], ◌∷◌, ◌++◌, Text, Result, ok,
  err, if◌then◌else◌,
}
use understack.Netdev.Enroll.{
  Call, update_node, update_port, create_port, wait_for_node_provision_state, ApiError, Error, api,
  cannot_make_available, Ironic, World, Exec, from_api, continue, ◌>>=◌, pure, lift, call,
  available,
}

-- The provision state after a call that returned.
abbrev pub after : Text → Call → Text
after s (wait_for_node_provision_state uuid expected) = expected
after s _ = s

abbrev pub after_all : Text → List Call → Text
after_all s [] = s
after_all s (c ∷ cs) = after_all (after s c) cs

-- No port is changed while the node is available, and with port work to do (`busy`) neither is
-- the node's metadata.
abbrev pub Allowed : Bool → Text → Call → Type 0
Allowed busy s (update_port uuid patch) = s ≢ available
Allowed busy s (create_port port) = s ≢ available
Allowed busy s (update_node uuid updates) = busy ≡ true → s ≢ available
Allowed busy s _ = Unit

abbrev pub IsSafe : Bool → Text → List Call → Type 0
IsSafe busy s [] = Unit
IsSafe busy s (c ∷ cs) = Allowed busy s c × IsSafe busy (after s c) cs

-- The errors that arise once calls may have been made.
abbrev pub IsLate : Error → Type 0
IsLate (api e) = Unit
IsLate (cannot_make_available state) = Unit
IsLate _ = ⊥

pub IsSafe-append :
    (busy : Bool) (s : Text) (cs ds : List Call)
    → IsSafe busy s cs
    → IsSafe busy (after_all s cs) ds
    → IsSafe busy s (cs ++ ds)
IsSafe-append busy s [] ds h k = k
IsSafe-append busy s (c ∷ cs) ds (a, h) k = (a, IsSafe-append busy (after s c) cs ds h k)

pub after_all-append :
    (s : Text) (cs ds : List Call) → after_all s (cs ++ ds) ≡ after_all (after_all s cs) ds
after_all-append s [] ds = refl
after_all-append s (c ∷ cs) ds = after_all-append (after s c) cs ds

-- What a result promises in the state that it was reached in.
abbrev pub Ends : {A : Type 0} → (A → Text → Type 0) → Result Error A → Text → Type 0
Ends Q (ok a) s = Q a s
Ends Q (err e) s = IsLate e

-- From every world the action makes safe calls, and ends as promised.
pub record Runs {S A : Type 0} (busy : Bool) (s : Text) (m : Exec S A) (Q : A → Text → Type 0)
    : Type 0 where
  pub at :
      (w : World S)
      → (cs : List Call) × ((m w).1.calls ≡ w.calls ++ cs)
        × IsSafe busy s cs
        × Ends Q (m w).0 (after_all s cs)

from_api-Ends : (r : Result ApiError (Unit {0})) (s : Text) → Ends (λ _ t. t ≡ s) (from_api r) s
from_api-Ends (ok a) s = refl
from_api-Ends (err e) s = tt

module _ {S : Type 0} {busy : Bool} where
  pub Runs-pure :
      {A : Type 0} {Q : A → Text → Type 0} (s : Text) (a : A)
      → Q a s
      → Runs {S = S} busy s (pure a) Q
  unfolding pure
  Runs-pure s a q = record { at = λ w. ([], sym (append-nil w.calls), tt, q) }

  pub Runs-raise :
      {A : Type 0} {Q : A → Text → Type 0} (s : Text) (e : Error)
      → IsLate e
      → Runs {S = S} busy s (lift (err e)) Q
  unfolding lift
  Runs-raise s e late = record { at = λ w. ([], sym (append-nil w.calls), tt, late) }

  pub Runs-call :
      (ironic : Ironic S) (s : Text) (c : Call)
      → Allowed busy s c
      → Runs busy s (call ironic c) (λ _ t. t ≡ after s c)
  unfolding call
  Runs-call ironic s c allowed = record {
    at =
        λ w. (c ∷ [], refl, (allowed, tt), from_api-Ends (ironic.perform w.server c).0 (after s c));
  }

  continue-Runs :
      {A B : Type 0} {Q : A → Text → Type 0} {R : B → Text → Type 0} (s : Text) (f : A → Exec S B)
      → ((a : A) (t : Text) → Q a t → Runs busy t (f a) R)
      → (r : Result Error A) (w w' : World S) (cs : List Call) → w'.calls ≡ w.calls ++ cs
      → IsSafe busy s cs
      → Ends Q r (after_all s cs)
      → (ds : List Call) × ((continue r f w').1.calls ≡ w.calls ++ ds)
        × IsSafe busy s ds
        × Ends R (continue r f w').0 (after_all s ds)
  continue-Runs s f kf (err e) w w' cs logged safe late = (cs, logged, safe, late)
  continue-Runs {R} s f kf (ok a) w w' cs logged safe q =
      let (ds, more, safe', end) = (kf a (after_all s cs) q).at w' in
      (
        cs ++ ds,
        more ∙ ap (λ l. l ++ ds) logged ∙ append_assoc w.calls cs ds,
        IsSafe-append busy s cs ds safe safe',
        subst (Ends R (f a w').0) (sym (after_all-append s cs ds)) end,
      )

  pub Runs-bind :
      {A B : Type 0} {Q : A → Text → Type 0} {R : B → Text → Type 0} {s : Text} (m : Exec S A)
      (f : A → Exec S B)
      → Runs busy s m Q
      → ((a : A) (t : Text) → Q a t → Runs busy t (f a) R)
      → Runs busy s (m >>= f) R
  unfolding ◌>>=◌
  Runs-bind {s} m f km kf = record {
    at = λ w.
        let (cs, logged, safe, q) = km.at w in
        continue-Runs s f kf (m w).0 w (m w).1 cs logged safe q;
  }

  pub Runs-if :
      {A : Type 0} {Q : A → Text → Type 0} {s : Text} (b : Bool) (m n : Exec S A)
      → (b ≡ true → Runs busy s m Q)
      → (b ≡ false → Runs busy s n Q)
      → Runs busy s (if b then m else n) Q
  Runs-if true m n km kn = km refl
  Runs-if false m n km kn = kn refl

  pub Runs-move :
      {A : Type 0} {Q : A → Text → Type 0} {s t : Text} (m : Exec S A)
      → t ≡ s
      → Runs busy s m Q
      → Runs busy t m Q
  Runs-move {Q} m e k = subst (λ v. Runs busy v m Q) (sym e) k
