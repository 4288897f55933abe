-- ===== src/Netdev/Enroll/Calls.antt =====
-- Ironic as `enroll` sees it: nodes, the calls with their log, and actions, which return or raise.
use understack.Prelude.{ℕ, Bool, false, ◌==◌, List, Option, Text, text_eq, Result, ok, err, Dict}
use understack.Netdev.Ports.{Invalid}
use understack.Netdev.Plan.{Port, PatchOp, Conflict, PortData}

-- A value in the metadata of a node.
pub data Meta : Type 0 where
  text : Text → Meta
  number : ℕ → Meta

unfoldable pub meta_eq : Meta → Meta → Bool
meta_eq (text s) (text t) = text_eq s t
meta_eq (number a) (number b) = a == b
meta_eq _ _ = false

pub record Node : Type 0 where
  pub uuid : Text
  pub driver : Text
  pub provision_state : Text
  pub resource_class : Option Text
  pub driver_info : Option (Dict Meta)
  pub extra : Option (Dict Meta)

-- The `node_data` of `create_netdev_node`: an empty dict is left out there. `driver` is
-- "netdev" and `automated_clean` is False.
pub record NodeData : Type 0 where
  pub name : Text
  pub resource_class : Text
  pub driver_info : Dict Meta
  pub extra : Dict Meta

-- The texts of `updates`: "resource_class=…", "driver_info/key=…" and "extra/key=…".
pub data Update : Type 0 where
  set_resource_class : Text → Update
  set_driver_info set_extra : Text → Meta → Update

-- The calls of Ironic that change something, and the wait for a provision state.
pub data Call : Type 0 where
  create_node : NodeData → Call
  update_node : Text → List Update → Call
  update_port : Text → List PatchOp → Call
  create_port : PortData → Call
  set_node_provision_state : Text → Text → Call
  wait_for_node_provision_state : Text → Text → Call

pub data ApiError : Type 0 where
  not_found failed : ApiError

pub data Error : Type 0 where
  invalid_ports : Invalid → Error
  conflict : Conflict → Error
  wrong_driver cannot_enroll cannot_make_available : Text → Error
  api : ApiError → Error

-- Ironic, with its state `S`.
pub record Ironic (S : Type 0) : Type 0 where
  pub get_node : S → Text → Result ApiError Node
  pub list_ports : S → Text → Result ApiError (List Port)
  pub create : S → NodeData → Result ApiError Node × S
  pub perform : S → Call → Result ApiError (Unit {0}) × S

-- The state of Ironic, and the calls that were made, the latest last.
pub record World (S : Type 0) : Type 0 where
  pub server : S
  pub calls : List Call

abbrev pub Exec : Type 0 → Type 0 → Type 0
Exec S A = World S → Result Error A × World S

abbrev pub from_api : {A : Type 0} → Result ApiError A → Result Error A
from_api (ok a) = ok a
from_api (err e) = err (api e)

module _ {S : Type 0} where
  abbrev pub continue : {A B : Type 0} → Result Error A → (A → Exec S B) → Exec S B
  continue (ok a) f w = f a w
  continue (err e) f w = (err e, w)

  infixl 5 ◌>>=◌ ◌>>◌
  unfoldable pub ◌>>=◌ : {A B : Type 0} → Exec S A → (A → Exec S B) → Exec S B
  ◌>>=◌ m f w = continue (m w).0 f (m w).1

  abbrev pub ◌>>◌ : {B : Type 0} → Exec S (Unit {0}) → Exec S B → Exec S B
  m >> k = m >>= λ _. k

  unfoldable pub pure : {A : Type 0} → A → Exec S A
  pure a w = (ok a, w)

  unfoldable pub lift : {A : Type 0} → Result Error A → Exec S A
  lift r w = (r, w)
