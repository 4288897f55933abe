-- ===== src/Neutron/Tables.antt =====
-- Neutron's tables as the trunk driver reads and writes them: the functions on ports, segments and
-- binding levels of python/neutron-understack/neutron_understack/utils.py.
-- Neutron's type manager is a parameter: it allocates and releases dynamic segments. Each function
-- is an action, which takes the tables and gives them back, whether it returns or raises.
pub mod Invariant
use understack.Prelude.{
  ℕ, Bool, true, false, not, ◌&&◌, ◌||◌, ◌==◌, if◌then◌else◌, List, [], ◌∷◌, ◌++◌, any, filter,
  find?, is_nil, Option, none, some, Text, codes, text_eq, opt_text_eq, Result, ok, err, Dict, get,
}
use understack.Vni.Ranges.{Range}

-- One of a port's bindings. The profile's values that are read are texts.
pub record Binding : Type 0 where
  pub host : Text
  pub vif_type : Text
  pub vnic_type : Text
  pub profile : Dict Text

pub record Port : Type 0 where
  pub id : Text
  pub network_id : Text
  pub bindings : List Binding

pub record Segment : Type 0 where
  pub id : Text
  pub network_id : Text
  pub physical_network : Option Text
  pub network_type : Text
  pub segmentation_id : ℕ
  pub is_dynamic : Bool

-- PortBindingLevel
pub record Level : Type 0 where
  pub port_id : Text
  pub host : Text
  pub level : ℕ
  pub driver : Text
  pub segment_id : Text

-- The tables, and the VLAN groups that undersync was called for, in order.
pub record Tables : Type 0 where
  pub ports : List Port
  pub segments : List Segment
  pub levels : List Level
  pub synced : List Text

-- ValueError of a port that is not there, IndexError of a port without bindings, AttributeError of
-- a segment that is not there, TypeError of a context without a bound segment, BadRequest,
-- SubportSegmentationIDError, the database's error for a second row with one key, and what the type
-- manager or the search for the network node raise.
pub data Error : Type 0 where
  no_port bad_request : Text → Error
  no_binding no_segment no_bound_segment : Error
  wrong_segmentation_id : ℕ → Text → List Range → Error
  not_allocated duplicate_level : Text → Text → Error
  no_network_node : Error

abbrev pub Exec : Type 0 → Type 0
Exec A = Tables → Result Error A × Tables

abbrev pub continue :
    {A B : Type 0} → Result Error A × Tables → (A → Exec B) → Result Error B × Tables
continue (err e, t) f = (err e, t)
continue (ok a, t) f = f a t

infixl 5 ◌>>=◌
abbrev pub ◌>>=◌ : {A B : Type 0} → Exec A → (A → Exec B) → Exec B
◌>>=◌ m f t = continue (m t) f

infixl 5 ◌>>◌
abbrev pub ◌>>◌ : {B : Type 0} → Exec (Unit {0}) → Exec B → Exec B
m >> k = m >>= λ _. k

abbrev pub pure : {A : Type 0} → A → Exec A
pure a t = (ok a, t)

abbrev pub raise : {A : Type 0} → Error → Exec A
raise e t = (err e, t)

-- Neutron's `type_manager`: a dynamic VLAN segment for a network in a physical network, with the
-- segments afterwards, or nothing where neutron raises; and the segments without one.
pub record TypeManager : Type 0 where
  pub allocate_dynamic_segment : List Segment → Text → Text → Option (Segment × List Segment)
  pub release_dynamic_segment : Text → List Segment → List Segment

-- `NetworkSegment.get_object(context, id=id)`
unfoldable pub network_segment_by_id : Text → List Segment → Option Segment
network_segment_by_id id segments = find? (λ s. text_eq s.id id) segments

-- `Port.get_object(context, id=port_id)` or ValueError
abbrev pub or_raise : {A : Type 0} → Error → Option A → Exec A
or_raise e none = raise e
or_raise e (some a) = pure a

unfoldable pub fetch_port_object : Text → Exec Port
fetch_port_object port_id t =
    or_raise (no_port port_id) (find? (λ p. text_eq p.id port_id) t.ports) t

unfoldable pub fetch_subport_network_id : Text → Exec Text
fetch_subport_network_id subport_id = do port ← fetch_port_object subport_id; pure port.network_id

-- `port.bindings[0]`
abbrev pub first_or_raise : List Binding → Exec Binding
first_or_raise [] = raise no_binding
first_or_raise (binding ∷ others) = pure binding

unfoldable pub first_binding : Port → Exec Binding
first_binding port = first_or_raise port.bindings

abbrev pub is_bound : Binding → Bool
is_bound binding =
    text_eq binding.vif_type (codes "other")
    && (text_eq binding.vnic_type (codes "baremetal") && not (is_nil binding.profile))

unfoldable pub parent_port_is_bound : Port → Exec Bool
parent_port_is_bound port = do binding ← first_binding port; pure (is_bound binding)

-- A VLAN segment of the network in the physical network.
unfoldable pub is_segment_of : Text → Text → Segment → Bool
is_segment_of network_id physnet s =
    text_eq s.network_id network_id
    && (opt_text_eq s.physical_network (some physnet) && text_eq s.network_type (codes "vlan"))

unfoldable pub network_segment_by_physnet : Text → Text → List Segment → Option Segment
network_segment_by_physnet network_id physnet segments =
    find? (is_segment_of network_id physnet) segments

abbrev pub same_level : Level → Level → Bool
same_level a b =
    text_eq a.port_id b.port_id
    && (text_eq a.host b.host
        && ((a.level == b.level)
            && (text_eq a.driver b.driver && text_eq a.segment_id b.segment_id)))

abbrev pub level_row : Text → Text → ℕ → Text → Level
level_row port_id host level segment_id = record {
  port_id = port_id;
  host = host;
  level = level;
  driver = codes "understack";
  segment_id = segment_id;
}

-- The key of a row: the port, the host and the level.
unfoldable pub is_level_of : Text → Text → ℕ → Level → Bool
is_level_of port_id host level l =
    text_eq l.port_id port_id && (text_eq l.host host && (l.level == level))

-- `pbl.create()` where the row is not there; `none` where another row has its key.
unfoldable pub add_level : Level → List Level → Option (List Level)
add_level row levels =
    if any (same_level row) levels
    then some levels
    else if any (is_level_of row.port_id row.host row.level) levels
    then none
    else some (levels ++ row ∷ [])

abbrev pub with_levels : Error → Tables → Option (List Level) → Result Error Unit × Tables
with_levels e t none = (err e, t)
with_levels e t (some levels) = (ok tt, record t { levels = levels })

unfoldable pub create_binding_profile_level : Text → Text → ℕ → Text → Exec Unit
create_binding_profile_level port_id host level segment_id t =
    with_levels (duplicate_level port_id host) t
      (add_level (level_row port_id host level segment_id) t.levels)

unfoldable pub port_binding_level_by_port_id : Text → Text → List Level → Option Level
port_binding_level_by_port_id port_id host levels = find? (is_level_of port_id host 0) levels

-- Whether `ports_bound_to_segment` is not empty.
unfoldable pub ports_bound_to_segment : Text → List Level → Bool
ports_bound_to_segment segment_id levels = any (λ l. text_eq l.segment_id segment_id) levels

module _ (tm : TypeManager) where
  unfoldable pub allocate_dynamic_segment : Text → Text → Exec Segment
  allocate_dynamic_segment network_id physnet t =
      elim (tm.allocate_dynamic_segment t.segments network_id physnet) [
        | none ↦ (err (not_allocated network_id physnet), t)
        | some (segment, segments) ↦ (ok segment, record t { segments = segments })
      ]

  unfoldable pub release_dynamic_segment : Text → Exec Unit
  release_dynamic_segment segment_id t =
      (ok tt, record t { segments = tm.release_dynamic_segment segment_id t.segments })
