-- ===== src/Platform/Cpu/Cores.antt =====
-- `list_cores` of kernel_core/src/platform/cpu.rs. The device tree, byteorder, and the texts of an
-- `OwnedParseError` are parameters.
pub mod Lists
pub mod Describes
mod Examples
use endless_hole.Base.{ℕ, zero, suc, Bool, Option, none, some, List, [], ◌∷◌, if◌then◌else◌}
use endless_hole.Platform.DeviceTree.Bytes.{
  Run, returned, out_of_fuel, ◌>>=◌, ByteOrder, same_bytes, text,
}
use endless_hole.Platform.DeviceTree.Fdt.{DeviceTree}
use endless_hole.Platform.DeviceTree.Tokens.{enough}
use endless_hole.Platform.DeviceTree.Values.{Value, Registers, next_register}
use endless_hole.Platform.DeviceTree.Values.Typed as Typed
use endless_hole.Platform.DeviceTree.Values.Typed.{
  Parsed, OwnedParseError, owned_property_not_found, ParseError, node_not_found, to_owned, as_bytes,
  as_reg,
}
use endless_hole.Platform.DeviceTree.Search.{
  NodePropertyIter, NodeItem, NodesNamedIter, next_property, next_node, iter_nodes_named,
}
use endless_hole.Platform.Cpu.{Result, ok, err, CoreInfo}
use Prim.Native.String.{String}

-- The variables `cpu_id` and `enable_method`
pub record Found : Type 0 where
  pub cpu_id : Option ℕ
  pub enable_method : Option (List ℕ)

abbrev pub nothing_found : Found
nothing_found = record { cpu_id = none; enable_method = none }

module _ (o : ByteOrder) (dt : DeviceTree) (lossy : List ℕ → String) (format : Value → String) where
  unfoldable pub found_method : Found → Parsed (List ℕ) → Result Found OwnedParseError
  found_method found (Typed.err e) = err (to_owned lossy format e)
  found_method found (Typed.ok bytes) = ok (record found { enable_method = some bytes })

  unfoldable pub found_id : Found → Option (ℕ × ℕ) × ℕ → Result Found OwnedParseError
  found_id found (none, offset) = err (owned_property_not_found "reg")
  found_id found (some (a, size), offset) = ok (record found { cpu_id = some a })

  unfoldable pub first_id : Found → Parsed Registers → Run (Result Found OwnedParseError)
  unfolding found_id
  first_id found (Typed.err e) = returned (err (to_owned lossy format e))
  first_id found (Typed.ok ids) = next_register o ids 0 >>= λ r. returned (found_id found r)

  -- The match on the name of a property
  unfoldable pub core_property : List ℕ → Value → Found → Run (Result Found OwnedParseError)
  unfolding found_method first_id
  core_property name value found =
      if same_bytes name (text "enable-method")
      then returned (found_method found (as_bytes value name))
      else if same_bytes name (text "reg")
      then first_id found (as_reg value name)
      else returned (ok found)

  unfoldable pub carry_on :
      (Found → Run (Result Found OwnedParseError))
      → Result Found OwnedParseError
      → Run (Result Found OwnedParseError)
  carry_on rest (err e) = returned (err e)
  carry_on rest (ok found) = rest found

  -- The loop over the properties
  unfoldable pub core_properties : ℕ → NodePropertyIter → Found → Run (Result Found OwnedParseError)
  unfolding core_property carry_on
  core_properties zero it found = out_of_fuel
  core_properties (suc fuel) it found =
      next_property o dt it >>= on_property (core_properties fuel) found
    where
      on_property :
          (NodePropertyIter → Found → Run (Result Found OwnedParseError))
          → Found
          → Option (List ℕ × Value) × NodePropertyIter
          → Run (Result Found OwnedParseError)
      on_property rest found (none, it) = returned (ok found)
      on_property rest found (some (name, value), it) =
          core_property name value found >>= carry_on (rest it)

  -- The core, when both properties were found
  unfoldable pub core_of : Result Found OwnedParseError → Result CoreInfo OwnedParseError
  core_of (err e) = err e
  core_of (ok found) = elim found.cpu_id [
    | none ↦ err (owned_property_not_found "reg")
    | some id ↦ elim found.enable_method [
      | none ↦ err (owned_property_not_found "enable-method")
      | some method ↦ ok (record { id = id; enable_method = method })
    ]
  ]

  -- `push` of a core in front of the cores that follow
  unfoldable pub push :
      CoreInfo → Result (List CoreInfo) OwnedParseError → Result (List CoreInfo) OwnedParseError
  push core (err e) = err e
  push core (ok cores) = ok (core ∷ cores)

  unfoldable pub push_core :
      Run (Result (List CoreInfo) OwnedParseError)
      → Result CoreInfo OwnedParseError
      → Run (Result (List CoreInfo) OwnedParseError)
  unfolding push
  push_core rest (err e) = returned (err e)
  push_core rest (ok core) = rest >>= λ cores. returned (push core cores)

  unfoldable pub core_at : NodeItem → Run (Result CoreInfo OwnedParseError)
  unfolding core_properties core_of
  core_at item =
      core_properties (enough o dt) item.properties nothing_found >>= λ r. returned (core_of r)

  -- The loop over the nodes
  unfoldable pub cores_from : ℕ → NodesNamedIter → Run (Result (List CoreInfo) OwnedParseError)
  unfolding core_at push_core
  cores_from zero it = out_of_fuel
  cores_from (suc fuel) it = next_node o dt it >>= on_node (cores_from fuel)
    where
      on_node :
          (NodesNamedIter → Run (Result (List CoreInfo) OwnedParseError))
          → Option NodeItem × NodesNamedIter
          → Run (Result (List CoreInfo) OwnedParseError)
      on_node rest (none, it) = returned (ok [])
      on_node rest (some item, it) = core_at item >>= push_core (rest it)

  unfoldable pub list_from : Option NodesNamedIter → Run (Result (List CoreInfo) OwnedParseError)
  unfolding cores_from
  list_from none = returned (err (to_owned lossy format (node_not_found "/cpus/cpu*")))
  list_from (some it) = cores_from (enough o dt) it

  unfoldable pub list_cores : Run (Result (List CoreInfo) OwnedParseError)
  unfolding list_from
  list_cores = iter_nodes_named o dt (text "/cpus") (text "cpu") >>= list_from
