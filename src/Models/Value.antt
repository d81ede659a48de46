-- ===== src/Models/Value.antt =====
-- `serde_json::Value`: the JSON documents that the columns and the payloads hold. A number stands
-- by its text.
use Prim.Native.String.{String}
use text.Mathlib.Text.{◌==◌ as str_eq}
use fire_ctrl.Prelude.{Bool, Option, none, some, if◌then◌else◌}

mutual
  pub data Json : Type 0 where
    null : Json
    bool : Bool → Json
    number : String → Json
    string : String → Json
    array : Items → Json
    object : Fields → Json

  pub data Items : Type 0 where
    nil : Items
    cons : Json → Items → Items

  pub data Fields : Type 0 where
    end : Fields
    field : String → Json → Fields → Fields

-- The value of a key.
unfoldable pub field_of : String → Fields → Option Json
field_of k end = none
field_of k (field j v fs) = if str_eq j k then some v else field_of k fs

-- `Value::get`.
unfoldable pub get : String → Json → Option Json
unfolding field_of
get k (object fs) = field_of k fs
get k _ = none

-- `Value::as_str`.
unfoldable pub as_str : Json → Option String
as_str (string s) = some s
as_str _ = none
