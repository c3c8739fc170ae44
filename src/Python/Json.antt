-- ===== src/Python/Json.antt =====
-- A decoded JSON document. A dict keeps one entry for each key.
use myaqi_iot_platform.Prelude.{String, str_eq, Bool, Option, none, some, if◌then◌else◌}
use myaqi_iot_platform.Prelude.Int.{ℤ}
use myaqi_iot_platform.Python.Text.{Text}
use myaqi_iot_platform.Python.Float.{Float}

mutual
  pub data Json : Type 0 where
    null : Json
    bool : Bool → Json
    int : ℤ → Json
    float : Float → Json
    str : Text → Json
    arr : Items → Json
    obj : Fields → Json

  pub data Items : Type 0 where
    nil : Items
    cons : Json → Items → Items

  pub data Fields : Type 0 where
    end : Fields
    field : String → Json → Fields → Fields

-- `value.get(key)`, where a missing key is None.
unfoldable pub get : String → Fields → Json
get key end = null
get key (field k v rest) = if str_eq k key then v else get key rest

-- `key in value`, with its value
unfoldable pub find : String → Fields → Option Json
find key end = none
find key (field k v rest) = if str_eq k key then some v else find key rest
