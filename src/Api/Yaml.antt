-- ===== src/Api/Yaml.antt =====
-- Parsed YAML, `interface{}` and `map[string]interface{}` in the source: a map is an association
-- list that is read through `find`. A leaf that is no text keeps the text it is printed as.
use yk_talos_management.Prelude.{String, ◌==◌, string_eq, if◌then◌else◌, Option, none, some}

mutual
  pub data Value : Type 0 where
    null : Value
    text : String → Value
    scalar : String → Value
    sequence : Items → Value
    object : Fields → Value

  pub data Items : Type 0 where
    nil : Items
    cons : Value → Items → Items

  pub data Fields : Type 0 where
    end : Fields
    field : String → Value → Fields → Fields

-- `v, ok := m[k]`
abbrev pub find : String → Fields → Option Value
find k end = none
find k (field j v rest) = if j == k then some v else find k rest

-- `m[k] = v`
abbrev pub put : String → Value → Fields → Fields
put k v end = field k v end
put k v (field j w rest) = if j == k then field k v rest else field j w (put k v rest)
