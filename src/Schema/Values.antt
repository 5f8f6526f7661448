-- ===== src/Schema/Values.antt =====
-- JSON values, as JSONB columns and the output of a producer hold them.
use instructional_agent_mvp.Prelude.{ℕ, String, Bool, Option, none, some, text_eq, if◌then◌else◌}

mutual
  pub data Json : Type 0 where
    null : Json
    bool : Bool → Json
    num : ℕ → Json
    text : String → Json
    array : Items → Json
    object : Fields → Json

  pub data Items : Type 0 where
    nil : Items
    cons : Json → Items → Items

  pub data Fields : Type 0 where
    end : Fields
    field : String → Json → Fields → Fields

-- `d[key]` and `d.get(key)`, by the first entry: the keys of a dict are distinct.
abbrev pub get_field : String → Fields → Option Json
get_field key end = none
get_field key (field k v rest) = if text_eq k key then some v else get_field key rest
