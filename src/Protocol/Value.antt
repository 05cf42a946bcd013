-- ===== src/Protocol/Value.antt =====
-- Go's `interface{}` values as they occur in an event's metadata (protocol/go/event.go), whether
-- decoded from JSON or put there by the program.
use agent_action_visualizer.Prelude.{
  Bool, Text, ℤ, Option, none, some, List, text_eq, if◌then◌else◌,
}

mutual
  pub data Value : Type 0 where
    null : Value
    bool : Bool → Value
    -- A Go int.
    int : ℤ → Value
    -- A float64: the int that it equals, if there is one, and the text that encoding/json writes
    -- for it (empty for a NaN or an infinity, which encoding/json refuses).
    float : Option ℤ → Text → Value
    text : Text → Value
    -- []string
    texts : List Text → Value
    -- []interface{}
    array : Items → Value
    -- map[string]interface{}
    object : Fields → Value

  pub data Items : Type 0 where
    nil : Items
    cons : Value → Items → Items

  pub data Fields : Type 0 where
    end : Fields
    field : Text → Value → Fields → Fields

-- value, ok := metadata[key]; a nil map holds no key.
unfoldable pub get_field : Text → Fields → Option Value
get_field k end = none
get_field k (field j v fs) = if text_eq j k then some v else get_field k fs
