-- ===== src/Protocol/Json.antt =====
-- Values that encoding/json decodes into `any`. The fields of an object stand in the order in which
-- one iteration over Go's map visits them; the decoder is a parameter wherever it is used.
use perf_loadgen.Base.{Bool, Option, Text, Float64}

mutual
  pub data Json : Type 0 where
    null : Json
    boolean : Bool → Json
    number : Float64 → Json
    string : Text → Json
    array : Items → Json
    object : Fields → Json

  pub data Items : Type 0 where
    no_items : Items
    item : Json → Items → Items

  pub data Fields : Type 0 where
    no_fields : Fields
    field : Text → Json → Fields → Fields

-- Type assertions.
abbrev pub as_string : Json → Option Text
as_string (string s) = Option.some s
as_string _ = Option.none

abbrev pub as_number : Json → Option Float64
as_number (number n) = Option.some n
as_number _ = Option.none

abbrev pub is_true : Json → Bool
is_true (boolean flag) = flag
is_true _ = Bool.false
