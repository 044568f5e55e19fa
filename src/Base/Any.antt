-- ===== src/Base/Any.antt =====
-- The values that a field of type `Any` holds, and Python's floats. A finite float is a
-- significand times a power of two.
use Prim.Native.String.{String}
use mathlib.Core.Bool.{Bool, true, false}
use semantic_intent_protocol.Base.Int.{ℤ, is_negative}

pub data Float : Type 0 where
  finite : ℤ → ℤ → Float
  infinite : Bool → Float
  nan : Float

-- `v < 0.0`: `infinite true` is the negative infinity.
abbrev pub is_below_zero : Float → Bool
is_below_zero (Float.finite m e) = is_negative m
is_below_zero (Float.infinite sign) = sign
is_below_zero Float.nan = false

mutual
  pub data Value : Type 0 where
    null : Value
    bool : Bool → Value
    int : ℤ → Value
    float : Float → Value
    str : String → Value
    list : Items → Value
    dict : Fields → Value

  pub data Items : Type 0 where
    end_items : Items
    item : Value → Items → Items

  pub data Fields : Type 0 where
    end_fields : Fields
    field : String → Value → Fields → Fields

-- `isinstance(v, (dict, list))`
abbrev pub is_container : Value → Bool
is_container (Value.list xs) = true
is_container (Value.dict fs) = true
is_container v = false
