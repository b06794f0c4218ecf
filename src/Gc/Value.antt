-- ===== src/Gc/Value.antt =====
-- `serde_json::Value`, an immutable tree. An object's members stand in the order of insertion
-- (feature `preserve_order`).
use grip.Common.{Bool}
use grip.Common.Bytes.{Bytes}
use grip.Deps.{Deps}

mutual
  pub data Value (d : Deps) : Type 0 where
    null : Value d
    bool : Bool → Value d
    number : d.Number → Value d
    string : Bytes → Value d
    array : Items d → Value d
    object : Fields d → Value d

  pub data Items (d : Deps) : Type 0 where
    nil : Items d
    cons : Value d → Items d → Items d

  pub data Fields (d : Deps) : Type 0 where
    end : Fields d
    field : Bytes → Value d → Fields d → Fields d
