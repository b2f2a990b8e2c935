-- ===== src/Protocol/Values.antt =====
-- JSON values, as `dict[str, Any]` payloads, arguments and schemas hold them. An object keeps its
-- keys in order. A number that is not a natural one stands by its literal.
use goffy_os.Prelude.{ℕ, String, Bool}

mutual
  pub data Json : Type 0 where
    null : Json
    bool : Bool → Json
    nat : ℕ → Json
    number : String → Json
    text : String → Json
    array : Items → Json
    object : Fields → Json

  pub data Items : Type 0 where
    nil : Items
    cons : Json → Items → Items

  pub data Fields : Type 0 where
    end : Fields
    field : String → Json → Fields → Fields
