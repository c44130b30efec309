-- ===== src/Json.antt =====
-- JSON values, as the program builds and reads them: dictionaries keep their order of insertion.
use aiagent.Prelude.{ℕ, Bool, String}

mutual
  pub data Json : Type 0 where
    null : Json
    bool : Bool → Json
    num : ℕ → Json
    str : String → Json
    arr : Items → Json
    obj : Fields → Json

  pub data Items : Type 0 where
    nil : Items
    cons : Json → Items → Items

  pub data Fields : Type 0 where
    end : Fields
    field : String → Json → Fields → Fields
