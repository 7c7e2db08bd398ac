-- ===== src/Json/Value.antt =====
-- The JSON values that the plugins build with nlohmann::json and print with `dump`.
use graftcode_extensions.Base.{ℕ, Bool, List, [], ◌∷◌, Bytes}

mutual
  pub data Value : Type 0 where
    text : Bytes → Value
    number : ℕ → Value
    flag : Bool → Value
    items : Values → Value
    fields : Fields → Value

  pub data Values : Type 0 where
    nil : Values
    cons : Value → Values → Values

  pub data Fields : Type 0 where
    end : Fields
    field : Bytes → Value → Fields → Fields

unfoldable pub texts : List Bytes → Values
texts [] = Values.nil
texts (s ∷ ss) = Values.cons (text s) (texts ss)

-- A std::map of strings as an object.
unfoldable pub text_fields : List (Bytes × Bytes) → Fields
text_fields [] = Fields.end
text_fields ((k, v) ∷ m) = field k (text v) (text_fields m)
