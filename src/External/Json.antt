-- ===== src/External/Json.antt =====
-- `serde_json`: values, their accessors, and the printer and parser. An accessor of a missing field
-- or place gives `Null`.
use fusotao_rust_client.Prelude.{ℕ, String, Option, List}
use fusotao_rust_client.Prelude.Result.{Result}
use fusotao_rust_client.Prelude.Text.{Text}

pub record Json : Type 1 where
  pub Value : Type 0
  pub Object : Type 0
  pub SerdeError : Type 0
  -- `Value::Null`, strings, arrays, and objects of fields in order
  pub null : Value
  pub string : Text → Value
  pub array : List Value → Value
  pub object : List (String × Value) → Value
  -- `value[name]` and `value[place]`
  pub field : Value → String → Value
  pub place : Value → ℕ → Value
  pub as_str : Value → Option Text
  pub as_object : Value → Option Object
  -- the decimal form of `as_i64`
  pub as_i64 : Value → Option Text
  -- `object.get(name)`
  pub get : Object → String → Option Value
  pub to_text : Value → Text
  pub from_text : Text → Result SerdeError Value
