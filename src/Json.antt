-- ===== src/Json.antt =====
-- `serde_json::Value`, which is not part of the repository: a parameter of the modules that read
-- JSON, with the operations that they call.
use bench_cli.Base.{ℕ, Bool, Option, List}
use bench_cli.Text.{Text}

pub record Json (F64 : Type 0) : Type 1 where
  pub Value : Type 0
  -- `serde_json::from_str`
  pub from_str : Text → Option Value
  -- `Value::get` with a text key
  pub get : Value → Text → Option Value
  -- `Value::pointer`
  pub pointer : Value → Text → Option Value
  pub as_str : Value → Option Text
  pub as_u64 : Value → Option ℕ
  pub as_f64 : Value → Option F64
  pub as_array : Value → Option (List Value)
  pub is_object : Value → Bool
  -- `to_string`
  pub show : Value → Text
