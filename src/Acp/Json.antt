-- ===== src/Acp/Json.antt =====
-- What src/acp reads of `serde_json::Value`: the type and its accessors are parameters.
use zeromux.Prelude.{ℕ, String, str_eq, Bool, Option, none, some, Text, if◌then◌else◌}

pub record Json : Type 1 where
  pub Value : Type 0
  pub get : Value → String → Option Value
  pub as_str : Value → Option String
  pub as_bool : Value → Option Bool
  pub as_u64 : Value → Option ℕ
  pub is_null : Value → Bool
  pub print : Value → Text
  pub from_str : String → Option Value
  pub of_string : String → Value

module _ (json : Json) where
  abbrev pub str_field : json.Value → String → Option String
  str_field v key = elim (json.get v key) [ none ↦ none | some w ↦ json.as_str w ]

  abbrev pub bool_field : json.Value → String → Option Bool
  bool_field v key = elim (json.get v key) [ none ↦ none | some w ↦ json.as_bool w ]

abbrev pub filled : Option String → Option String
filled none = none
filled (some s) = if str_eq s "" then none else some s

abbrev pub or_else : Option String → Option String → Option String
or_else none b = b
or_else (some a) b = some a
