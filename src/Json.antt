-- ===== src/Json.antt =====
-- nlohmann::json, which the program only calls: a parameter, whose value type is `J`.
-- Each member is one call of the library; one that can throw has an `Outcome`.
use win_bot.Base.{Text, Bool, List, Outcome, ℤ}

pub record JsonApi (J : Type 0) : Type 0 where
  pub null : J
  pub bool : Bool → J
  pub int : ℤ → J
  pub string : Text → J
  pub array : List J → J
  pub object : List (Text × J) → J
  pub is_null : J → Bool
  pub is_array : J → Bool
  pub is_object : J → Bool
  pub contains : J → Text → Bool
  pub at : J → Text → Outcome J
  pub elements : J → List J
  pub equals_text : J → Text → Bool
  pub value_text : J → Text → Text → Outcome Text
  pub value_bool : J → Text → Bool → Outcome Bool
  pub value_int : J → Text → ℤ → Outcome ℤ
  pub value_json : J → Text → J → Outcome J
  pub dump : J → Outcome Text
  pub parse : Text → Outcome J
