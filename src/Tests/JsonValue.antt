-- ===== src/Tests/JsonValue.antt =====
-- JSON values that stand for nlohmann::json in the tests, with its documented behaviour on the
-- calls that the program makes. The parser and the printer are arguments.
use win_bot.Base.{
  Text, text, text_eq, Bool, true, false, List, [], ◌∷◌, Option, none, some, Outcome, returned,
  threw, ℤ, if◌then◌else◌, is_some,
}
use win_bot.Json.{JsonApi}

mutual
  pub data Value : Type 0 where
    null : Value
    bool : Bool → Value
    int : ℤ → Value
    string : Text → Value
    array : Items → Value
    object : Fields → Value

  pub data Items : Type 0 where
    nil : Items
    cons : Value → Items → Items

  pub data Fields : Type 0 where
    end : Fields
    field : Text → Value → Fields → Fields

abbrev pub to_items : List Value → Items
to_items [] = nil
to_items (v ∷ vs) = cons v (to_items vs)

abbrev pub of_items : Items → List Value
of_items nil = []
of_items (cons v vs) = v ∷ of_items vs

abbrev pub to_fields : List (Text × Value) → Fields
to_fields [] = end
to_fields ((k, v) ∷ fs) = field k v (to_fields fs)

abbrev pub member : Text → Fields → Option Value
member k end = none
member k (field j v fs) = if text_eq j k then some v else member k fs

abbrev pub get : Value → Text → Option Value
get (object fs) k = member k fs
get _ k = none

abbrev pub type_error : {A : Type 0} → Outcome A
type_error = threw (text "type_error")

abbrev pub as_text : Option Value → Text → Outcome Text
as_text none d = returned d
as_text (some (string s)) d = returned s
as_text (some _) d = type_error

abbrev pub as_bool : Option Value → Bool → Outcome Bool
as_bool none d = returned d
as_bool (some (bool b)) d = returned b
as_bool (some _) d = type_error

abbrev pub as_int : Option Value → ℤ → Outcome ℤ
as_int none d = returned d
as_int (some (int n)) d = returned n
as_int (some _) d = type_error

abbrev pub or_default : Option Value → Value → Outcome Value
or_default none d = returned d
or_default (some v) d = returned v

abbrev pub or_throw : Option Value → Outcome Value
or_throw none = threw (text "out_of_range")
or_throw (some v) = returned v

-- `value` throws on what is no object.
abbrev pub on_object {ℓ} : {A : Type ℓ} → Value → Outcome A → Outcome A
on_object (object fs) r = r
on_object _ r = threw (text "type_error")

abbrev pub is_object : Value → Bool
is_object (object fs) = true
is_object _ = false

abbrev pub is_array : Value → Bool
is_array (array vs) = true
is_array _ = false

abbrev pub is_null : Value → Bool
is_null null = true
is_null _ = false

abbrev pub elements : Value → List Value
elements (array vs) = of_items vs
elements _ = []

abbrev pub equals_text : Value → Text → Bool
equals_text (string s) t = text_eq s t
equals_text _ t = false

abbrev pub value_api : (Text → Outcome Value) → (Value → Outcome Text) → JsonApi Value
value_api parse dump = record {
  null = null;
  bool = bool;
  int = int;
  string = string;
  array = λ vs. array (to_items vs);
  object = λ fs. object (to_fields fs);
  is_null = is_null;
  is_array = is_array;
  is_object = is_object;
  contains = λ j k. is_some (get j k);
  at = λ j k. or_throw (get j k);
  elements = elements;
  equals_text = equals_text;
  value_text = λ j k d. on_object j (as_text (get j k) d);
  value_bool = λ j k d. on_object j (as_bool (get j k) d);
  value_int = λ j k d. on_object j (as_int (get j k) d);
  value_json = λ j k d. on_object j (or_default (get j k) d);
  dump = dump;
  parse = parse;
}
