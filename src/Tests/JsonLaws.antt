-- ===== src/Tests/JsonLaws.antt =====
-- The JSON values of the tests meet what the theorems assume of nlohmann::json.
use win_bot.Base.{
  Text, text, ◌≡◌, ◌≢◌, refl, true, Option, none, some, Outcome, returned, threw_unknown, show_int,
  is_some, ℤ,
}
use win_bot.Registry.Calls.{ThrowsStd}
use win_bot.ToolServer.Serving.{Sound}
use win_bot.Mcp.Reliable.{Reliable}
use win_bot.Tests.JsonValue.{
  Value, null, bool, int, string, array, object, get, as_text, as_int, on_object, or_default,
  or_throw, value_api,
}

-- A printer that tells the identifiers of requests apart.
abbrev pub dump_text : Value → Text
dump_text (int n) = show_int n
dump_text (string s) = s
dump_text null = text "null"
dump_text _ = text "{}"

as_text_std : (o : Option Value) (d : Text) → as_text o d ≢ threw_unknown
as_text_std none d = λ e. cc
as_text_std (some (string s)) d = λ e. cc
as_text_std (some null) d = λ e. cc
as_text_std (some (bool b)) d = λ e. cc
as_text_std (some (int n)) d = λ e. cc
as_text_std (some (array vs)) d = λ e. cc
as_text_std (some (object fs)) d = λ e. cc

on_object_std :
    {A : Type 0} (j : Value) (r : Outcome A) → r ≢ threw_unknown → on_object j r ≢ threw_unknown
on_object_std (object fs) r h = h
on_object_std null r h = λ e. cc
on_object_std (bool b) r h = λ e. cc
on_object_std (int n) r h = λ e. cc
on_object_std (string s) r h = λ e. cc
on_object_std (array vs) r h = λ e. cc

or_default_std : (o : Option Value) (d : Value) → or_default o d ≢ threw_unknown
or_default_std none d = λ e. cc
or_default_std (some v) d = λ e. cc

or_throw_std : (o : Option Value) → or_throw o ≢ threw_unknown
or_throw_std none = λ e. cc
or_throw_std (some v) = λ e. cc

or_throw_found : (o : Option Value) → is_some o ≡ true → (v : Value) × (or_throw o ≡ returned v)
or_throw_found none h = (null, cc)
or_throw_found (some v) h = (v, refl)

module _ (parse : Text → Outcome Value) (std : (s : Text) → parse s ≢ threw_unknown) where
  pub value_api-Reliable : Reliable (value_api parse (λ j. returned (dump_text j)))
  value_api-Reliable = record {
    dump = λ j e. cc;
    parse = std;
    at = λ j k. or_throw_std (get j k);
    at_contained = λ j k h. or_throw_found (get j k) h;
    value_text = λ j k d. on_object_std j (as_text (get j k) d) (as_text_std (get j k) d);
    value_json = λ j k d. on_object_std j (or_default (get j k) d) (or_default_std (get j k) d);
  }

  pub value_api-ThrowsStd : ThrowsStd (value_api parse (λ j. returned (dump_text j)))
  value_api-ThrowsStd = record {
    parse = std;
    at = λ j k. or_throw_std (get j k);
    value_text = λ j k d. on_object_std j (as_text (get j k) d) (as_text_std (get j k) d);
  }

as_int_std : (o : Option Value) (d : ℤ) → as_int o d ≢ threw_unknown
as_int_std none d = λ e. cc
as_int_std (some null) d = λ e. cc
as_int_std (some (bool b)) d = λ e. cc
as_int_std (some (int n)) d = λ e. cc
as_int_std (some (string s)) d = λ e. cc
as_int_std (some (array vs)) d = λ e. cc
as_int_std (some (object fs)) d = λ e. cc

pub value_api-Sound :
    (parse : Text → Outcome Value)
    → ((s : Text) → parse s ≢ threw_unknown)
    → Sound (value_api parse (λ j. returned (dump_text j)))
value_api-Sound parse std = record {
  parse = std;
  at = λ j k. or_throw_std (get j k);
  value_text = λ j k d. on_object_std j (as_text (get j k) d) (as_text_std (get j k) d);
  value_int = λ j k d. on_object_std j (as_int (get j k) d) (as_int_std (get j k) d);
}
