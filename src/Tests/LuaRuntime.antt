-- ===== src/Tests/LuaRuntime.antt =====
-- src/services/LuaRuntime.cpp: values of scripts, the hook and the sandbox.
use win_bot.Base.{
  ℕ, zero, suc, Text, text, text_eq, show_nat, true, false, is_some, List, [], ◌∷◌, insert, pos,
  returned, threw, if◌then◌else◌, ◌==◌, ◌≡◌, refl, arith,
}
use win_bot.Json.{JsonApi}
use win_bot.LuaRuntime.{
  named, index, LuaValue, boolean, string, table, Entries, end, entry, Node, json_null,
  json_boolean, json_integer, json_string, json_array, json_object, LuaApi, converted, panicked,
  after_name, value_to_json, c_string,
}
use win_bot.LuaRuntime.Converting.{
  size, all_steady, regular, tree, value_to_json_lem, integer_key_panics,
}
use win_bot.LuaRuntime.Hook.{
  HookCall, started, lua_hook_callback, after, live_calls, lua_hook_callback-after,
}
use win_bot.LuaRuntime.Sandbox.{
  Slot, absent, native, library, LuaEnv, globals, sandbox_environment, reach, io_still_reached,
}
use win_bot.Tests.JsonValue.{Value, Items, Fields, nil, cons, field, to_items, of_items, value_api}
use win_bot.Tests.JsonValue
use win_bot.Tests.JsonLaws.{dump_text}

-- The length of a table whose entries are the items of a sequence, in order.
abbrev items_from : ℕ → Entries → ℕ
items_from i end = i
items_from i (entry (index (pos k)) v es) =
    let rest = items_from (suc i) es in if k == suc i then rest else i
items_from i (entry _ v es) = i

abbrev fields_of : Fields → List (Text × Value)
fields_of JsonValue.end = []
fields_of (field k v fs) = (k, v) ∷ fields_of fs

abbrev node_of : Value → Node Value
node_of JsonValue.null = json_null
node_of (JsonValue.bool b) = json_boolean b
node_of (JsonValue.int n) = json_integer n
node_of (JsonValue.string s) = json_string s
node_of (JsonValue.array vs) = json_array (of_items vs)
node_of (JsonValue.object fs) = json_object (fields_of fs)

-- A double is shown by its bits.
abbrev pub lua : LuaApi Value
lua = record {
  show_double = show_nat;
  format_double = show_nat;
  border = items_from 0;
  double = λ x. JsonValue.int (pos x);
  node = node_of;
  depth = λ j. 8;
}

abbrev pub api : JsonApi Value
api = value_api (λ s. threw s) (λ j. returned (dump_text j))

-- { name = "add", tags = { "a\0b", true } }
abbrev tags : LuaValue
tags =
    table
      (entry (index (pos 1)) (string (97 ∷ 0 ∷ 98 ∷ [])) (entry (index (pos 2)) (boolean true) end))

abbrev script_value : LuaValue
script_value =
    table (entry (named (text "name")) (string (text "add")) (entry (named (text "tags")) tags end))

value_to_json_lem_example :
    value_to_json api lua 9 script_value ≡ converted (tree api lua script_value)
unfolding size regular all_steady
value_to_json_lem_example = value_to_json_lem api lua 9 script_value (omega arith) refl

script_value_run :
    value_to_json api lua 9 script_value
    ≡ converted (
        JsonValue.object (
          field (text "name") (JsonValue.string (text "add")) (
            field
              (text "tags")
              (JsonValue.array
                (cons (JsonValue.string (text "a")) (cons (JsonValue.bool true) nil)))
              JsonValue.end)))
unfolding value_to_json text insert text_eq c_string
script_value_run = refl

-- { [5] = "x" }
integer_key_panics_example :
    value_to_json api lua (suc (suc 0)) (table (entry (index (pos 5)) (string (text "x")) end))
    ≡ panicked
unfolding value_to_json after_name text c_string
integer_key_panics_example =
    integer_key_panics api lua 0 (pos 5) (string (text "x")) end (JsonValue.string (text "x")) refl
      refl refl

abbrev quiet : HookCall
quiet = record { killed = false; now = 20 }

-- A limit of 1000 instructions is passed by the third call.
lua_hook_callback-after_example :
    is_some (lua_hook_callback quiet (after (quiet ∷ quiet ∷ []) (started 10 5000 1000))).0 ≡ true
unfolding live_calls
lua_hook_callback-after_example =
    lua_hook_callback-after 10 5000 1000 (quiet ∷ quiet ∷ []) quiet (omega arith)

-- Tables: 0 holds the globals, 1 is package, 2 is os, 3 is package.loaded, 4 is io.
abbrev field_of : ℕ → Text → Slot
field_of zero n =
    if text_eq n (text "package")
    then library 1
    else if text_eq n (text "os")
    then library 2
    else if text_eq n (text "io")
    then library 4
    else if text_eq n (text "_G")
    then library 0
    else absent
field_of (suc zero) n = if text_eq n (text "loaded") then library 3 else native 7
field_of (suc (suc (suc zero))) n = if text_eq n (text "io") then library 4 else native 8
field_of _ n = native 9

abbrev fresh : LuaEnv
fresh = record { global_table = 0; fields = field_of }

io_still_reached_example :
    (globals (sandbox_environment fresh) (text "io") ≡ absent)
    × (reach
          (sandbox_environment fresh)
          (globals (sandbox_environment fresh) (text "package"))
          (text "loaded" ∷ text "io" ∷ text "open" ∷ [])
        ≡ native 9)
unfolding text text_eq
io_still_reached_example =
    io_still_reached fresh 1 2 3 4 refl refl refl refl (text "open") (omega arith) (omega arith)
      (omega arith) (omega arith) (omega arith) (omega arith) (omega arith)
