-- ===== src/LuaRuntime.antt =====
-- src/services/LuaRuntime.cpp: scripts, with the values they return. The Lua library and the JSON
-- library are parameters; a table is the finite list of its entries, in the order of lua_next.
pub mod Converting
pub mod Running
pub mod Loading
pub mod Executing
pub mod Hook
pub mod Sandbox
pub mod Bindings
use win_bot.Base.{
  ℕ, zero, suc, ◌+◌, Text, text_eq, text, is_empty, show_int, Bool, true, false, ◌&&◌, Option, none,
  some, List, [], ◌∷◌, ◌++◌, Map, insert, ℤ, pos, Outcome, returned, threw, threw_unknown,
  ToolResult, ok, err, ltb, leb, lebℤ, ◌==◌, if◌then◌else◌,
}
use win_bot.Json.{JsonApi}

-- A key of a table: a string, an integer, the bits of a double, or what is neither.
pub data Key : Type 0 where
  named : Text → Key
  index : ℤ → Key
  fraction : ℕ → Key
  opaque : ℕ → Key

mutual
  -- A double is its 64 bits, a function a reference to it; `handle` is a UIHandle with the name and
  -- the control type of its element, and `other` a value of another type, of which the name counts.
  pub data LuaValue : Type 0 where
    nil : LuaValue
    boolean : Bool → LuaValue
    integer : ℤ → LuaValue
    number : ℕ → LuaValue
    string : Text → LuaValue
    table : Entries → LuaValue
    function : ℕ → LuaValue
    handle : Text → Text → LuaValue
    userdata : LuaValue
    other : Text → LuaValue

  pub data Entries : Type 0 where
    end : Entries
    entry : Key → LuaValue → Entries → Entries

-- What the type of a JSON value and its accessors tell.
pub data Node (J : Type 0) : Type 0 where
  json_null : Node J
  json_boolean : Bool → Node J
  json_integer : ℤ → Node J
  json_double : ℕ → Node J
  json_string : Text → Node J
  json_array : List J → Node J
  json_object : List (Text × J) → Node J

-- The numbers of Lua as text, the length of a table, and the calls of the JSON library that look
-- into a value; `depth` bounds how deep the values in it are nested.
pub record LuaApi (J : Type 0) : Type 0 where
  pub show_double : ℕ → Text
  pub format_double : ℕ → Text
  pub border : Entries → ℕ
  pub double : ℕ → J
  pub node : J → Node J
  pub depth : J → ℕ

-- A result; or a Lua error that no lua_pcall catches, which ends the program; or more fuel is needed.
pub data Conversion {ℓ} (A : Type ℓ) : Type ℓ where
  converted : A → Conversion A
  panicked : Conversion A
  unfinished : Conversion A

abbrev pub follow : {A B : Type 0} → Conversion A → (A → Conversion B) → Conversion B
follow (converted a) f = f a
follow panicked f = panicked
follow unfinished f = unfinished

abbrev pub same_index : Key → ℤ → Bool
same_index (index j) i = lebℤ j i && lebℤ i j
same_index _ i = false

abbrev pub same_name : Key → Text → Bool
same_name (named s) name = text_eq s name
same_name _ name = false

-- lua_geti and lua_getfield
unfoldable pub get_index : Entries → ℤ → LuaValue
get_index end i = nil
get_index (entry k v es) i = if same_index k i then v else get_index es i

unfoldable pub get_field : Entries → Text → LuaValue
get_field end name = nil
get_field (entry k v es) name = if same_name k name then v else get_field es name

-- lua_next for a key that is a string: the entries behind it; none is the error `invalid key`.
unfoldable pub after_name : Text → Entries → Option Entries
after_name name end = none
after_name name (entry k v es) = if same_name k name then some es else after_name name es

-- A std::string made of the char pointer of lua_tostring: it ends before the first NUL.
unfoldable pub c_string : Text → Text
c_string [] = []
c_string (c ∷ s) = let rest = c_string s in if c == 0 then [] else c ∷ rest

-- lua_isstring, which also holds of numbers
abbrev pub is_string : LuaValue → Bool
is_string (string s) = true
is_string (integer i) = true
is_string (number x) = true
is_string _ = false

module _ {J : Type 0} (api : JsonApi J) (lua : LuaApi J) where
  -- The std::string of lua_tostring, of what lua_isstring holds of.
  abbrev pub to_string : LuaValue → Text
  to_string (string s) = c_string s
  to_string (integer i) = show_int i
  to_string (number x) = lua.show_double x
  to_string _ = []

  -- The text of a key, where it has one.
  abbrev pub key_text : Key → Text
  key_text (named s) = c_string s
  key_text (index i) = show_int i
  key_text (fraction x) = lua.show_double x
  key_text (opaque x) = []

  -- The entries that lua_next goes on with: lua_tostring has turned a number on the stack into a
  -- string, and the walk continues behind that string.
  unfoldable pub next_entries : Entries → Key → Entries → Option Entries
  unfolding after_name
  next_entries es (named s) rest = some rest
  next_entries es (index i) rest = after_name (show_int i) es
  next_entries es (fraction x) rest = after_name (lua.show_double x) es
  next_entries es (opaque x) rest = some rest

  module _ (convert : LuaValue → Conversion J) where
    -- The loop over the indexes from `i`, of which there are `count`.
    unfoldable pub convert_items : Entries → ℕ → ℕ → Conversion (List J)
    unfolding get_index
    convert_items es i zero = converted []
    convert_items es i (suc count) =
        follow (convert (get_index es (pos i)))
          (λ j. follow (convert_items es (suc i) count) (λ js. converted (j ∷ js)))

    -- The value of one entry, in the object: `if (!key.empty())`.
    unfoldable pub convert_entry : Key → LuaValue → Map J → Conversion (Map J)
    convert_entry k v object =
        if is_empty (key_text k)
        then converted object
        else follow (convert v) (λ j. converted (insert (key_text k) j object))

    abbrev pub walk_on : Option Entries → (Entries → Conversion (Map J)) → Conversion (Map J)
    walk_on none f = panicked
    walk_on (some rest) f = f rest

    -- The loop of lua_next over the entries.
    unfoldable pub convert_fields : ℕ → Entries → Entries → Map J → Conversion (Map J)
    unfolding convert_entry next_entries
    convert_fields n es end object = converted object
    convert_fields zero es (entry k v rest) object = unfinished
    convert_fields (suc n) es (entry k v rest) object =
        follow (convert_entry k v object)
          (λ object'. walk_on (next_entries es k rest) (λ rest'. convert_fields n es rest' object'))

  unfoldable pub value_to_json : ℕ → LuaValue → Conversion J
  unfolding convert_items convert_fields
  value_to_json n nil = converted api.null
  value_to_json n (boolean b) = converted (api.bool b)
  value_to_json n (integer i) = converted (api.int i)
  value_to_json n (number x) = converted (lua.double x)
  value_to_json n (string s) = converted (api.string (c_string s))
  value_to_json zero (table es) = unfinished
  value_to_json (suc n) (table es) =
      if ltb 0 (lua.border es)
      then follow (convert_items (value_to_json n) es 1 (lua.border es))
          (λ js. converted (api.array js))
      else follow (convert_fields (value_to_json n) n es es [])
          (λ object. converted (api.object object))
  value_to_json n (function f) = converted (api.string (text "function"))
  value_to_json n (handle name control) = converted (api.string (text "userdata"))
  value_to_json n userdata = converted (api.string (text "userdata"))
  value_to_json n (other name) = converted (api.string name)

  -- lua_seti and lua_settable of a new key: nil is not stored.
  abbrev set_entry : Key → LuaValue → Entries → Entries
  set_entry k nil es = es
  set_entry k v es = entry k v es

  module _ (push : J → LuaValue) where
    unfoldable pub push_items : ℕ → List J → Entries
    push_items i [] = end
    push_items i (j ∷ js) = set_entry (index (pos i)) (push j) (push_items (suc i) js)

    unfoldable pub push_fields : List (Text × J) → Entries
    push_fields [] = end
    push_fields ((k, j) ∷ fs) = set_entry (named k) (push j) (push_fields fs)

    unfoldable pub push_node : Node J → LuaValue
    unfolding push_items push_fields
    push_node json_null = nil
    push_node (json_boolean b) = boolean b
    push_node (json_integer i) = integer i
    push_node (json_double x) = number x
    push_node (json_string s) = string s
    push_node (json_array js) = table (push_items 1 js)
    push_node (json_object fs) = table (push_fields fs)

  unfoldable pub push_at : ℕ → J → LuaValue
  unfolding push_node
  push_at zero j = nil
  push_at (suc n) j = push_node (push_at n) (lua.node j)

  -- pushJsonValue
  unfoldable pub push_json : J → LuaValue
  unfolding push_at
  push_json j = push_at (suc (lua.depth j)) j

  abbrev quoted : Text → Text → Text
  quoted name control = text "[UIHandle: '" ++ name ++ text "' (" ++ control ++ text ")]"

  -- extractReturnValue of the stack, the top first
  unfoldable pub extract_return_value : ℕ → List LuaValue → Conversion (Outcome Text)
  unfolding value_to_json
  extract_return_value n [] = converted (returned (text "Script executed successfully."))
  extract_return_value n (boolean b ∷ stack) =
      converted (returned (if b then text "true" else text "false"))
  extract_return_value n (integer i ∷ stack) = converted (returned (show_int i))
  extract_return_value n (number x ∷ stack) = converted (returned (lua.format_double x))
  extract_return_value n (string s ∷ stack) = converted (returned (c_string s))
  extract_return_value n (nil ∷ stack) = converted (returned (text "nil"))
  extract_return_value n (table es ∷ stack) =
      follow (value_to_json n (table es)) (λ j. converted (api.dump j))
  extract_return_value n (handle name control ∷ stack) = converted (returned (quoted name control))
  extract_return_value n (userdata ∷ stack) = converted (returned (text "[Userdata]"))
  extract_return_value n (function f ∷ stack) = converted (returned (text "function"))
  extract_return_value n (other name ∷ stack) = converted (returned name)

  -- `ok(extractReturnValue())` inside the try block.
  unfoldable pub extracted : Outcome Text → ToolResult
  extracted (returned s) = ok s
  extracted (threw what) = err (text "Lua runtime error: " ++ what)
  extracted threw_unknown = err (text "Lua runtime error: unknown exception")
