-- ===== src/LuaRuntime/Converting.antt =====
-- src/services/LuaRuntime.cpp, luaValueToJson: against a description of the value by recursion on
-- its structure, and what ends the program.
use win_bot.Base.{
  ℕ, zero, suc, ◌+◌, ◌≤◌, text, is_empty, show_int, Bool, true, false, ◌&&◌, ◌||◌, Bool-cases,
  Option, none, some, List, [], ◌∷◌, Map, insert, ℤ, pos, ltb, if◌then◌else◌, ◌≡◌, refl, inl, inr,
  sym, arith, &&_parts, show_int_nonempty,
}
use win_bot.Json.{JsonApi}
use win_bot.LuaRuntime.{
  Key, named, index, fraction, opaque, LuaValue, nil, boolean, integer, number, string, table,
  function, handle, userdata, other, Entries, end, entry, LuaApi, converted, panicked, same_index,
  get_index, convert_items, convert_entry, convert_fields, next_entries, value_to_json, after_name,
  key_text, walk_on, c_string,
}

unfoldable mutual
  pub size : LuaValue → ℕ
  size (table es) = suc (size_entries es)
  size nil = 0
  size (boolean b) = 0
  size (integer i) = 0
  size (number x) = 0
  size (string s) = 0
  size (function f) = 0
  size (handle name control) = 0
  size userdata = 0
  size (other name) = 0

  pub size_entries : Entries → ℕ
  size_entries end = 0
  size_entries (entry k v es) = suc (size v + size_entries es)

-- A key that the walk leaves as it is.
abbrev steady : Key → Bool
steady (named s) = true
steady (index i) = false
steady (fraction x) = false
steady (opaque x) = true

unfoldable pub all_steady : Entries → Bool
all_steady end = true
all_steady (entry k v es) = steady k && all_steady es

abbrev or_null : {J : Type 0} → JsonApi J → Option J → J
or_null api none = api.null
or_null api (some j) = j

module _ {J : Type 0} (api : JsonApi J) (lua : LuaApi J) where
  -- Tables that are no sequence have no number as a key, all the way down.
  unfoldable mutual
    pub regular : LuaValue → Bool
    regular (table es) = regular_entries es && (ltb 0 (lua.border es) || all_steady es)
    regular nil = true
    regular (boolean b) = true
    regular (integer i) = true
    regular (number x) = true
    regular (string s) = true
    regular (function f) = true
    regular (handle name control) = true
    regular userdata = true
    regular (other name) = true

    pub regular_entries : Entries → Bool
    regular_entries end = true
    regular_entries (entry k v es) = regular v && regular_entries es

  find_index : ℤ → List (Key × J) → Option J
  find_index i [] = none
  find_index i ((k, j) ∷ ts) = if same_index k i then some j else find_index i ts

  listed : List (Key × J) → ℕ → ℕ → List J
  unfolding find_index
  listed ts i zero = []
  listed ts i (suc count) = or_null api (find_index (pos i) ts) ∷ listed ts (suc i) count

  put : Key → J → Map J → Map J
  put k j object =
      if is_empty (key_text api lua k) then object else insert (key_text api lua k) j object

  gathered : List (Key × J) → Map J → Map J
  unfolding put
  gathered [] object = object
  gathered ((k, j) ∷ ts) object = gathered ts (put k j object)

  -- The JSON value of a Lua value: an array of the first items of a sequence, an object of the
  -- fields with a name; a string or a name ends before its first NUL.
  mutual
    pub tree : LuaValue → J
    tree nil = api.null
    tree (boolean b) = api.bool b
    tree (integer i) = api.int i
    tree (number x) = lua.double x
    tree (string s) = api.string (c_string s)
    tree (table es) =
        let ts = trees es in
        if ltb 0 (lua.border es)
        then api.array (listed ts 1 (lua.border es))
        else api.object (gathered ts [])
    tree (function f) = api.string (text "function")
    tree (handle name control) = api.string (text "userdata")
    tree userdata = api.string (text "userdata")
    tree (other name) = api.string name

    pub trees : Entries → List (Key × J)
    trees end = []
    trees (entry k v es) = (k, tree v) ∷ trees es

  size-get_index : (es : Entries) (i : ℤ) → size (get_index es i) ≤ size_entries es
  unfolding size size_entries get_index
  size-get_index end i = omega arith
  size-get_index (entry k v es) i = elim (Bool-cases (same_index k i)) [
    | inl e ↦ rw e (omega arith)
    | inr e ↦ rw e (let h = size-get_index es i in omega arith)
  ]

  regular-get_index :
      (es : Entries) (i : ℤ) → regular_entries es ≡ true → regular (get_index es i) ≡ true
  unfolding regular regular_entries get_index
  regular-get_index end i h = refl
  regular-get_index (entry k v es) i h =
      let (a, b) = &&_parts (regular v) (regular_entries es) h in
      elim (Bool-cases (same_index k i)) [
        | inl e ↦ rw e a
        | inr e ↦ rw e (regular-get_index es i b)
      ]

  tree-get_index :
      (es : Entries) (i : ℤ) → tree (get_index es i) ≡ or_null api (find_index i (trees es))
  unfolding tree trees get_index find_index
  tree-get_index end i = refl
  tree-get_index (entry k v es) i = elim (Bool-cases (same_index k i)) [
    | inl e ↦ rw e refl
    | inr e ↦ rw e (tree-get_index es i)
  ]

  -- The loops, where the values inside are converted right.
  module _ (n : ℕ)
      (inner : (v : LuaValue)
        → size v ≤ n
        → regular v ≡ true
        → value_to_json api lua n v ≡ converted (tree v)) where
    items_lem :
        (es : Entries) (i count : ℕ)
        → size_entries es ≤ n
        → regular_entries es ≡ true
        → convert_items api lua (value_to_json api lua n) es i count
          ≡ converted (listed (trees es) i count)
    unfolding convert_items listed
    items_lem es i zero h r = refl
    items_lem es i (suc count) h r =
        let e =
          inner (get_index es (pos i)) (let s = size-get_index es (pos i) in omega arith)
            (regular-get_index es (pos i) r) in
        rw e (rw (items_lem es (suc i) count h r) (rw (tree-get_index es (pos i)) refl))

    convert_entry_lem :
        (k : Key) (v : LuaValue) (object : Map J)
        → size v ≤ n
        → regular v ≡ true
        → convert_entry api lua (value_to_json api lua n) k v object
          ≡ converted (put k (tree v) object)
    unfolding convert_entry put
    convert_entry_lem k v object h r = elim (Bool-cases (is_empty (key_text api lua k))) [
      | inl e ↦ rw e refl
      | inr e ↦ rw e (rw (inner v h r) refl)
    ]

    fields_lem :
        (m : ℕ) (es rest : Entries) (object : Map J)
        → size_entries rest ≤ n
        → size_entries rest ≤ m
        → regular_entries rest ≡ true
        → all_steady rest ≡ true
        → convert_fields api lua (value_to_json api lua n) m es rest object
          ≡ converted (gathered (trees rest) object)
    unfolding convert_fields gathered trees size_entries regular_entries all_steady next_entries
    fields_lem m es end object h b r s = refl
    fields_lem zero es (entry k v rest) object h b r s = absurd (omega arith)
    fields_lem (suc m) es (entry k v rest) object h b r s =
        let (rv, rr) = &&_parts (regular v) (regular_entries rest) r in
        let (sk, sr) = &&_parts (steady k) (all_steady rest) s in
        let go = fields_lem m es rest (put k (tree v) object) (omega arith) (omega arith) rr sr in
        rw (convert_entry_lem k v object (omega arith) rv) (step k sk go)
      where
        step :
            (k' : Key)
            → steady k' ≡ true
            → convert_fields api lua (value_to_json api lua n) m es rest (put k (tree v) object)
              ≡ converted (gathered (trees rest) (put k (tree v) object))
            → walk_on api lua (value_to_json api lua n) (next_entries api lua es k' rest) (λ rest'.
              convert_fields api lua (value_to_json api lua n) m es rest' (put k (tree v) object))
              ≡ converted (gathered (trees rest) (put k (tree v) object))
        step (named s) h g = g
        step (opaque x) h g = g
        step (index i) h g = absurd cc
        step (fraction x) h g = absurd cc

  -- With as much fuel as the value has entries, all the way down, luaValueToJson ends, and gives the
  -- JSON value that the structure describes, in which a string or a name ends before its first NUL,
  -- for a value in which a table that is no sequence has no number as a key.
  pub value_to_json_lem :
      (n : ℕ) (v : LuaValue)
      → size v ≤ n
      → regular v ≡ true
      → value_to_json api lua n v ≡ converted (tree v)
  unfolding value_to_json tree size regular
  value_to_json_lem n nil h r = refl
  value_to_json_lem n (boolean b) h r = refl
  value_to_json_lem n (integer i) h r = refl
  value_to_json_lem n (number x) h r = refl
  value_to_json_lem n (string s) h r = refl
  value_to_json_lem n (function f) h r = refl
  value_to_json_lem n (handle name control) h r = refl
  value_to_json_lem n userdata h r = refl
  value_to_json_lem n (other name) h r = refl
  value_to_json_lem zero (table es) h r = absurd (omega arith)
  value_to_json_lem (suc n) (table es) h r =
      let (re, s) = &&_parts (regular_entries es) (ltb 0 (lua.border es) || all_steady es) r in
      elim (Bool-cases (ltb 0 (lua.border es))) [
        | inl e ↦
            rw e (rw (items_lem n (value_to_json_lem n) es 1 (lua.border es) (omega arith) re) refl)
        | inr e ↦ rw e (
            rw
              (fields_lem n (value_to_json_lem n) n es es [] (omega arith) (omega arith) re
                (rw e at s))
              refl)
      ]

  -- A table that is no sequence, of which lua_next gives an integer first that is not also there as
  -- a string, ends the program, whatever the fuel of two or more is: once the value at the integer
  -- is converted, lua_next is called with a string that is no key.
  pub integer_key_panics :
      (n : ℕ) (i : ℤ) (v : LuaValue) (es : Entries) (j : J)
      → ltb 0 (lua.border (entry (index i) v es)) ≡ false
      → value_to_json api lua (suc n) v ≡ converted j
      → after_name (show_int i) es ≡ none
      → value_to_json api lua (suc (suc n)) (table (entry (index i) v es)) ≡ panicked
  unfolding value_to_json convert_fields convert_entry next_entries after_name
  integer_key_panics n i v es j b c a =
      let (d, s, e) = show_int_nonempty i in rw (b, e, c) (rw (sym e) (rw a refl))
