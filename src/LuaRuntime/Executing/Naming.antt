-- ===== src/LuaRuntime/Executing/Naming.antt =====
-- src/services/LuaRuntime.cpp: the tools that loadToolDefinitions names are those that executeTool
-- finds, and the loops over the tools end.
use win_bot.Base.{
  ℕ, zero, suc, ◌+◌, ◌≤◌, Text, text, text_eq, text_eq_sym, is_empty, false, ◌&&◌, ◌||◌, Bool-cases,
  Option, Option-cases, none, some, is_some, any, List, [], ◌∷◌, pos, negsuc, ◌≡◌, refl, inl, inr,
  ap, sym, arith,
}
use win_bot.Json.{JsonApi}
use win_bot.LuaLoader.{Definition}
use win_bot.LuaRuntime.{
  named, index, fraction, opaque, nil, Entries, end, entry, LuaApi, Conversion, converted, panicked,
  unfinished, follow, get_index, get_field,
}
use win_bot.LuaRuntime.Loading.{
  as_table, numbered, end_index, string_field, parameters_field, definition, parse_tool_table,
  parse_step, parse_tools, or_default,
}
use win_bot.LuaRuntime.Executing.{is_asked, find_step, find_tool}

get_index_past : (es : Entries) (i : ℕ) → end_index es ≤ i → get_index es (pos i) ≡ nil
unfolding get_index end_index
get_index_past end i h = refl
get_index_past (entry (named s) v es) i h = get_index_past es i h
get_index_past (entry (fraction x) v es) i h = get_index_past es i h
get_index_past (entry (opaque x) v es) i h = get_index_past es i h
get_index_past (entry (index (negsuc k)) v es) i h = ground (arith, get_index_past es i h)
get_index_past (entry (index (pos j)) v es) i h =
    let e = get_index_past es i (omega arith) in ground (arith, e)

nonempty : (name : Text) → is_empty name ≡ false → text_eq [] name ≡ false
unfolding text_eq
nonempty [] h = absurd cc
nonempty (c ∷ name) h = refl

follow_converted :
    {A B : Type 0} (m : Conversion A) (f : A → Conversion B) (b : B)
    → follow m f ≡ converted b
    → (a : A) × (m ≡ converted a) × (f a ≡ converted b)
follow_converted (converted a) f b h = (a, refl, h)
follow_converted panicked f b h = absurd cc
follow_converted unfinished f b h = absurd cc

abbrev converted_of : {A : Type 0} → A → Conversion A → A
converted_of a (converted b) = b
converted_of a _ = a

module _ {J : Type 0} (api : JsonApi J) (lua : LuaApi J) (fuel : ℕ) (file stem name : Text) where
  -- A tool is asked for by the name that its definition has.
  is_asked_lem :
      (i : ℕ) (tool : Entries)
      → is_empty name ≡ false
      → is_asked api lua fuel stem name i tool
        ≡ text_eq
            (or_default api lua fuel
              (string_field api lua fuel tool (text "name"))
              (numbered stem i))
            name
  unfolding is_asked
  is_asked_lem i tool h = go (string_field api lua fuel tool (text "name"))
    where
      go :
          (n : Text)
          → (text_eq n name || (is_empty n && text_eq name (numbered stem i)))
            ≡ text_eq (or_default api lua fuel n (numbered stem i)) name
      go [] = rw (text_eq_sym (numbered stem i) name) (elim (Bool-cases (text_eq [] name)) [
        | inl e ↦ absurd (let f = nonempty name h in cc)
        | inr e ↦ rw e refl
      ])
      go (c ∷ n) = ground arith

  parse_tool_table-name :
      (i : ℕ) (tool : Entries) (d : Definition J)
      → parse_tool_table api lua fuel file (numbered stem i) tool ≡ converted d
      → d.name
        ≡ or_default api lua fuel (string_field api lua fuel tool (text "name")) (numbered stem i)
  unfolding parse_tool_table definition
  parse_tool_table-name i tool d h =
      go
        (parameters_field api lua fuel (get_field tool (text "parameters"))
          (get_field tool (text "schema")))
        h
    where
      go :
          (m : Conversion J)
          → follow m (λ ps. converted (definition api lua fuel file (numbered stem i) tool ps))
            ≡ converted d
          → d.name
            ≡ or_default api lua fuel
                (string_field api lua fuel tool (text "name"))
                (numbered stem i)
      go (converted ps) h =
          let g : definition api lua fuel file (numbered stem i) tool ps ≡ d =
            ap (converted_of d) h in
          rw (sym g) refl
      go panicked h = absurd cc
      go unfinished h = absurd cc

  -- The two loops go over the same tools.
  names_agree_from :
      (n : ℕ) (es : Entries) (i : ℕ) (ds : List (Definition J))
      → is_empty name ≡ false
      → parse_tools api lua fuel file stem n es i ≡ converted ds
      → (found : Option Entries) × (find_tool api lua fuel stem name n es i ≡ converted found)
        × (is_some found ≡ any (λ d. text_eq d.name name) ds)
  unfolding parse_tools find_tool parse_step find_step
  names_agree_from zero es i ds h p = absurd cc
  names_agree_from (suc n) es i ds h p = elim (Option-cases (as_table (get_index es (pos i)))) [
    | inl e ↦ (none, rw e refl, let q = rw e at p in rw (sym (ap (converted_of ds) q)) refl)
    | inr (tool, e) ↦
        let q = rw e at p in
        let (d, e1, q1) = follow_converted _ _ ds q in
        let (rest, e2, q2) = follow_converted _ _ ds q1 in
        let ds_eq : d ∷ rest ≡ ds = ap (converted_of ds) q2 in
        let (found, f, g) = names_agree_from n es (suc i) rest h e2 in
        let name_eq = parse_tool_table-name i tool d e1 in
        let asked : is_asked api lua fuel stem name i tool ≡ text_eq d.name name =
          rw name_eq (is_asked_lem i tool h) in
        elim (Bool-cases (text_eq d.name name)) [
          | inl t ↦ (some tool, rw (e, asked, t) refl, rw (sym ds_eq) (rw t refl))
          | inr t ↦ (found, rw (e, asked, t) f, rw (sym ds_eq) (rw t g))
        ]
  ]

  -- Where the array of a script is loaded as the definitions `ds`, executeTool's search for a name
  -- that is not empty ends, and it finds a tool exactly when a definition of `ds` has that name.
  pub find_tool-parse_tools :
      (es : Entries) (ds : List (Definition J))
      → is_empty name ≡ false
      → parse_tools api lua fuel file stem (suc (end_index es)) es 1 ≡ converted ds
      → (found : Option Entries) × (find_tool api lua fuel stem name (suc (end_index es)) es 1
          ≡ converted found)
        × (is_some found ≡ any (λ d. text_eq d.name name) ds)
  find_tool-parse_tools es ds h p = names_agree_from (suc (end_index es)) es 1 ds h p

  past_end :
      (es : Entries) (i : ℕ) (tool : Entries)
      → end_index es ≤ i
      → as_table (get_index es (pos i)) ≡ some tool
      → ⊥
  past_end es i tool h e = let g = get_index_past es i h in absurd (let f = rw g at e in cc)

  find_tool-step :
      (n : ℕ) (es : Entries) (i : ℕ)
      → ((tool : Entries)
          → as_table (get_index es (pos i)) ≡ some tool
          → (found : Option Entries) × (find_tool api lua fuel stem name n es (suc i)
              ≡ converted found))
      → (found : Option Entries) × (find_tool api lua fuel stem name (suc n) es i ≡ converted found)
  unfolding find_tool find_step
  find_tool-step n es i later = elim (Option-cases (as_table (get_index es (pos i)))) [
    | inl e ↦ (none, rw e refl)
    | inr (tool, e) ↦ elim (Bool-cases (is_asked api lua fuel stem name i tool)) [
      | inl t ↦ (some tool, rw (e, t) refl)
      | inr t ↦ rw (e, t) (later tool e)
    ]
  ]

  find_tool_ends_from :
      (n : ℕ) (es : Entries) (i : ℕ)
      → end_index es ≤ n + i
      → (found : Option Entries) × (find_tool api lua fuel stem name (suc n) es i ≡ converted found)
  find_tool_ends_from zero es i h =
      find_tool-step zero es i (λ tool e. absurd (past_end es i tool (omega arith) e))
  find_tool_ends_from (suc n) es i h =
      find_tool-step (suc n) es i (λ tool e. find_tool_ends_from n es (suc i) (omega arith))
