-- ===== src/EntryPoint/Groups.antt =====
-- src/main.cpp, buildPermConfig: which tools disabled_tools disables.
use win_bot.Base.{
  Text, text, text_eq, text_eq_iff, Bool, true, false, not, ◌&&◌, Map, ◌||◌, Bool-cases, List, [],
  ◌∷◌, ◌++◌, any, lookup, Outcome, returned, threw, threw_unknown, ◌>>=◌, ◌≡◌, refl, ap, sym, inl,
  inr, arith,
}
use win_bot.Json.{JsonApi}
use win_bot.Permission.{Config}
use win_bot.Permission.Checks.{is_tool_enabled}
use win_bot.EntryPoint.{
  tool_groups, add_name, add_names, tools_of, expand_disabled, text_list, permissions,
  build_perm_config,
}

abbrev listed : Text → List Text → Bool
listed tool names = any (λ t. text_eq t tool) names

-- The item is the name of a group.
abbrev pub is_group : Map (List Text) → Text → Bool
is_group table item = any (λ g. text_eq g.0 item) table

-- A group with the item as its name lists the tool.
abbrev pub in_group : Map (List Text) → Text → Text → Bool
in_group table item tool = any (λ g. text_eq g.0 item && listed tool g.1) table

-- What an item of disabled_tools disables: a group disables the tools that it lists, and no other
-- one; any other item the tool of that name.
abbrev pub disables : Text → Text → Bool
disables tool item =
    in_group tool_groups item tool || (text_eq item tool && not (is_group tool_groups item))

abbrev distinct : Map (List Text) → Bool
distinct [] = true
distinct ((name, tools) ∷ table) = not (is_group table name) && distinct table

no_group :
    (table : Map (List Text)) (item tool : Text)
    → is_group table item ≡ false
    → in_group table item tool ≡ false
no_group [] item tool h = refl
no_group ((name, tools) ∷ table) item tool h =
    ground (arith, h, no_group table item tool (ground (arith, h)))

listed-tools_of :
    (table : Map (List Text)) (item tool : Text)
    → distinct table ≡ true
    → listed tool (tools_of item (lookup item table))
      ≡ (in_group table item tool || (text_eq item tool && not (is_group table item)))
unfolding lookup
listed-tools_of [] item tool d = ground arith
listed-tools_of ((name, tools) ∷ table) item tool d = elim (Bool-cases (text_eq name item)) [
  | inl e ↦
      let q = (text_eq_iff name item).0 e in
      let d' : not (is_group table name) ≡ true = ground (arith, d) in
      let d'' = rw q at d' in
      let n = no_group table item tool (ground (arith, d'')) in rw e (ground (arith, n))
  | inr e ↦ rw e (rw (listed-tools_of table item tool (ground (arith, d))) (ground arith))
]

groups_distinct : distinct tool_groups ≡ true
unfolding tool_groups text text_eq
groups_distinct = refl

any-append :
    (tool : Text) (xs ys : List Text) → listed tool (xs ++ ys) ≡ (listed tool xs || listed tool ys)
any-append tool [] ys = refl
any-append tool (x ∷ xs) ys = ground (arith, any-append tool xs ys)

listed-add_name :
    (tool name : Text) (names : List Text)
    → listed tool (add_name name names) ≡ (text_eq name tool || listed tool names)
listed-add_name tool name names = elim (Bool-cases (listed name names)) [
  | inr e ↦ rw e (rw (any-append tool names (name ∷ [])) (ground arith))
  | inl e ↦ rw e (elim (Bool-cases (text_eq name tool)) [
    | inr f ↦ rw f refl
    | inl f ↦ rw f (rw ((text_eq_iff name tool).0 f) at e)
  ])
]

listed-add_names :
    (tool : Text) (more names : List Text)
    → listed tool (add_names more names) ≡ (listed tool more || listed tool names)
unfolding add_names
listed-add_names tool [] names = refl
listed-add_names tool (name ∷ more) names =
    rw (listed-add_names tool more (add_name name names), listed-add_name tool name names)
      (ground arith)

listed-expand_disabled :
    (tool : Text) (items names : List Text)
    → listed tool (expand_disabled items names) ≡ (any (disables tool) items || listed tool names)
unfolding expand_disabled
listed-expand_disabled tool [] names = refl
listed-expand_disabled tool (item ∷ items) names =
    let tools = tools_of item (lookup item tool_groups) in
    rw
      (
        listed-expand_disabled tool items (add_names tools names),
        listed-add_names tool tools names,
        listed-tools_of tool_groups item tool groups_distinct,
      )
      (ground arith)

abbrev config_of : Config → Outcome Config → Config
config_of perm (returned c) = c
config_of perm _ = perm

module _ {J : Type 0} (api : JsonApi J) (get_text : J → Outcome Text) where
  -- Where config.json gives a configuration, and `items` is its list disabled_tools, a tool is
  -- disabled exactly when some item is a group that lists it, or is its name and is no group.
  pub is_tool_enabled-build_perm_config :
      (cfg : J) (items : List Text) (perm : Config) (tool : Text)
      → text_list api get_text cfg "disabled_tools" ≡ returned items
      → build_perm_config api get_text cfg ≡ returned perm
      → is_tool_enabled perm tool ≡ not (any (disables tool) items)
  unfolding build_perm_config is_tool_enabled
  is_tool_enabled-build_perm_config cfg items perm tool t h =
      with_permission (api.value_json cfg (text "permission") (api.object [])) (rw t at h)
    where
      with_perm :
          (o : Outcome Config)
          → (o >>= λ c. returned (record c { disabled_tools = expand_disabled items [] }))
            ≡ returned perm
          → is_tool_enabled perm tool ≡ not (any (disables tool) items)
      with_perm (returned c) g =
          let e : record c { disabled_tools = expand_disabled items [] } ≡ perm =
            ap (config_of perm) g in
          rw (sym e) (rw (listed-expand_disabled tool items []) (ground arith))
      with_perm (threw what) g = absurd cc
      with_perm threw_unknown g = absurd cc

      with_permission :
          (o : Outcome J)
          → (o >>= λ p. permissions api get_text p >>= λ c.
              returned (record c { disabled_tools = expand_disabled items [] }))
            ≡ returned perm
          → is_tool_enabled perm tool ≡ not (any (disables tool) items)
      with_permission (returned p) g = with_perm (permissions api get_text p) g
      with_permission (threw what) g = absurd cc
      with_permission threw_unknown g = absurd cc
