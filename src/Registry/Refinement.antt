-- ===== src/Registry/Refinement.antt =====
-- src/core/ToolRegistry.cpp: to its callers the registry is a finite map from names to tools.
use win_bot.Base.{
  Text, text, text_eq, text_eq_iff, is_empty, Bool, false, Bool-cases, Option-cases, Option, none,
  some, List, [], ◌∷◌, ◌++◌, lookup, lookup-insert, lookup-erase, is_some, ToolResult, err,
  if◌then◌else◌, ◌≡◌, refl, inl, inr,
}
use win_bot.Registry.{
  StopToken, Tool, ToolRegistry, register_or_replace_tool, register_tool, unregister_tool,
  set_change_callback, register_self_registered_tools, has_tool, empty,
}
use win_bot.Registry.Dispatch.{catch_tool, dispatch}
use win_bot.Registry.Consistent.{
  Operation, register, unregister, set_callback, register_all, apply, apply_all,
}

-- What a registry stands for.
abbrev pub Table : Type 0 → Type 0
Table J = Text → Option (Tool J)

module _ {J : Type 0} where
  abbrev with_tool : Tool J → Table J → Table J
  with_tool t m n = if text_eq t.name n then some t else m n

  abbrev without : Text → Table J → Table J
  without k m n = if text_eq k n then none else m n

  with_enabled : (Text → Bool) → List (Option (Tool J)) → Table J → Table J
  with_enabled enabled [] m = m
  with_enabled enabled (none ∷ made) m = with_enabled enabled made m
  with_enabled enabled (some t ∷ made) m =
      with_enabled enabled made (if enabled t.name then with_tool t m else m)

  -- An operation on the map.
  pub table_apply : Operation J → Table J → Table J
  unfolding with_enabled
  table_apply (register none) m = m
  table_apply (register (some t)) m = with_tool t m
  table_apply (unregister k) m = without k m
  table_apply (set_callback cb) m = m
  table_apply (register_all enabled made) m = with_enabled enabled made m

  pub table_apply_all : List (Operation J) → Table J → Table J
  unfolding table_apply
  table_apply_all [] m = m
  table_apply_all (op ∷ ops) m = table_apply_all ops (table_apply op m)

  -- A call by the map.
  pub table_call : Table J → Text → J → StopToken → ToolResult
  table_call m n args token =
      if is_empty n then err (text "Tool call missing 'tool' field") else elim (m n) [
        | none ↦ err (text "Unknown tool: '" ++ n ++ text "'")
        | some tool ↦ catch_tool n (tool.execute args token)
      ]

  Refines : ToolRegistry J → Table J → Type 0
  Refines r m = (n : Text) → lookup n r.index ≡ m n

  found : (r : ToolRegistry J) (m : Table J) → Refines r m → (n : Text) → lookup n r.index ≡ m n
  unfolding Refines
  found r m h = h

  register-Refines :
      (t : Tool J) (r : ToolRegistry J) (m : Table J)
      → Refines r m
      → Refines (register_or_replace_tool (some t) r).registry (with_tool t m)
  unfolding register_or_replace_tool Refines
  register-Refines t r m h n = elim (Bool-cases (is_some (lookup t.name r.index))) [
    | inl e ↦ rw e (rw (lookup-insert t.name n t r.index, h n) refl)
    | inr e ↦ rw e (rw (lookup-insert t.name n t r.index, h n) refl)
  ]

  unregister-Refines :
      (k : Text) (r : ToolRegistry J) (m : Table J)
      → Refines r m
      → Refines (unregister_tool k r).0.registry (without k m)
  unfolding unregister_tool Refines
  unregister-Refines k r m h n = elim (Bool-cases (is_some (lookup k r.index))) [
    | inl e ↦ rw e (rw (lookup-erase k n r.index, h n) refl)
    | inr e ↦ rw e (missing e)
  ]
    where
      gone : (o : Option (Tool J)) → is_some o ≡ false → o ≡ none
      gone none q = refl
      gone (some t) q = absurd cc

      missing : is_some (lookup k r.index) ≡ false → lookup n r.index ≡ without k m n
      missing e = elim (Bool-cases (text_eq k n)) [
        | inr f ↦ rw f (h n)
        | inl f ↦
            rw f (let p = (text_eq_iff k n).0 f in let q = rw p at e in gone (lookup n r.index) q)
      ]

  register_all-Refines :
      (enabled : Text → Bool) (made : List (Option (Tool J))) (r : ToolRegistry J) (m : Table J)
      → Refines r m
      → Refines (register_self_registered_tools enabled made r) (with_enabled enabled made m)
  unfolding register_self_registered_tools register_tool with_enabled
  register_all-Refines enabled [] r m h = h
  register_all-Refines enabled (none ∷ made) r m h = register_all-Refines enabled made r m h
  register_all-Refines enabled (some t ∷ made) r m h = elim (Bool-cases (enabled t.name)) [
    | inl e ↦ rw e (register_all-Refines enabled made _ (with_tool t m) (register-Refines t r m h))
    | inr e ↦ rw e (register_all-Refines enabled made r m h)
  ]

  apply-Refines :
      (op : Operation J) (r : ToolRegistry J) (m : Table J)
      → Refines r m
      → Refines (apply op r) (table_apply op m)
  unfolding apply register_tool register_or_replace_tool set_change_callback table_apply Refines
  apply-Refines (register none) r m h = h
  apply-Refines (register (some t)) r m h = register-Refines t r m h
  apply-Refines (unregister k) r m h = unregister-Refines k r m h
  apply-Refines (set_callback cb) r m h = λ n. h n
  apply-Refines (register_all enabled made) r m h = register_all-Refines enabled made r m h

  apply_all-Refines :
      (ops : List (Operation J)) (r : ToolRegistry J) (m : Table J)
      → Refines r m
      → Refines (apply_all ops r) (table_apply_all ops m)
  unfolding apply_all table_apply_all
  apply_all-Refines [] r m h = h
  apply_all-Refines (op ∷ ops) r m h =
      apply_all-Refines ops (apply op r) (table_apply op m) (apply-Refines op r m h)

empty-Refines : (J : Type 0) → Refines (empty {J = J}) (λ n. none)
unfolding Refines lookup
empty-Refines J n = refl

module _ {J : Type 0} where
  -- To its callers a registry is a map from names to tools. Whatever operations it has been through,
  -- from empty, a call, a test for a tool and the result of an unregistration are those of the map
  -- that starts empty, takes each registered tool under its name and drops each name that is
  -- unregistered; the list of tools and their order make no difference.
  pub registry_refines_map :
      (ops : List (Operation J)) (n : Text) (args : J) (token : StopToken)
      → let r = apply_all ops empty in
        let m = table_apply_all ops (λ k. none) in
        (dispatch r n args token ≡ table_call m n args token)
        × (has_tool n r ≡ is_some (m n))
        × ((unregister_tool n r).1 ≡ is_some (m n))
  unfolding dispatch table_call has_tool unregister_tool
  registry_refines_map ops n args token =
      let h : lookup n (apply_all ops empty).index ≡ table_apply_all ops (λ k. none) n =
        found (apply_all ops empty) (table_apply_all ops (λ k. none))
          (apply_all-Refines ops empty (λ k. none) (empty-Refines J)) n in
      (
        elim (Option-cases (table_apply_all ops (λ k. none) n)) [
          | inl e ↦ rw h (rw e refl)
          | inr (tool, e) ↦ rw h (rw e refl)
        ],
        rw h refl,
        elim (Bool-cases (is_some (table_apply_all ops (λ k. none) n))) [
          | inl e ↦ rw h (rw e refl)
          | inr e ↦ rw h (rw e refl)
        ],
      )
