-- ===== src/Registry/Consistent.antt =====
-- src/core/ToolRegistry.cpp: m_index and m_tools stay two views of one set of tools.
use win_bot.Base.{
  Text, text_eq, text_eq_iff, text_eq_refl, ◌≡◌, refl, Bool, Option, none, some, List, [], ◌∷◌,
  ◌++◌, lookup, lookup-insert, lookup-erase, is_some, erase_if, if◌then◌else◌, arith, Bool-cases,
  inl, inr,
}
use win_bot.Registry.{
  Tool, ToolRegistry, replace_first, register_or_replace_tool, register_tool, unregister_tool,
  set_change_callback, register_self_registered_tools, empty,
}

module _ {J : Type 0} where
  -- The first tool of a name, by the order of registration.
  abbrev pub find_tool : Text → List (Tool J) → Option (Tool J)
  find_tool n [] = none
  find_tool n (t ∷ ts) = if text_eq t.name n then some t else find_tool n ts

  -- No two tools have one name.
  abbrev pub Distinct : List (Tool J) → Type 0
  Distinct [] = Unit
  Distinct (t ∷ ts) = (find_tool t.name ts ≡ none) × Distinct ts

  pub record IsConsistent (r : ToolRegistry J) : Type 0 where
    pub indexed : (n : Text) → lookup n r.index ≡ find_tool n r.tools
    pub distinct : Distinct r.tools

  find_tool-replace_first :
      (n : Text) (t : Tool J) (ts : List (Tool J))
      → find_tool n (replace_first t.name t ts) ≡ (
          if text_eq t.name n
          then (if is_some (find_tool n ts) then some t else none)
          else find_tool n ts)
  unfolding replace_first
  find_tool-replace_first n t [] = ground arith
  find_tool-replace_first n t (x ∷ ts) = ground (
    arith,
    text_eq_iff t.name n,
    text_eq_iff x.name n,
    text_eq_iff x.name t.name,
    text_eq_refl n,
    find_tool-replace_first n t ts,
  )

  find_tool-append :
      (n : Text) (t : Tool J) (ts : List (Tool J))
      → find_tool n (ts ++ t ∷ []) ≡ (
          if is_some (find_tool n ts)
          then find_tool n ts
          else if text_eq t.name n
          then some t
          else none)
  find_tool-append n t [] = refl
  find_tool-append n t (x ∷ ts) = ground (arith, find_tool-append n t ts)

  find_tool-erase_if :
      (n k : Text) (ts : List (Tool J))
      → find_tool n (erase_if (λ t. text_eq t.name k) ts)
        ≡ (if text_eq k n then none else find_tool n ts)
  find_tool-erase_if n k [] = ground arith
  find_tool-erase_if n k (x ∷ ts) = ground (
    arith,
    text_eq_iff k n,
    text_eq_iff x.name n,
    text_eq_iff x.name k,
    find_tool-erase_if n k ts,
  )

  Distinct-replace_first :
      (t : Tool J) (ts : List (Tool J)) → Distinct ts → Distinct (replace_first t.name t ts)
  unfolding replace_first
  Distinct-replace_first t [] d = tt
  Distinct-replace_first t (x ∷ ts) d = ground (
    arith,
    text_eq_iff x.name t.name,
    text_eq_iff t.name x.name,
    find_tool-replace_first x.name t ts,
    Distinct-replace_first t ts,
  )

  Distinct-append :
      (t : Tool J) (ts : List (Tool J))
      → find_tool t.name ts ≡ none
      → Distinct ts
      → Distinct (ts ++ t ∷ [])
  Distinct-append t [] e d = (refl, tt)
  Distinct-append t (x ∷ ts) e d = ground (
    arith,
    text_eq_iff x.name t.name,
    text_eq_iff t.name x.name,
    find_tool-append x.name t ts,
    Distinct-append t ts,
  )

  Distinct-erase_if :
      (k : Text) (ts : List (Tool J)) → Distinct ts → Distinct (erase_if (λ t. text_eq t.name k) ts)
  Distinct-erase_if k [] d = tt
  Distinct-erase_if k (x ∷ ts) d =
      ground (arith, find_tool-erase_if x.name k ts, Distinct-erase_if k ts)

module _ {J : Type 0} where
  register-IsConsistent :
      (o : Option (Tool J)) (r : ToolRegistry J)
      → IsConsistent r
      → IsConsistent (register_or_replace_tool o r).registry
  unfolding register_or_replace_tool
  register-IsConsistent none r h = h
  register-IsConsistent (some t) r h = elim (Bool-cases (is_some (lookup t.name r.index))) [
    | inl old ↦ rw old (record {
      indexed = λ n. ground (
        arith,
        lookup-insert t.name n t r.index,
        find_tool-replace_first n t r.tools,
        h.indexed n,
        h.indexed t.name,
        text_eq_iff t.name n,
      );
      distinct = Distinct-replace_first t r.tools h.distinct;
    })
    | inr new ↦ rw new (record {
      indexed = λ n. ground (
        arith,
        lookup-insert t.name n t r.index,
        find_tool-append n t r.tools,
        h.indexed n,
        h.indexed t.name,
        text_eq_iff t.name n,
      );
      distinct = Distinct-append t r.tools (ground (arith, h.indexed t.name)) h.distinct;
    })
  ]

  unregister-IsConsistent :
      (k : Text) (r : ToolRegistry J)
      → IsConsistent r
      → IsConsistent (unregister_tool k r).0.registry
  unfolding unregister_tool
  unregister-IsConsistent k r h = elim (Bool-cases (is_some (lookup k r.index))) [
    | inl old ↦ rw old (record {
      indexed = λ n.
          ground (arith, lookup-erase k n r.index, find_tool-erase_if n k r.tools, h.indexed n);
      distinct = Distinct-erase_if k r.tools h.distinct;
    })
    | inr new ↦ rw new h
  ]

-- A change of the registry, by any of its operations.
pub data Operation (J : Type 0) : Type 0 where
  register : Option (Tool J) → Operation J
  unregister : Text → Operation J
  set_callback : Bool → Operation J
  register_all : (Text → Bool) → List (Option (Tool J)) → Operation J

module _ {J : Type 0} where
  unfoldable pub apply : Operation J → ToolRegistry J → ToolRegistry J
  apply (register o) r = (register_tool o r).registry
  apply (unregister k) r = (unregister_tool k r).0.registry
  apply (set_callback cb) r = set_change_callback cb r
  apply (register_all enabled made) r = register_self_registered_tools enabled made r

  unfoldable pub apply_all : List (Operation J) → ToolRegistry J → ToolRegistry J
  apply_all [] r = r
  apply_all (op ∷ ops) r = apply_all ops (apply op r)

  register_all-IsConsistent :
      (enabled : Text → Bool) (made : List (Option (Tool J))) (r : ToolRegistry J)
      → IsConsistent r
      → IsConsistent (register_self_registered_tools enabled made r)
  unfolding register_self_registered_tools register_tool
  register_all-IsConsistent enabled [] r h = h
  register_all-IsConsistent enabled (none ∷ made) r h = register_all-IsConsistent enabled made r h
  register_all-IsConsistent enabled (some t ∷ made) r h = elim (Bool-cases (enabled t.name)) [
    | inl e ↦ rw e (register_all-IsConsistent enabled made _ (register-IsConsistent (some t) r h))
    | inr e ↦ rw e (register_all-IsConsistent enabled made r h)
  ]

  apply-IsConsistent :
      (op : Operation J) (r : ToolRegistry J) → IsConsistent r → IsConsistent (apply op r)
  unfolding apply register_tool set_change_callback
  apply-IsConsistent (register o) r h = register-IsConsistent o r h
  apply-IsConsistent (unregister k) r h = unregister-IsConsistent k r h
  apply-IsConsistent (set_callback cb) r h = record { indexed = h.indexed; distinct = h.distinct }
  apply-IsConsistent (register_all enabled made) r h = register_all-IsConsistent enabled made r h

  apply_all-IsConsistent :
      (ops : List (Operation J)) (r : ToolRegistry J)
      → IsConsistent r
      → IsConsistent (apply_all ops r)
  unfolding apply_all
  apply_all-IsConsistent [] r h = h
  apply_all-IsConsistent (op ∷ ops) r h =
      apply_all-IsConsistent ops (apply op r) (apply-IsConsistent op r h)

  empty-IsConsistent : IsConsistent (empty {J = J})
  unfolding lookup
  empty-IsConsistent = record { indexed = λ n. refl; distinct = tt }

  -- Whatever operations a registry has been through, from empty, its index has under each name
  -- exactly the first tool of that name in its list, and no two tools of the list share a name.
  pub reachable-IsConsistent : (ops : List (Operation J)) → IsConsistent (apply_all ops empty)
  reachable-IsConsistent ops = apply_all-IsConsistent ops empty empty-IsConsistent
