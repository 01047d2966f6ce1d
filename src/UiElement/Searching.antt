-- ===== src/UiElement/Searching.antt =====
-- src/platform/uia/UIAutomationScanner.cpp: the other walks over a tree of elements.
use win_bot.Base.{
  ℕ, ◌+◌, Text, text_eq, is_empty, Bool, not, ◌&&◌, ◌||◌, Option, none, some, List, ◌≡◌, refl,
  if◌then◌else◌,
}
use win_bot.Common.{ci_contains}
use win_bot.UiElement.{
  Properties, Element, Elements, element, end, child, Query, Best, properties, find_best_match,
}

abbrev pub is_interactive : Properties → Bool
is_interactive p = not (is_empty p.name) && p.is_enabled && p.is_focusable

-- countInteractive
unfoldable mutual
  pub count_interactive : Element → ℕ
  count_interactive (element p es) = (if is_interactive p then 1 else 0) + count_all es

  pub count_all : Elements → ℕ
  count_all end = 0
  count_all (child e es) = count_interactive e + count_all es

abbrev pub or_else : {A : Type 0} → Option A → Option A → Option A
or_else none rest = rest
or_else (some a) rest = some a

abbrev pub is_named : Text → Properties → Bool
is_named name p = (ci_contains p.name name || ci_contains p.automation_id name) && p.is_enabled

-- findElementCenter: the element whose center it gives
unfoldable mutual
  pub find_element : Text → Element → Option Element
  find_element name (element p es) =
      let rest = find_in_all name es in if is_named name p then some (element p es) else rest

  pub find_in_all : Text → Elements → Option Element
  find_in_all name end = none
  find_in_all name (child e es) = or_else (find_element name e) (find_in_all name es)

abbrev first_found : Best → Option Element
first_found none = none
first_found (some (e, n)) = some e

-- findDescendant
unfoldable pub find_descendant : ℕ → Query → Elements → Option Element
unfolding find_best_match
find_descendant own_process q end = none
find_descendant own_process q (child e es) =
    or_else (first_found (find_best_match own_process q e)) (find_descendant own_process q es)

abbrev same_id : List ℕ → List ℕ → Bool
same_id a b = text_eq a b

abbrev has_id : List ℕ → Element → Bool
has_id id e = same_id (properties e).runtime_id id

-- findParent, for an id that is not empty; parent_of is all of it
unfoldable mutual
  pub find_parent : List ℕ → Element → Option Element
  find_parent id (element p es) = find_below id (element p es) es

  pub find_below : List ℕ → Element → Elements → Option Element
  find_below id self end = none
  find_below id self (child e es) =
      let inside = find_parent id e in
      let rest = find_below id self es in if has_id id e then some self else or_else inside rest

unfoldable pub parent_of : List ℕ → Element → Option Element
unfolding find_parent find_below
parent_of id root = if is_empty id then none else find_parent id root

-- The first child of a tree with a match decides: a better one in a later child is not looked at.
pub find_descendant-first :
    (own_process : ℕ) (q : Query) (e b : Element) (es : Elements) (n : ℕ)
    → find_best_match own_process q e ≡ some (b, n)
    → find_descendant own_process q (child e es) ≡ some b
unfolding find_descendant
find_descendant-first own_process q e b es n h = rw h refl
