-- ===== src/UiElement.antt =====
-- src/platform/uia/UIAutomationScanner: the tree of elements of a scan and the searches in it.
pub mod Walking
pub mod Ranking
pub mod Searching
use win_bot.Base.{
  ℕ, suc, zero, ◌+◌, ◌*◌, ◌/◌, Text, text, text_eq, is_empty, show_int, Bool, true, false, not,
  ◌&&◌, ◌||◌, Option, none, some, List, [], ◌∷◌, ◌++◌, map, length, take, ℤ, ltb, leb, lebℤ, ◌==◌,
  if◌then◌else◌,
}
use win_bot.Common.{ci_equal, ci_contains}

-- The members of UIElement but for its children.
pub record Properties : Type 0 where
  pub name : Text
  pub value : Text
  pub control_type : Text
  pub automation_id : Text
  pub left : ℤ
  pub top : ℤ
  pub right : ℤ
  pub bottom : ℤ
  pub is_enabled : Bool
  pub is_focusable : Bool
  pub is_focused : Bool
  pub runtime_id : List ℕ
  pub owner_hwnd : ℕ
  pub process_id : ℕ
  pub supports_invoke : Bool

-- UIElement
mutual
  pub data Element : Type 0 where
    element : Properties → Elements → Element

  pub data Elements : Type 0 where
    end : Elements
    child : Element → Elements → Elements

abbrev pub to_list : Elements → List Element
to_list end = []
to_list (child e es) = e ∷ to_list es

abbrev pub children : Element → List Element
children (element p es) = to_list es

abbrev pub properties : Element → Properties
properties (element p es) = p

-- UIA_EXCLUDE_NONE
abbrev pub exclude_none : ℕ
exclude_none = 4294967295

-- What a search asks for; `excluded` is a process whose elements are passed over, 0 for none.
pub record Query : Type 0 where
  pub name_or_id : Text
  pub control_type : Text
  pub excluded : ℕ

unfoldable pub excluded_process : ℕ → ℕ → ℕ
excluded_process own_process excluded =
    if excluded == exclude_none then 0 else if not (excluded == 0) then excluded else own_process

abbrev pub is_exact : Query → Properties → Bool
is_exact q p = ci_equal p.name q.name_or_id || ci_equal p.automation_id q.name_or_id

abbrev pub is_partial : Query → Properties → Bool
is_partial q p = ci_contains p.name q.name_or_id || ci_contains p.automation_id q.name_or_id

abbrev pub is_window : Properties → Bool
is_window p = text_eq p.control_type (text "Window")

-- The points for a name, and those that are added to them.
unfoldable pub name_points : Query → Properties → Option ℕ
name_points q p = if is_exact q p then some 50 else if is_partial q p then some 10 else none

unfoldable pub type_points : Properties → ℕ
type_points p = (if is_window p then 100 else 0) + (if p.is_focusable || p.is_enabled then 5 else 0)

abbrev pub add_points : ℕ → Option ℕ → Option ℕ
add_points n none = none
add_points n (some m) = some (n + m)

-- The score of an element in `check`; none where it returns early.
unfoldable pub score : Query → Properties → Option ℕ
unfolding name_points type_points
score q p =
    if not (q.excluded == 0) && p.process_id == q.excluded
    then none
    else if is_empty q.control_type
    then add_points (type_points p) (name_points q p)
    else if ci_equal p.control_type q.control_type
    then add_points (100 + type_points p) (name_points q p)
    else none

-- `best` and `bestScore`, which is -1 while there is none.
abbrev pub Best : Type 0
Best = Option (Element × ℕ)

abbrev pub better : Element → Option ℕ → Best → Best
better e none best = best
better e (some n) none = some (e, n)
better e (some n) (some (b, m)) = if ltb m n then some (e, n) else some (b, m)

unfoldable pub check : Query → Element → Best → Best
unfolding score
check q e best = better e (score q (properties e)) best

abbrev pub is_enough : Best → Bool
is_enough none = false
is_enough (some (b, m)) = leb 150 m

-- The loop over the stack, whose top is the head of the list.
unfoldable pub search : ℕ → Query → List Element → Best → Best
unfolding check
search zero q stack best = best
search (suc fuel) q [] best = best
search (suc fuel) q (e ∷ stack) best =
    let best' = check q e best in
    let rest = search fuel q (children e ++ stack) best' in if is_enough best' then best' else rest

-- The elements of a tree, each in front of its children.
unfoldable mutual
  pub preorder : Element → List Element
  preorder (element p es) = element p es ∷ preorder_all es

  pub preorder_all : Elements → List Element
  preorder_all end = []
  preorder_all (child e es) = preorder e ++ preorder_all es

-- The query with the process that is passed over.
unfoldable pub resolved : ℕ → Query → Query
unfolding excluded_process
resolved own_process q = record q { excluded = excluded_process own_process q.excluded }

-- findBestMatch, where the query has the argument excludedPid.
unfoldable pub find_best_match : ℕ → Query → Element → Best
unfolding search preorder preorder_all resolved
find_best_match own_process q root =
    search (length (preorder root)) (resolved own_process q) (root ∷ []) none
