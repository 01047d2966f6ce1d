-- ===== src/UiElement/Walking.antt =====
-- src/platform/uia/UIAutomationScanner.cpp, findBestMatch: the loop over a stack meets the elements of the
-- tree in order.
use win_bot.Base.{
  ℕ, suc, zero, ◌≤◌, List, [], ◌∷◌, ◌++◌, append_assoc, append-nil, length, none, ◌≡◌, refl, sym,
  ap, ◌∙◌, arith, if◌then◌else◌,
}
use win_bot.UiElement.{
  Element, Elements, element, end, child, to_list, children, Query, Best, check, is_enough, search,
  preorder, preorder_all, resolved, find_best_match,
}

-- The search without a stack: over a list of elements.
unfoldable pub scan : Query → List Element → Best → Best
scan q [] best = best
scan q (e ∷ es) best =
    let best' = check q e best in
    let rest = scan q es best' in if is_enough best' then best' else rest

unfoldable pub all_below : List Element → List Element
unfolding preorder preorder_all
all_below [] = []
all_below (e ∷ es) = preorder e ++ all_below es

all_below-append : (es fs : List Element) → all_below (es ++ fs) ≡ all_below es ++ all_below fs
unfolding all_below
all_below-append [] fs = refl
all_below-append (e ∷ es) fs =
    ap (λ x. preorder e ++ x) (all_below-append es fs)
    ∙ sym (append_assoc (preorder e) (all_below es) (all_below fs))

all_below-to_list : (es : Elements) → all_below (to_list es) ≡ preorder_all es
unfolding all_below preorder_all
all_below-to_list end = refl
all_below-to_list (child e es) = ap (λ x. preorder e ++ x) (all_below-to_list es)

-- The elements of a stack are its top, and those of the stack that the loop makes next.
all_below-pop :
    (e : Element) (stack : List Element)
    → all_below (e ∷ stack) ≡ e ∷ all_below (children e ++ stack)
unfolding all_below preorder
all_below-pop (element p es) stack =
    ap (λ x. element p es ∷ x)
      (ap (λ x. x ++ all_below stack) (sym (all_below-to_list es))
        ∙ sym (all_below-append (to_list es) stack))

search_scans :
    (fuel : ℕ) (q : Query) (stack : List Element) (best : Best)
    → length (all_below stack) ≤ fuel
    → search fuel q stack best ≡ scan q (all_below stack) best
unfolding search scan all_below
search_scans zero q [] best h = refl
search_scans zero q (e ∷ stack) best h =
    let k = rw (all_below-pop e stack) at h in absurd (omega arith)
search_scans (suc fuel) q [] best h = refl
search_scans (suc fuel) q (e ∷ stack) best h =
    let k = rw (all_below-pop e stack) at h in
    rw (all_below-pop e stack) (
      ap (λ rest. if is_enough (check q e best) then check q e best else rest)
        (search_scans fuel q (children e ++ stack) (check q e best) (omega arith)))

-- The loop of findBestMatch ends, and what it finds is what a walk over the elements finds, each in
-- front of its children and the children in order.
pub find_best_match-scan :
    (own_process : ℕ) (q : Query) (root : Element)
    → find_best_match own_process q root ≡ scan (resolved own_process q) (preorder root) none
unfolding find_best_match all_below
find_best_match-scan own_process q root =
    let whole = append-nil (preorder root) in
    let q' = resolved own_process q in
    search_scans (length (preorder root)) q' (root ∷ []) none (rw whole (omega arith))
    ∙ ap (λ es. scan q' es none) whole
