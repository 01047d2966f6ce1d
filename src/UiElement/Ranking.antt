-- ===== src/UiElement/Ranking.antt =====
-- src/platform/uia/UIAutomationScanner.cpp, findBestMatch: which element is found.
use win_bot.Base.{
  ℕ, ◌≤◌, ◌<◌, ◌⊎◌, true, false, List, [], ◌∷◌, All, Option, none, some, ◌≡◌, refl, sym, ap, ◌∙◌,
  arith, ltb, is_empty, Bool-cases, inl, inr,
}
use win_bot.UiElement.{
  Element, properties, Properties, Query, Best, better, score, check, is_enough, preorder, resolved,
  find_best_match, is_exact, is_partial, is_window, name_points, type_points,
}
use win_bot.UiElement.Walking.{scan, find_best_match-scan}

-- No element has more points than `n`.
unfoldable pub AtMost : Query → ℕ → Element → Type 0
AtMost q n e = (m : ℕ) → score q (properties e) ≡ some m → m ≤ n

-- A best one so far that has no more points than `n`, if there is one.
BestAtMost : ℕ → Best → Type 0
BestAtMost n none = Unit
BestAtMost n (some (e, m)) = m ≤ n

-- A best one so far with the points that it has.
Scored : Query → Best → Type 0
Scored q none = Unit
Scored q (some (e, m)) = score q (properties e) ≡ some m

better-Scored :
    (q : Query) (e : Element) (o : Option ℕ) (best : Best)
    → score q (properties e) ≡ o
    → Scored q best
    → Scored q (better e o best)
unfolding Scored
better-Scored q e none best h k = k
better-Scored q e (some n) none h k = h
better-Scored q e (some n) (some (b, m)) h k = elim (Bool-cases (ltb m n)) [
  | inl x ↦ rw x h
  | inr x ↦ rw x k
]

-- What a step leaves bounds what it was given.
better-BestAtMost :
    (n : ℕ) (e : Element) (o : Option ℕ) (best : Best)
    → BestAtMost n (better e o best)
    → BestAtMost n best × ((m : ℕ) → o ≡ some m → m ≤ n)
unfolding BestAtMost
better-BestAtMost n e none best h = (h, λ m p. ground (arith, p))
better-BestAtMost n e (some k) none h = (tt, λ m p. ground (arith, p, h))
better-BestAtMost n e (some k) (some (b, l)) h = elim (Bool-cases (ltb l k)) [
  | inl x ↦ (let y = rw x at h in (ground (arith, x, y), λ m p. ground (arith, p, y)))
  | inr x ↦ (let y = rw x at h in (y, λ m p. ground (arith, p, x, y)))
]

scan-Scored :
    (q : Query) (es : List Element) (best : Best) → Scored q best → Scored q (scan q es best)
unfolding scan check
scan-Scored q [] best h = h
scan-Scored q (e ∷ es) best h =
    let step = better-Scored q e (score q (properties e)) best refl h in
    elim (Bool-cases (is_enough (check q e best))) [
      | inl x ↦ rw x step
      | inr x ↦ rw x (scan-Scored q es (check q e best) step)
    ]

scan-AtMost :
    (q : Query) (es : List Element) (best : Best) (e : Element) (n : ℕ)
    → scan q es best ≡ some (e, n)
    → n < 150
    → BestAtMost n best × All (AtMost q n) es
unfolding scan check BestAtMost AtMost
scan-AtMost q [] best e n h l = (rw h (omega arith), tt)
scan-AtMost q (x ∷ es) best e n h l = elim (Bool-cases (is_enough (check q x best))) [
  | inl c ↦
      let k : check q x best ≡ some (e, n) = (let y = rw c at h in y) in
      let d : is_enough (some (e, n)) ≡ true = sym (ap is_enough k) ∙ c in
      absurd (ground (arith, d, l))
  | inr c ↦
      let (rest, all) = scan-AtMost q es (check q x best) e n (let k = rw c at h in k) l in
      let (before, here) = better-BestAtMost n x (score q (properties x)) best rest in
      (before, (here, all))
]

-- What findBestMatch finds has exactly the points that it is found with, whatever they are; and
-- either no element of the tree has more, or they are 150 or more, where the loop stops.
pub find_best_match-greatest :
    (own_process : ℕ) (q : Query) (root e : Element) (n : ℕ)
    → find_best_match own_process q root ≡ some (e, n)
    → (score (resolved own_process q) (properties e) ≡ some n)
      × (All (AtMost (resolved own_process q) n) (preorder root) ⊎ (150 ≤ n))
unfolding Scored
find_best_match-greatest own_process q root e n h =
    let q' = resolved own_process q in
    let k : scan q' (preorder root) none ≡ some (e, n) =
      sym (find_best_match-scan own_process q root) ∙ h in
    let found = scan-Scored q' (preorder root) none tt in
    (
      (let y = rw k at found in y),
      elim (Bool-cases (ltb n 150)) [
        | inl x ↦ inl (scan-AtMost q' (preorder root) none e n k (ground (arith, x))).1
        | inr x ↦ inr (ground (arith, x))
      ],
    )

-- A window whose name only holds the text has more points than an element of another type whose name
-- is the text, where no type is asked for and neither is of the excluded process.
pub window_before_exact :
    (q : Query) (w e : Properties) (n m : ℕ)
    → is_empty q.control_type ≡ true
    → is_window w ≡ true
    → is_partial q w ≡ true
    → score q w ≡ some n
    → is_window e ≡ false
    → is_exact q e ≡ true
    → score q e ≡ some m
    → m < n
unfolding score name_points type_points
window_before_exact q w e n m t ww wp ws ew ee es = ground (arith, t, ww, wp, ws, ew, ee, es)
