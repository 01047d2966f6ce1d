-- ===== src/InputTools/Scaling.antt =====
-- src/tools/InputTools.cpp: the coordinates of the mouse events, and where a drag ends.
use win_bot.Base.{
  ℕ, zero, suc, ◌+◌, ◌*◌, ◌/◌, ◌<◌, [], ◌∷◌, ◌++◌, ℤ, pos, negsuc, ◌≡◌, refl, ap, ◌∙◌, arith,
  length,
}
use native.Mathlib.Nat.{div-lt_iff_lt-mul}
use win_bot.InputTools.{
  Screen, ◌-ℤ◌, ◌+ℤ◌, scaled, screen_width, screen_height, absolute_x, absolute_y, between,
  drag_points,
}

distance_back : (a : ℤ) (d : ℕ) → ((a +ℤ pos d) -ℤ a) ≡ pos d
distance_back (pos n) d = ground arith
distance_back (negsuc n) d = ground arith

below_full : (d w : ℕ) → d < w → d * 65535 / w < 65535
below_full d w h = (div-lt_iff_lt-mul (omega arith)).1 (omega arith)

-- A point that is `dx` pixels right of and `dy` below the corner of the screen, and on it, is sent
-- with coordinates of at least 0 and below 65535, wherever the corner is.
pub absolute_bounds :
    (screen : Screen) (dx dy : ℕ)
    → dx < screen_width screen
    → dy < screen_height screen
    → ((nx : ℕ) × (absolute_x screen (screen.virtual_x +ℤ pos dx) ≡ pos nx) × (nx < 65535))
      × ((ny : ℕ) × (absolute_y screen (screen.virtual_y +ℤ pos dy) ≡ pos ny) × (ny < 65535))
unfolding absolute_x absolute_y
absolute_bounds screen dx dy hx hy = (
  (
    dx * 65535 / screen_width screen,
    rw (distance_back screen.virtual_x dx) refl,
    below_full dx (screen_width screen) hx,
  ),
  (
    dy * 65535 / screen_height screen,
    rw (distance_back screen.virtual_y dy) refl,
    below_full dy (screen_height screen) hy,
  ),
)

scaled_whole : (z : ℤ) → scaled z 20 20 ≡ z
scaled_whole (pos n) = ap pos (omega arith)
scaled_whole (negsuc n) = ground arith

plus_minus : (a b : ℤ) → (a +ℤ (b -ℤ a)) ≡ b
plus_minus (pos a) (pos b) = ground arith
plus_minus (pos a) (negsuc b) = ground arith
plus_minus (negsuc a) (pos b) = ground arith
plus_minus (negsuc a) (negsuc b) = ground arith

zero_add : (i : ℕ) → 0 + i ≡ i
zero_add i = omega arith

abbrev point_at : ℤ → ℤ → ℤ → ℤ → ℕ → ℤ × ℤ
point_at x1 y1 x2 y2 i = (between x1 x2 i, between y1 y2 i)

drag_points_snoc :
    (n i : ℕ) (x1 y1 x2 y2 : ℤ)
    → drag_points (suc n) i x1 y1 x2 y2
      ≡ drag_points n i x1 y1 x2 y2 ++ (between x1 x2 (n + i), between y1 y2 (n + i)) ∷ []
unfolding drag_points
drag_points_snoc zero i x1 y1 x2 y2 = rw (zero_add i) refl
drag_points_snoc (suc n) i x1 y1 x2 y2 =
    let e : suc n + i ≡ n + suc i = omega arith in
    rw e (ap (λ l. (between x1 x2 i, between y1 y2 i) ∷ l) (drag_points_snoc n (suc i) x1 y1 x2 y2))

-- A drag without a human-like move goes through twenty points, the last of which is its target, so
-- the button is released where the pointer is.
pub drag_points_end :
    (x1 y1 x2 y2 : ℤ)
    → (length (drag_points 20 1 x1 y1 x2 y2) ≡ 20)
      × (drag_points 20 1 x1 y1 x2 y2 ≡ drag_points 19 1 x1 y1 x2 y2 ++ (x2, y2) ∷ [])
unfolding drag_points
drag_points_end x1 y1 x2 y2 = (
  refl,
  drag_points_snoc 19 1 x1 y1 x2 y2
      ∙ ap (λ p. drag_points 19 1 x1 y1 x2 y2 ++ p ∷ []) (target x1 y1 x2 y2),
)
  where
    target : (x1 y1 x2 y2 : ℤ) → point_at x1 y1 x2 y2 20 ≡ (x2, y2)
    target x1 y1 x2 y2 =
        rw (scaled_whole (x2 -ℤ x1), scaled_whole (y2 -ℤ y1), plus_minus x1 x2, plus_minus y1 y2)
          refl
