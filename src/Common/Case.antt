-- ===== src/Common/Case.antt =====
-- src/Common.h: the comparisons that ignore case are those of the lowered texts.
use win_bot.Base.{
  sym, ℕ, ◌<◌, Text, text_eq, starts_with, contains, length, ◌≡◌, refl, true, false, [], ◌∷◌, arith,
  map,
}
use win_bot.Common.{
  ascii_lower, ci_char_eq, ci_equal, ci_starts_with, ci_search, ci_contains, to_lower,
}

pub ascii_lower_idem : (c : ℕ) → ascii_lower (ascii_lower c) ≡ ascii_lower c
unfolding ascii_lower
ascii_lower_idem c = ground arith

pub to_lower_idem : (s : Text) → to_lower (to_lower s) ≡ to_lower s
unfolding to_lower
to_lower_idem [] = refl
to_lower_idem (c ∷ s) = cc (ascii_lower_idem c, to_lower_idem s)

-- Two texts are equal but for case exactly when they lower to one text.
pub ci_equal-to_lower : (a b : Text) → ci_equal a b ≡ text_eq (to_lower a) (to_lower b)
unfolding ci_equal text_eq to_lower ci_char_eq
ci_equal-to_lower [] [] = refl
ci_equal-to_lower [] (y ∷ b) = refl
ci_equal-to_lower (x ∷ a) [] = refl
ci_equal-to_lower (x ∷ a) (y ∷ b) = rw (ci_equal-to_lower a b)

ci_starts_with-to_lower : (s n : Text) → ci_starts_with s n ≡ starts_with (to_lower s) (to_lower n)
unfolding ci_starts_with starts_with to_lower ci_char_eq
ci_starts_with-to_lower [] [] = refl
ci_starts_with-to_lower (c ∷ s) [] = refl
ci_starts_with-to_lower [] (n ∷ ns) = refl
ci_starts_with-to_lower (c ∷ s) (n ∷ ns) = rw (ci_starts_with-to_lower s ns)

ci_search-to_lower : (s n : Text) → ci_search s n ≡ contains (to_lower s) (to_lower n)
unfolding ci_search contains
ci_search-to_lower [] n = rw (ci_starts_with-to_lower [] n) (unfold to_lower in refl)
ci_search-to_lower (c ∷ s) n =
    rw (ci_starts_with-to_lower (c ∷ s) n, ci_search-to_lower s n) (unfold to_lower in refl)

starts_with_short : (s n : Text) → length s < length n → starts_with s n ≡ false
unfolding starts_with
starts_with_short s [] h = absurd (omega arith)
starts_with_short [] (n ∷ ns) h = refl
starts_with_short (c ∷ s) (n ∷ ns) h = ground (arith, starts_with_short s ns)

contains_short : (s n : Text) → length s < length n → contains s n ≡ false
unfolding contains
contains_short [] n h = starts_with_short [] n h
contains_short (c ∷ s) n h = ground (arith, starts_with_short (c ∷ s) n, contains_short s n)

length-to_lower : (s : Text) → length (to_lower s) ≡ length s
unfolding to_lower
length-to_lower [] = refl
length-to_lower (c ∷ s) = omega (arith, length-to_lower s)

contains_nil : (s : Text) → contains s [] ≡ true
unfolding contains starts_with
contains_nil [] = refl
contains_nil (c ∷ s) = refl

-- A text contains another but for case exactly when the lowered text contains the lowered one.
pub ci_contains-to_lower : (s n : Text) → ci_contains s n ≡ contains (to_lower s) (to_lower n)
unfolding ci_contains
ci_contains-to_lower s [] = unfold to_lower in sym (contains_nil (map ascii_lower s))
ci_contains-to_lower s (x ∷ n) = ground (
  arith,
  ci_search-to_lower s (x ∷ n),
  length-to_lower s,
  length-to_lower (x ∷ n),
  contains_short (to_lower s) (to_lower (x ∷ n)),
)
