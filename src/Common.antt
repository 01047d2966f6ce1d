-- ===== src/Common.antt =====
-- src/Common.h: the case conversions and comparisons of ASCII text, and the polling helper.
pub mod Case
pub mod Polling
use win_bot.Base.{
  ℕ, ◌+◌, ◌-◌, Text, length, is_empty, Bool, true, false, ◌&&◌, ◌||◌, Option, none, some, List, [],
  ◌∷◌, map, ltb, leb, ◌==◌, if◌then◌else◌,
}

unfoldable pub ascii_lower : ℕ → ℕ
ascii_lower c = if leb b'A' c && leb c b'Z' then c + (b'a' - b'A') else c

unfoldable pub ascii_upper : ℕ → ℕ
ascii_upper c = if leb b'a' c && leb c b'z' then c - (b'a' - b'A') else c

unfoldable pub ci_char_eq : ℕ → ℕ → Bool
unfolding ascii_lower
ci_char_eq a b = ascii_lower a == ascii_lower b

-- std::ranges::equal
unfoldable pub ci_equal : Text → Text → Bool
ci_equal [] [] = true
ci_equal [] (b ∷ bs) = false
ci_equal (a ∷ as') [] = false
ci_equal (a ∷ as') (b ∷ bs) = ci_char_eq a b && ci_equal as' bs

unfoldable pub ci_starts_with : Text → Text → Bool
ci_starts_with s [] = true
ci_starts_with [] (n ∷ ns) = false
ci_starts_with (c ∷ s) (n ∷ ns) = ci_char_eq c n && ci_starts_with s ns

-- std::ranges::search is not empty, for a needle that is not empty
unfoldable pub ci_search : Text → Text → Bool
unfolding ci_starts_with
ci_search [] needle = ci_starts_with [] needle
ci_search (c ∷ s) needle = ci_starts_with (c ∷ s) needle || ci_search s needle

unfoldable pub ci_contains : Text → Text → Bool
unfolding ci_search
ci_contains haystack needle =
    if is_empty needle
    then true
    else if ltb (length haystack) (length needle)
    then false
    else ci_search haystack needle

-- to_lower_inplace and to_upper_inplace of a std::string
unfoldable pub to_lower : Text → Text
to_lower = map ascii_lower

unfoldable pub to_upper : Text → Text
to_upper = map ascii_upper

-- What one round of `poll_until` meets: what the attempt gives, whether a stop is requested, and
-- the clock when the deadline is looked at.
pub record Round {ℓ} (A : Type ℓ) : Type ℓ where
  pub result : A
  pub succeeded : Bool
  pub stop : Bool
  pub clock : ℕ

-- poll_until over the rounds that the environment makes; `none`: it is still polling.
unfoldable pub poll_until {ℓ} : {A : Type ℓ} → ℕ → List (Round A) → Option A
poll_until deadline [] = none
poll_until deadline (r ∷ rs) =
    if r.succeeded
    then some r.result
    else if r.stop || leb deadline r.clock
    then some r.result
    else poll_until deadline rs
