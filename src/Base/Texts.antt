-- ===== src/Base/Texts.antt =====
-- Text as the list of its code units: what std::string and std::wstring are to the program.
use Prim.Native.Nat.{ℕ, suc, ◌+◌}
use Prim.Native.Char.{code}
use Prim.Native.String.{String}
use mathlib.Core.Path.{◌≡◌, refl, ap}
use mathlib.Core.Logic.{◌↔◌, inl, inr}
use mathlib.Core.Bool.{Bool, true, false, ◌&&◌, ◌||◌}
use mathlib.Core.Option.{Option, none, some}
use mathlib.Core.List.{List, [], ◌∷◌, ◌++◌}
use native.Mathlib.Omega.{arith}
use win_bot.Base.Tests.{◌==◌, if◌then◌else◌, Bool-cases}
use win_bot.Base.Lists.{length}

abbrev pub Text : Type 0
Text = List ℕ

-- A literal of the source.
unfoldable pub text : String → Text
text String.[] = []
text (String.◌∷◌ c s) = code c ∷ text s

-- operator== on std::string
unfoldable pub text_eq : Text → Text → Bool
text_eq [] [] = true
text_eq [] (y ∷ ys) = false
text_eq (x ∷ xs) [] = false
text_eq (x ∷ xs) (y ∷ ys) = x == y && text_eq xs ys

pub text_eq→eq : (a b : Text) → text_eq a b ≡ true → a ≡ b
unfolding text_eq
text_eq→eq [] [] h = refl
text_eq→eq [] (y ∷ ys) h = ground arith
text_eq→eq (x ∷ xs) [] h = ground arith
text_eq→eq (x ∷ xs) (y ∷ ys) h = ground (arith, text_eq→eq xs ys)

pub text_eq_refl : (a : Text) → text_eq a a ≡ true
unfolding text_eq
text_eq_refl [] = refl
text_eq_refl (x ∷ xs) = ground (arith, text_eq_refl xs)

pub text_eq_iff : (a b : Text) → (text_eq a b ≡ true) ↔ (a ≡ b)
text_eq_iff a b = (text_eq→eq a b, λ e. cc (text_eq_refl a, e))

pub text_eq_sym : (a b : Text) → text_eq a b ≡ text_eq b a
unfolding text_eq
text_eq_sym [] [] = refl
text_eq_sym [] (x ∷ b) = refl
text_eq_sym (x ∷ a) [] = refl
text_eq_sym (x ∷ a) (y ∷ b) = ground (arith, text_eq_sym a b)

-- std::string::empty
abbrev pub is_empty : Text → Bool
is_empty [] = true
is_empty (x ∷ xs) = false

-- std::string_view::starts_with
unfoldable pub starts_with : Text → Text → Bool
starts_with s [] = true
starts_with [] (p ∷ ps) = false
starts_with (c ∷ s) (p ∷ ps) = c == p && starts_with s ps

-- std::string_view::ends_with
unfoldable pub ends_with : Text → Text → Bool
ends_with [] suffix = text_eq [] suffix
ends_with (c ∷ s) suffix = text_eq (c ∷ s) suffix || ends_with s suffix

-- std::string_view::contains of a text
unfoldable pub contains : Text → Text → Bool
contains [] needle = starts_with [] needle
contains (c ∷ s) needle = starts_with (c ∷ s) needle || contains s needle

-- std::string::find of one character: its position, or none for npos
unfoldable pub find : Text → ℕ → Option ℕ
find [] c = none
find (x ∷ s) c = if x == c then some 0 else elim (find s c) [ none ↦ none | some i ↦ some (suc i) ]

-- std::string::rfind of one character
unfoldable pub rfind : Text → ℕ → Option ℕ
rfind [] c = none
rfind (x ∷ s) c = elim (rfind s c) [
  | none ↦ if x == c then some 0 else none
  | some i ↦ some (suc i)
]

-- A prefix is what another text continues.
pub starts_with→append : (s p : Text) → starts_with s p ≡ true → (r : Text) × (s ≡ p ++ r)
unfolding starts_with
starts_with→append s [] h = (s, refl)
starts_with→append [] (p ∷ ps) h = ([], ground arith)
starts_with→append (c ∷ s) (p ∷ ps) h =
    let (r, e) = starts_with→append s ps (ground arith) in (r, ground (arith, e))

pub starts_with-append : (p r : Text) → starts_with (p ++ r) p ≡ true
unfolding starts_with
starts_with-append [] [] = refl
starts_with-append [] (x ∷ r) = refl
starts_with-append (p ∷ ps) r = ground (arith, starts_with-append ps r)

module _ (c : ℕ) where
  pub find-append : (a b : Text) → find a c ≡ none → find (a ++ c ∷ b) c ≡ some (length a)
  unfolding find
  find-append [] b h = ground arith
  find-append (x ∷ a) b h = ground (arith, find-append a b)

  pub rfind-append :
      (a b : Text) (i : ℕ) → rfind b c ≡ some i → rfind (a ++ b) c ≡ some (length a + i)
  unfolding rfind
  rfind-append [] b i h = rw h (ap some (omega arith))
  rfind-append (x ∷ a) b i h = rw (rfind-append a b i h) (ap some (omega arith))

  pub rfind-cons : (b : Text) → rfind b c ≡ none → rfind (c ∷ b) c ≡ some 0
  unfolding rfind
  rfind-cons b h = ground arith

pub ends_with→append :
    (s suffix : Text) → ends_with s suffix ≡ true → (stem : Text) × (s ≡ stem ++ suffix)
unfolding ends_with
ends_with→append [] suffix h = ([], text_eq→eq [] suffix h)
ends_with→append (c ∷ s) suffix h = elim (Bool-cases (text_eq (c ∷ s) suffix)) [
  | inl e ↦ ([], text_eq→eq (c ∷ s) suffix e)
  | inr e ↦
      let (stem, p) = ends_with→append s suffix (ground arith) in (c ∷ stem, ap (λ l. c ∷ l) p)
]

pub ends_with-append : (stem suffix : Text) → ends_with (stem ++ suffix) suffix ≡ true
unfolding ends_with
ends_with-append [] [] = text_eq_refl []
ends_with-append [] (x ∷ suffix) = rw (text_eq_refl (x ∷ suffix))
ends_with-append (c ∷ stem) suffix = ground (arith, ends_with-append stem suffix)
