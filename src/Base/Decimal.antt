-- ===== src/Base/Decimal.antt =====
-- Decimal numerals, as std::format prints them and std::from_chars reads them.
use Prim.Native.Nat.{ℕ, zero, suc, ◌+◌, ◌-◌, ◌*◌, ◌/◌, ◌%◌, ◌<◌}
use mathlib.Core.Path.{◌≡◌, refl}
use mathlib.Core.Bool.{Bool, ◌&&◌}
use mathlib.Core.Logic.{inl, inr}
use mathlib.Core.Option.{Option, none, some}
use mathlib.Core.List.{[], ◌∷◌}
use native.Mathlib.Omega.{arith}
use win_bot.Base.Tests.{ltb, leb, if◌then◌else◌, Bool-cases}
use win_bot.Base.Texts.{Text}
use win_bot.Base.Ints.{ℤ, pos, negsuc}

-- The digits of `n` in front of `acc`, a digit for each unit of fuel.
unfoldable pub digits_of : ℕ → ℕ → Text → Text
digits_of zero n acc = acc
digits_of (suc fuel) n acc =
    let rest = digits_of fuel (n / 10) ((b'0' + n % 10) ∷ acc) in
    if ltb n 10 then (b'0' + n) ∷ acc else rest

unfoldable pub show_nat : ℕ → Text
unfolding digits_of
show_nat n = digits_of (suc n) n []

unfoldable pub show_int : ℤ → Text
unfolding show_nat
show_int (pos n) = show_nat n
show_int (negsuc n) = b'-' ∷ show_nat (suc n)

abbrev pub is_digit : ℕ → Bool
is_digit c = leb b'0' c && leb c b'9'

-- The value of a text of digits, behind the value of those before it.
unfoldable pub value_from : ℕ → Text → Option ℕ
value_from n [] = some n
value_from n (c ∷ s) =
    let rest = value_from (n * 10 + (c - b'0')) s in if is_digit c then rest else none

-- The printed digits of a number are read back.
value_from-digits_of :
    (fuel n : ℕ) (acc : Text) → n < fuel → value_from 0 (digits_of fuel n acc) ≡ value_from n acc
unfolding value_from digits_of
value_from-digits_of zero n acc h = absurd (omega arith)
value_from-digits_of (suc fuel) n acc h =
    ground (arith, value_from-digits_of fuel (n / 10) ((b'0' + n % 10) ∷ acc))

pub value_from-show_nat : (n : ℕ) → value_from 0 (show_nat n) ≡ some n
unfolding show_nat value_from
value_from-show_nat n = value_from-digits_of (suc n) n [] (omega arith)

digits_of_nonempty :
    (fuel n c : ℕ) (acc : Text) → (d : ℕ) × (s : Text) × (digits_of fuel n (c ∷ acc) ≡ d ∷ s)
unfolding digits_of
digits_of_nonempty zero n c acc = (c, acc, refl)
digits_of_nonempty (suc fuel) n c acc = elim (Bool-cases (ltb n 10)) [
  | inl e ↦ (b'0' + n, c ∷ acc, rw e)
  | inr e ↦ rw e (digits_of_nonempty fuel (n / 10) (b'0' + n % 10) (c ∷ acc))
]

pub show_nat_nonempty : (n : ℕ) → (d : ℕ) × (s : Text) × (show_nat n ≡ d ∷ s)
unfolding show_nat digits_of
show_nat_nonempty n = elim (Bool-cases (ltb n 10)) [
  | inl e ↦ (b'0' + n, [], rw e)
  | inr e ↦ rw e (digits_of_nonempty n (n / 10) (b'0' + n % 10) [])
]

pub show_int_nonempty : (i : ℤ) → (d : ℕ) × (s : Text) × (show_int i ≡ d ∷ s)
unfolding show_int
show_int_nonempty (pos n) = show_nat_nonempty n
show_int_nonempty (negsuc n) = (b'-', show_nat (suc n), refl)
