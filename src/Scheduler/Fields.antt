-- ===== src/Scheduler/Fields.antt =====
-- src/services/Scheduler.cpp: which values a cron field of each form matches.
use win_bot.Base.{
  ℕ, zero, suc, ◌+◌, ◌-◌, ◌%◌, ◌/◌, ◌^◌, ◌≤◌, ◌<◌, Text, text_eq, starts_with, find, find-append,
  show_nat, digits_of, value_from-show_nat, show_nat_nonempty, is_digit, true, false, Bool-cases,
  none, some, List, [], ◌∷◌, ◌++◌, pos, All, Any, drop_past, take-append, append-nil, any, ltb,
  ◌==◌, ◌≡◌, refl, ◌↔◌, inl, inr, arith,
}
use win_bot.Scheduler.{numeral, parse_cron_int, int_is, split, cron_field_matches}

abbrev IsDigit : ℕ → Type 0
IsDigit c = is_digit c ≡ true

digits_of-digits :
    (fuel n : ℕ) (acc : Text) → All IsDigit acc → n < fuel → All IsDigit (digits_of fuel n acc)
unfolding digits_of
digits_of-digits zero n acc h l = absurd (omega arith)
digits_of-digits (suc fuel) n acc h l = elim (Bool-cases (ltb n 10)) [
  | inl e ↦ rw e (ground arith, h)
  | inr e ↦
      rw e (digits_of-digits fuel (n / 10) ((b'0' + n % 10) ∷ acc) (ground arith, h) (ground arith))
]

show_nat-digits : (n : ℕ) → All IsDigit (show_nat n)
unfolding show_nat
show_nat-digits n = digits_of-digits (suc n) n [] tt (omega arith)

-- A text of digits holds no other character.
find-digits : (s : Text) (c : ℕ) → All IsDigit s → is_digit c ≡ false → find s c ≡ none
unfolding find
find-digits [] c h d = refl
find-digits (x ∷ s) c h d = ground (arith, find-digits s c h.1 d)

numeral-show : (n : ℕ) → numeral (show_nat n) ≡ some n
unfolding numeral
numeral-show n =
    let (d, s, e) = show_nat_nonempty n in rw e (let p = value_from-show_nat n in rw e at p)

minus-show : (n : ℕ) → starts_with (show_nat n) (b'-' ∷ []) ≡ false
unfolding starts_with
minus-show n =
    let (d, s, e) = show_nat_nonempty n in
    let h : All IsDigit (d ∷ s) = rw e at (show_nat-digits n) in rw e (ground (arith, h.0))

parse-show : (n : ℕ) → n < 2 ^ 31 → parse_cron_int (show_nat n) ≡ some (pos n)
unfolding parse_cron_int
parse-show n l = rw (minus-show n, numeral-show n) (ground arith)

-- A numeral is none of the special forms.
plain-digits :
    (s : Text) (c : ℕ) (r : Text)
    → All IsDigit s
    → is_digit c ≡ false
    → starts_with s (c ∷ r) ≡ false
unfolding starts_with
plain-digits [] c r h d = refl
plain-digits (x ∷ s) c r h d = ground (arith, h.0)

-- A field "*/n" matches exactly the values that are a multiple of n, which is not 0, above the
-- least one. The step fits an int.
pub step_iff :
    (n value least greatest : ℕ)
    → n < 2 ^ 31
    → least ≤ value
    → (cron_field_matches (b'*' ∷ b'/' ∷ show_nat n) value least greatest ≡ true)
      ↔ ((0 < n) × ((value - least) % n ≡ 0))
unfolding cron_field_matches text_eq starts_with
step_iff n value least greatest l m =
    let e : (value - least) + (least - value) ≡ value - least = omega arith in
    rw (parse-show n l) (rw e (ground arith))

front :
    (d : ℕ) (s : Text)
    → is_digit d ≡ true
    → (text_eq (d ∷ s) (b'*' ∷ []) ≡ false) × (starts_with (d ∷ s) (b'*' ∷ b'/' ∷ []) ≡ false)
unfolding text_eq starts_with
front d s h = ground arith

-- A field that begins with a numeral is neither "*" nor a step.
show-front :
    (n : ℕ) (r : Text)
    → (text_eq (show_nat n ++ r) (b'*' ∷ []) ≡ false)
      × (starts_with (show_nat n ++ r) (b'*' ∷ b'/' ∷ []) ≡ false)
show-front n r =
    let (d, s, e) = show_nat_nonempty n in
    let h : All IsDigit (d ∷ s) = rw e at (show_nat-digits n) in rw e (front d (s ++ r) h.0)

-- A field "a-b" matches exactly the values from a to b. Both bounds fit an int.
pub range_iff :
    (a b value least greatest : ℕ)
    → a < 2 ^ 31
    → b < 2 ^ 31
    → (cron_field_matches (show_nat a ++ b'-' ∷ show_nat b) value least greatest ≡ true)
      ↔ ((a ≤ value) × (value ≤ b))
unfolding cron_field_matches
range_iff a b value least greatest l m =
    let (p, q) = show-front a (b'-' ∷ show_nat b) in
    let f =
      find-append b'-' (show_nat a) (show_nat b)
        (find-digits (show_nat a) b'-' (show_nat-digits a) refl) in
    rw
      (
        p,
        q,
        f,
        take-append (show_nat a) (b'-' ∷ show_nat b),
        drop_past (show_nat a) b'-' (show_nat b),
      )
      (rw (parse-show a l, parse-show b m) (ground arith))

-- A list of numerals with commas between them.
abbrev pub joined : ℕ → List ℕ → Text
joined n [] = show_nat n
joined n (m ∷ ns) = show_nat n ++ b',' ∷ joined m ns

module _ (c : ℕ) where
  find-both : (a b : Text) → find a c ≡ none → find b c ≡ none → find (a ++ b) c ≡ none
  unfolding find
  find-both [] b h k = k
  find-both (x ∷ a) b h k = ground (arith, find-both a b)

  split-none : (a : Text) → find a c ≡ none → split c a ≡ a ∷ []
  unfolding find split
  split-none [] h = refl
  split-none (x ∷ a) h =
      let r = split-none a (ground arith) in
      let e : (x == c) ≡ false = ground arith in rw (e, r) refl

  split-append : (a b : Text) → find a c ≡ none → split c (a ++ c ∷ b) ≡ a ∷ split c b
  unfolding find split
  split-append [] b h = ground arith
  split-append (x ∷ a) b h =
      let r = split-append a b (ground arith) in
      let e : (x == c) ≡ false = ground arith in rw (e, r) refl

no_comma : (n : ℕ) → find (show_nat n) b',' ≡ none
no_comma n = find-digits (show_nat n) b',' (show_nat-digits n) refl

no_dash : (n : ℕ) → find (show_nat n) b'-' ≡ none
no_dash n = find-digits (show_nat n) b'-' (show_nat-digits n) refl

joined-no_dash : (n : ℕ) (ns : List ℕ) → find (joined n ns) b'-' ≡ none
unfolding find
joined-no_dash n [] = no_dash n
joined-no_dash n (m ∷ ns) =
    find-both b'-' (show_nat n) (b',' ∷ joined m ns) (no_dash n) (rw (joined-no_dash m ns) refl)

abbrev pub FitsInt : ℕ → Type 0
FitsInt n = n < 2 ^ 31

one_of :
    (value n : ℕ) (ns : List ℕ)
    → All FitsInt (n ∷ ns)
    → (any (λ token. int_is (parse_cron_int token) value) (split b',' (joined n ns)) ≡ true)
      ↔ Any (λ k. k ≡ value) (n ∷ ns)
one_of value n [] h =
    rw (split-none b',' (show_nat n) (no_comma n), parse-show n h.0) (ground arith)
one_of value n (m ∷ ns) h =
    let (p, q) = one_of value m ns h.1 in
    rw (split-append b',' (show_nat n) (joined m ns) (no_comma n), parse-show n h.0)
      (ground (arith, p, q))

-- A field that is one numeral or a list "a,b,c" of them matches exactly the values listed. All of
-- them fit an int.
pub list_iff :
    (value least greatest n : ℕ) (ns : List ℕ)
    → All FitsInt (n ∷ ns)
    → (cron_field_matches (joined n ns) value least greatest ≡ true) ↔ Any (λ k. k ≡ value) (n ∷ ns)
unfolding cron_field_matches
list_iff value least greatest n [] h =
    let (p, q) = show-front n [] in
    let e = append-nil (show_nat n) in
    rw (rw e at p, rw e at q, no_dash n, no_comma n, parse-show n h.0) (ground arith)
list_iff value least greatest n (m ∷ ns) h =
    let (p, q) = show-front n (b',' ∷ joined m ns) in
    let f = find-append b',' (show_nat n) (joined m ns) (no_comma n) in
    rw (p, q, joined-no_dash n (m ∷ ns), f) (one_of value n (m ∷ ns) h)
