-- ===== src/InputTools/KeyMap.antt =====
-- src/tools/InputTools.cpp: the search in kKeyMap finds what a search through all entries finds.
use win_bot.Base.{
  Text, text, text_eq, text_eq_iff, Bool, true, false, ◌&&◌, not, Bool-cases, &&_parts, none, [],
  ◌∷◌, lookup, ◌≡◌, refl, inl, inr, arith, text_eq_sym, ◌∙◌,
}
use win_bot.InputTools.Keyboard.{KeyTable, key_map, text_ltb, lower_bound, find_key}

text_ltb_irrefl : (s : Text) → text_ltb s s ≡ false
unfolding text_ltb
text_ltb_irrefl [] = refl
text_ltb_irrefl (x ∷ s) = ground (arith, text_ltb_irrefl s)

text_ltb_differ : (s t : Text) → text_ltb s t ≡ true → text_eq s t ≡ false
text_ltb_differ s t h = elim (Bool-cases (text_eq s t)) [
  | inr e ↦ e
  | inl e ↦
      absurd (let p = (text_eq_iff s t).0 e in let q = text_ltb_irrefl t in let d = rw p at h in cc)
]

text_ltb_total : (s t : Text) → text_ltb s t ≡ false → text_eq s t ≡ false → text_ltb t s ≡ true
unfolding text_ltb text_eq
text_ltb_total [] [] h n = absurd cc
text_ltb_total [] (y ∷ t) h n = absurd cc
text_ltb_total (x ∷ s) [] h n = refl
text_ltb_total (x ∷ s) (y ∷ t) h n = ground (arith, text_ltb_total s t)

-- What is below a text is below all that are not below it.
text_ltb_trans : (r s t : Text) → text_ltb r s ≡ true → text_ltb t s ≡ false → text_ltb r t ≡ true
unfolding text_ltb
text_ltb_trans r [] t a b = absurd cc
text_ltb_trans r (y ∷ s) [] a b = absurd cc
text_ltb_trans [] (y ∷ s) (z ∷ t) a b = refl
text_ltb_trans (x ∷ r) (y ∷ s) (z ∷ t) a b = ground (arith, text_ltb_trans r s t)

-- std::ranges::is_sorted by the names
is_sorted_from : Text → KeyTable → Bool
unfolding text_ltb
is_sorted_from first [] = true
is_sorted_from first ((name, vk) ∷ table) = not (text_ltb name first) && is_sorted_from name table

is_sorted : KeyTable → Bool
unfolding is_sorted_from
is_sorted [] = true
is_sorted ((name, vk) ∷ table) = is_sorted_from name table

is_sorted_rest :
    (name : Text) (table : KeyTable) → is_sorted_from name table ≡ true → is_sorted table ≡ true
unfolding is_sorted is_sorted_from
is_sorted_rest name [] h = refl
is_sorted_rest name ((k, vk) ∷ table) h =
    (&&_parts (not (text_ltb k name)) (is_sorted_from k table) h).1

lookup_below :
    (token first : Text) (table : KeyTable)
    → text_ltb token first ≡ true
    → is_sorted_from first table ≡ true
    → lookup token table ≡ none
unfolding lookup is_sorted_from
lookup_below token first [] h s = refl
lookup_below token first ((name, vk) ∷ table) h s =
    let (a, b) = &&_parts (not (text_ltb name first)) (is_sorted_from name table) s in
    let c = text_ltb_trans token first name h (ground arith) in
    let n = text_eq_sym name token ∙ text_ltb_differ token name c in
    rw n (lookup_below token name table c b)

-- In a table that is sorted by its names, lower_bound and the test of the name find the same code
-- for a token as a search through all the entries.
find_key-sorted :
    (table : KeyTable) (token : Text)
    → is_sorted table ≡ true
    → find_key table token ≡ lookup token table
unfolding find_key lower_bound lookup is_sorted
find_key-sorted [] token h = refl
find_key-sorted ((name, vk) ∷ table) token h = elim (Bool-cases (text_ltb name token)) [
  | inl e ↦ rw e (
      rw (text_ltb_differ name token e) (find_key-sorted table token (is_sorted_rest name table h)))
  | inr e ↦ elim (Bool-cases (text_eq name token)) [
    | inl f ↦ rw e (rw f refl)
    | inr f ↦ rw e (
        rw f (let g = lookup_below token name table (text_ltb_total name token e f) h in rw g refl))
  ]
]

key_map_sorted : is_sorted key_map ≡ true
unfolding is_sorted key_map text
key_map_sorted = refl

-- The code that keyPress finds for a token is the one that kKeyMap lists for it, or none where it
-- lists none: its binary search misses no entry.
pub find_key-key_map : (token : Text) → find_key key_map token ≡ lookup token key_map
find_key-key_map token = find_key-sorted key_map token key_map_sorted
