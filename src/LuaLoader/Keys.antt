-- ===== src/LuaLoader/Keys.antt =====
-- Maps whose keys are distinct, as those of std::unordered_map are.
use win_bot.Base.{
  ◌+◌, Text, text_eq, text_eq_refl, text_eq_iff, text_eq_sym, true, Bool-cases, none, is_some, [],
  ◌∷◌, length, Map, lookup, insert, erase, lookup-insert, lookup-erase, ◌≡◌, refl, ap, arith, inl,
  inr,
}

module _ {V : Type 0} where
  abbrev pub Distinct : Map V → Type 0
  Distinct [] = Unit
  Distinct ((k, v) ∷ m) = (lookup k m ≡ none) × Distinct m

  pub insert-Distinct : (k : Text) (v : V) (m : Map V) → Distinct m → Distinct (insert k v m)
  unfolding insert lookup
  insert-Distinct k v [] h = (refl, tt)
  insert-Distinct k v ((j, w) ∷ m) h = elim (Bool-cases (text_eq j k)) [
    | inl e ↦ rw e (rw ((text_eq_iff j k).0 e) at h.0, h.1)
    | inr e ↦
        rw e (rw (lookup-insert k j v m) (rw (text_eq_sym k j, e) h.0), insert-Distinct k v m h.1)
  ]

  pub erase-Distinct : (k : Text) (m : Map V) → Distinct m → Distinct (erase k m)
  unfolding erase
  erase-Distinct k [] h = tt
  erase-Distinct k ((j, w) ∷ m) h = elim (Bool-cases (text_eq j k)) [
    | inl e ↦ rw e (erase-Distinct k m h.1)
    | inr e ↦ rw e (rw (lookup-erase k j m) (rw (text_eq_sym k j, e) h.0), erase-Distinct k m h.1)
  ]

  pub length-insert_fresh :
      (k : Text) (v : V) (m : Map V) → lookup k m ≡ none → length (insert k v m) ≡ length m + 1
  unfolding insert lookup
  length-insert_fresh k v [] h = refl
  length-insert_fresh k v ((j, w) ∷ m) h = ground (arith, length-insert_fresh k v m)

  -- Erasing a key that is not there changes nothing.
  erase_absent : (k : Text) (m : Map V) → lookup k m ≡ none → erase k m ≡ m
  unfolding erase lookup
  erase_absent k [] h = refl
  erase_absent k ((j, w) ∷ m) h = elim (Bool-cases (text_eq j k)) [
    | inl e ↦ absurd (ground arith)
    | inr e ↦ rw e (ap (λ l. (j, w) ∷ l) (erase_absent k m (rw e at h)))
  ]

  length-erase :
      (k : Text) (m : Map V)
      → Distinct m
      → is_some (lookup k m) ≡ true
      → length m ≡ length (erase k m) + 1
  unfolding erase lookup
  length-erase k [] d h = absurd (ground arith)
  length-erase k ((j, w) ∷ m) d h = elim (Bool-cases (text_eq j k)) [
    | inl e ↦
        let a = erase_absent k m (rw ((text_eq_iff j k).0 e) at d.0) in rw e (rw a (omega arith))
    | inr e ↦ let r = length-erase k m d.1 (rw e at h) in rw e (omega arith)
  ]

  -- Maps with the same keys are of one length.
  pub length_same :
      (m m' : Map V)
      → Distinct m
      → Distinct m'
      → ((k : Text) → is_some (lookup k m) ≡ is_some (lookup k m'))
      → length m ≡ length m'
  unfolding lookup
  length_same [] [] d d' h = refl
  length_same [] ((k, v) ∷ m') d d' h = absurd (let p = h k in ground (arith, text_eq_refl k))
  length_same ((k, v) ∷ m) m' d d' h =
      let p = h k in
      let q : is_some (lookup k m') ≡ true = ground (arith, text_eq_refl k) in
      let l = length-erase k m' d' q in
      let r = length_same m (erase k m') d.1 (erase-Distinct k m' d') (λ j. same j) in omega arith
    where
      same : (j : Text) → is_some (lookup j m) ≡ is_some (lookup j (erase k m'))
      same j = elim (Bool-cases (text_eq k j)) [
        | inl e ↦ rw (lookup-erase k j m', e) (rw ((text_eq_iff k j).0 e) at (ap is_some d.0))
        | inr e ↦ rw (lookup-erase k j m', e) (rw e at (h j))
      ]
