-- ===== src/UiaDebugger/Joining.antt =====
-- src/platform/uia/UIADebugger.cpp, parseCommandArgs: arguments in quotes are read back.
use win_bot.Base.{
  ℕ, Text, ends_with, ends_with-append, starts_with, true, false, List, [], ◌∷◌, ◌++◌, map,
  append-nil, append_assoc, All, text_eq, ◌==◌, ◌≡◌, refl, sym, ◌∙◌, ap, arith, Bool-cases, inl,
  inr,
}
use win_bot.UiaDebugger.{
  quote, backslash, Piece, escaped, plain, after_backslash, pieces, drop_parentheses, read_piece,
  read_pieces, last_part, split_args,
}
use win_bot.UiaDebugger.Quoting.{escape, quoted, piece_of, strip_quotes-quoted, drop_last-snoc}

-- A text that does not end in a backslash.
unfoldable pub IsClosed : Text → Type 0
IsClosed s = ends_with s (backslash ∷ []) ≡ false

unfoldable pub joined : List Text → Text
joined [] = []
joined (t ∷ []) = quoted t
joined (t ∷ u ∷ ts) = quoted t ++ (b',' ∷ joined (u ∷ ts))

unfoldable pub in_parentheses : Text → Text
in_parentheses s = b'(' ∷ (s ++ (b')' ∷ []))

drop_parentheses-in_parentheses : (s : Text) → drop_parentheses (in_parentheses s) ≡ s
unfolding drop_parentheses in_parentheses starts_with
drop_parentheses-in_parentheses s = rw (ends_with-append s (b')' ∷ [])) (drop_last-snoc s b')')

after_backslash-append :
    (c : ℕ) (ps : List Piece)
    → after_backslash (piece_of c ∷ ps) ≡ plain backslash ∷ piece_of c ∷ ps
unfolding after_backslash piece_of
after_backslash-append c ps = ground arith

IsClosed-tail : (c d : ℕ) (s : Text) → IsClosed (c ∷ d ∷ s) → IsClosed (d ∷ s)
unfolding IsClosed ends_with
IsClosed-tail c d s h = ground (arith, h)

pub pieces-cons :
    (c : ℕ) (s : Text)
    → after_backslash (pieces s) ≡ plain backslash ∷ pieces s
    → pieces (c ∷ s) ≡ plain c ∷ pieces s
unfolding pieces
pieces-cons c s h = elim (Bool-cases (c == backslash)) [
  | inl e ↦ rw (e, h) (ap (λ x. plain x ∷ pieces s) (ground (arith, e)))
  | inr e ↦ rw e refl
]

-- The pieces of a text up to the quote that ends it.
pub pieces-escape-quote :
    (s rest : Text)
    → IsClosed s
    → pieces (escape s ++ (quote ∷ rest)) ≡ map piece_of s ++ (plain quote ∷ pieces rest)
unfolding pieces escape IsClosed ends_with piece_of after_backslash text_eq
pieces-escape-quote [] rest h = refl
pieces-escape-quote (c ∷ []) rest h = ground arith
pieces-escape-quote (c ∷ d ∷ s) rest h =
    let tail = pieces-escape-quote (d ∷ s) rest (IsClosed-tail c d s h) in
    elim (Bool-cases (c == quote)) [
      | inl e ↦ rw e (ap (λ ps. escaped ∷ ps) tail)
      | inr e ↦
          let more = after_backslash-append d (map piece_of s ++ (plain quote ∷ pieces rest)) in
          rw e (
            pieces-cons c (escape (d ∷ s) ++ (quote ∷ rest)) (rw tail more)
            ∙ ap (λ ps. plain c ∷ ps) tail)
    ]

read_piece-plain :
    (c : ℕ) (current : Text) (parts : List Text)
    → (c == quote) ≡ false
    → read_piece (plain c) (true, current, parts) ≡ (true, current ++ (c ∷ []), parts)
unfolding read_piece
read_piece-plain c current parts h = elim (Bool-cases (c == b',')) [
  | inl e ↦ rw (h, e) refl
  | inr e ↦ rw (h, e) refl
]

-- Inside a quote nothing separates.
read_pieces-literal :
    (s current : Text) (rest : List Piece) (parts : List Text)
    → read_pieces (map piece_of s ++ rest) (true, current, parts)
      ≡ read_pieces rest (true, current ++ escape s, parts)
unfolding read_pieces read_piece piece_of escape
read_pieces-literal [] current rest parts = rw (append-nil current) refl
read_pieces-literal (c ∷ s) current rest parts = elim (Bool-cases (c == quote)) [
  | inl e ↦ rw e (
      read_pieces-literal s (current ++ (backslash ∷ quote ∷ [])) rest parts
      ∙ ap (λ x. read_pieces rest (true, x, parts))
          (append_assoc current (backslash ∷ quote ∷ []) (escape s)))
  | inr e ↦
      rw (e, read_piece-plain c current parts e)
        (read_pieces-literal s (current ++ (c ∷ [])) rest parts
          ∙ ap (λ x. read_pieces rest (true, x, parts)) (append_assoc current (c ∷ []) (escape s)))
]

-- A text in quotes becomes the current part.
read_pieces-quoted :
    (s rest : Text) (parts : List Text)
    → IsClosed s
    → read_pieces (pieces (quoted s ++ rest)) (false, [], parts)
      ≡ read_pieces (pieces rest) (false, quoted s, parts)
unfolding quoted pieces read_pieces read_piece
read_pieces-quoted s rest parts h =
    rw (append_assoc (escape s) (quote ∷ []) rest, pieces-escape-quote s rest h)
      (read_pieces-literal s (quote ∷ []) (plain quote ∷ pieces rest) parts)

read_joined :
    (ts parts : List Text)
    → All IsClosed ts
    → last_part (read_pieces (pieces (joined ts)) (false, [], parts)) ≡ parts ++ ts
unfolding joined quoted read_pieces read_piece last_part pieces
read_joined [] parts h = sym (append-nil parts)
read_joined (t ∷ []) parts (h, none_left) =
    ap (λ x. last_part (read_pieces (pieces x) (false, [], parts))) (sym (append-nil (quoted t)))
    ∙ ap last_part (read_pieces-quoted t [] parts h)
    ∙ ap (λ x. parts ++ (x ∷ [])) (strip_quotes-quoted t)
read_joined (t ∷ u ∷ ts) parts (h, hs) =
    ap last_part (read_pieces-quoted t (b',' ∷ joined (u ∷ ts)) parts h)
    ∙ ap (λ x. last_part (read_pieces (pieces (joined (u ∷ ts))) (false, [], parts ++ (x ∷ []))))
        (strip_quotes-quoted t)
    ∙ read_joined (u ∷ ts) (parts ++ (t ∷ [])) hs
    ∙ append_assoc parts (t ∷ []) (u ∷ ts)

-- Arguments that are written in quotes, with commas between them and in parentheses, are split into
-- just these texts, whatever commas, quotes and parentheses they hold. None ends in a backslash.
pub split_args-joined :
    (ts : List Text) → All IsClosed ts → split_args (in_parentheses (joined ts)) ≡ ts
unfolding split_args
split_args-joined ts h = rw (drop_parentheses-in_parentheses (joined ts)) (read_joined ts [] h)
