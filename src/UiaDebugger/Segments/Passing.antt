-- ===== src/UiaDebugger/Segments/Passing.antt =====
-- src/platform/uia/UIADebugger.cpp, execSegment: names and arguments in quotes are passed over.
use win_bot.Base.{
  ℕ, Text, Bool, true, false, not, ◌||◌, List, [], ◌∷◌, ◌++◌, map, append-nil, append_assoc, All, ℤ,
  ◌==◌, ◌≡◌, refl, sym, ◌∙◌, ap, arith, Bool-cases, inl, inr,
}
use win_bot.UiaDebugger.{quote, backslash, Piece, plain, pieces}
use win_bot.UiaDebugger.Quoting.{escape, quoted, piece_of}
use win_bot.UiaDebugger.Joining.{IsClosed, joined, pieces-escape-quote}
use win_bot.UiaDebugger.Segments.{Reading, chain_piece, chain_pieces}

-- A character of a method's name: none of those that the splitting looks at.
unfoldable pub is_plain : ℕ → Bool
is_plain c =
    not (
      c == quote
      || c == backslash
      || c == b'.'
      || c == b'('
      || c == b')'
      || c == b' '
      || c == b'\t')

abbrev pub IsPlain : ℕ → Type 0
IsPlain c = is_plain c ≡ true

abbrev pub reading : Bool → ℤ → Text → List Text → Reading
reading in_quote depth current tokens = record {
  in_quote = in_quote;
  depth = depth;
  current = current;
  tokens = tokens;
  dangling = false;
}

chain_piece-plain :
    (c : ℕ) (depth : ℤ) (current : Text) (tokens : List Text)
    → IsPlain c
    → chain_piece (plain c) (reading false depth current tokens)
      ≡ reading false depth (current ++ (c ∷ [])) tokens
unfolding chain_piece is_plain
chain_piece-plain c depth current tokens h =
    let not_quote : (c == quote) ≡ false = ground (arith, h) in
    let not_dot : (c == b'.') ≡ false = ground (arith, h) in
    let not_open : (c == b'(') ≡ false = ground (arith, h) in
    let not_close : (c == b')') ≡ false = ground (arith, h) in
    rw (not_quote, not_dot, not_open, not_close) refl

pieces-plain : (c : ℕ) (s : Text) → IsPlain c → pieces (c ∷ s) ≡ plain c ∷ pieces s
unfolding pieces is_plain
pieces-plain c s h = ground (arith, h)

chain_piece-quoted :
    (c : ℕ) (depth : ℤ) (current : Text) (tokens : List Text)
    → (c == quote) ≡ false
    → chain_piece (plain c) (reading true depth current tokens)
      ≡ reading true depth (current ++ (c ∷ [])) tokens
unfolding chain_piece
chain_piece-quoted c depth current tokens h = elim (Bool-cases (c == b'.')) [
  | inl e ↦ rw (h, e) refl
  | inr e ↦ rw (h, e) refl
]

chain_pieces-literal :
    (s current : Text) (depth : ℤ) (rest : List Piece) (tokens : List Text)
    → chain_pieces (map piece_of s ++ rest) (reading true depth current tokens)
      ≡ chain_pieces rest (reading true depth (current ++ escape s) tokens)
unfolding chain_pieces chain_piece piece_of escape
chain_pieces-literal [] current depth rest tokens = rw (append-nil current) refl
chain_pieces-literal (c ∷ s) current depth rest tokens = elim (Bool-cases (c == quote)) [
  | inl e ↦ rw e (
      chain_pieces-literal s (current ++ (backslash ∷ quote ∷ [])) depth rest tokens
      ∙ ap (λ x. chain_pieces rest (reading true depth x tokens))
          (append_assoc current (backslash ∷ quote ∷ []) (escape s)))
  | inr e ↦
      rw (e, chain_piece-quoted c depth current tokens e)
        (chain_pieces-literal s (current ++ (c ∷ [])) depth rest tokens
          ∙ ap (λ x. chain_pieces rest (reading true depth x tokens))
              (append_assoc current (c ∷ []) (escape s)))
]

chain_pieces-cons :
    (c : ℕ) (current rest : Text) (depth : ℤ) (tokens : List Text)
    → IsPlain c
    → chain_pieces (pieces (c ∷ rest)) (reading false depth current tokens)
      ≡ chain_pieces (pieces rest) (reading false depth (current ++ (c ∷ [])) tokens)
unfolding chain_pieces
chain_pieces-cons c current rest depth tokens h =
    rw (pieces-plain c rest h, chain_piece-plain c depth current tokens h) refl

comma : IsPlain b','
unfolding is_plain
comma = refl

chain_pieces-quoted :
    (s current rest : Text) (depth : ℤ) (tokens : List Text)
    → IsClosed s
    → chain_pieces (pieces (quoted s ++ rest)) (reading false depth current tokens)
      ≡ chain_pieces (pieces rest) (reading false depth (current ++ quoted s) tokens)
unfolding quoted pieces chain_pieces chain_piece
chain_pieces-quoted s current rest depth tokens h =
    rw (append_assoc (escape s) (quote ∷ []) rest, pieces-escape-quote s rest h)
      (chain_pieces-literal s (current ++ (quote ∷ [])) depth (plain quote ∷ pieces rest) tokens
        ∙ ap (λ x. chain_pieces (pieces rest) (reading false depth x tokens))
            (append_assoc (current ++ (quote ∷ [])) (escape s) (quote ∷ [])
              ∙ append_assoc current (quote ∷ []) (escape s ++ (quote ∷ []))))

pub chain_pieces-joined :
    (ts : List Text) (current rest : Text) (depth : ℤ) (tokens : List Text)
    → All IsClosed ts
    → chain_pieces (pieces (joined ts ++ rest)) (reading false depth current tokens)
      ≡ chain_pieces (pieces rest) (reading false depth (current ++ joined ts) tokens)
unfolding joined
chain_pieces-joined [] current rest depth tokens h =
    ap (λ x. chain_pieces (pieces rest) (reading false depth x tokens)) (sym (append-nil current))
chain_pieces-joined (t ∷ []) current rest depth tokens (h, none_left) =
    chain_pieces-quoted t current rest depth tokens h
chain_pieces-joined (t ∷ u ∷ ts) current rest depth tokens (h, hs) =
    let more = joined (u ∷ ts) in
    ap (λ x. chain_pieces (pieces x) (reading false depth current tokens))
      (append_assoc (quoted t) (b',' ∷ more) rest)
    ∙ chain_pieces-quoted t current (b',' ∷ (more ++ rest)) depth tokens h
    ∙ chain_pieces-cons b',' (current ++ quoted t) (more ++ rest) depth tokens comma
    ∙ chain_pieces-joined (u ∷ ts) ((current ++ quoted t) ++ (b',' ∷ [])) rest depth tokens hs
    ∙ ap (λ x. chain_pieces (pieces rest) (reading false depth x tokens))
        (append_assoc (current ++ quoted t) (b',' ∷ []) more
          ∙ append_assoc current (quoted t) (b',' ∷ more))

pub chain_pieces-name :
    (name current rest : Text) (depth : ℤ) (tokens : List Text)
    → All IsPlain name
    → chain_pieces (pieces (name ++ rest)) (reading false depth current tokens)
      ≡ chain_pieces (pieces rest) (reading false depth (current ++ name) tokens)
chain_pieces-name [] current rest depth tokens h =
    ap (λ x. chain_pieces (pieces rest) (reading false depth x tokens)) (sym (append-nil current))
chain_pieces-name (c ∷ name) current rest depth tokens (h, hs) =
    chain_pieces-cons c current (name ++ rest) depth tokens h
    ∙ chain_pieces-name name (current ++ (c ∷ [])) rest depth tokens hs
    ∙ ap (λ x. chain_pieces (pieces rest) (reading false depth x tokens))
        (append_assoc current (c ∷ []) name)
