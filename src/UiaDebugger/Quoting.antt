-- ===== src/UiaDebugger/Quoting.antt =====
-- src/platform/uia/UIADebugger.cpp, stripQuotes: a text in quotes is read back.
use win_bot.Base.{
  ℕ, Text, is_empty, ends_with-append, Bool, false, [], ◌∷◌, ◌++◌, map, ◌==◌, ◌≡◌, refl, arith,
  if◌then◌else◌,
}
use win_bot.UiaDebugger.{
  quote, backslash, Piece, escaped, plain, after_backslash, pieces, is_white, trim, trim_front,
  trim_back, drop_last, strip_pair, unescaped, strip_quotes,
}

-- How a text is written in a command: in quotes, with a backslash before each quote in it.
unfoldable pub escape : Text → Text
escape [] = []
escape (c ∷ s) = let rest = escape s in if c == quote then backslash ∷ quote ∷ rest else c ∷ rest

unfoldable pub quoted : Text → Text
unfolding escape
quoted s = quote ∷ (escape s ++ (quote ∷ []))

unfoldable pub piece_of : ℕ → Piece
piece_of c = if c == quote then escaped else plain c

after_backslash-literal :
    (s : Text) → after_backslash (map piece_of s) ≡ plain backslash ∷ map piece_of s
unfolding after_backslash piece_of
after_backslash-literal [] = refl
after_backslash-literal (c ∷ s) = ground arith

pieces-escape : (s : Text) → pieces (escape s) ≡ map piece_of s
unfolding pieces escape piece_of
pieces-escape [] = refl
pieces-escape (c ∷ s) = ground (arith, pieces-escape s, after_backslash-literal s)

unescaped-literal : (s : Text) → unescaped (map piece_of s) ≡ s
unfolding unescaped piece_of
unescaped-literal [] = refl
unescaped-literal (c ∷ s) = ground (arith, unescaped-literal s)

is_empty-snoc : (s : Text) (c : ℕ) → is_empty (s ++ (c ∷ [])) ≡ false
is_empty-snoc [] c = refl
is_empty-snoc (d ∷ s) c = refl

pub trim_back-snoc :
    (skips : ℕ → Bool) (s : Text) (c : ℕ)
    → skips c ≡ false
    → trim_back skips (s ++ (c ∷ [])) ≡ s ++ (c ∷ [])
unfolding trim_back
trim_back-snoc skips [] c h = rw h refl
trim_back-snoc skips (d ∷ s) c h = rw (trim_back-snoc skips s c h, is_empty-snoc s c) refl

pub drop_last-snoc : (s : Text) (c : ℕ) → drop_last (s ++ (c ∷ [])) ≡ s
unfolding drop_last
drop_last-snoc [] c = refl
drop_last-snoc (d ∷ s) c = ground (arith, drop_last-snoc s c)

-- Trimming leaves what begins and ends with a quote.
trim-quoted : (s : Text) → trim is_white (quoted s) ≡ quoted s
unfolding trim trim_front quoted
trim-quoted s = trim_back-snoc is_white (quote ∷ escape s) quote refl

strip_pair-quoted : (s : Text) → strip_pair (quoted s) ≡ escape s
unfolding strip_pair quoted
strip_pair-quoted s =
    rw (ends_with-append (escape s) (quote ∷ [])) (drop_last-snoc (escape s) quote)

-- A text that is written in quotes, each quote in it behind a backslash, is read back as it is,
-- whatever it holds.
pub strip_quotes-quoted : (s : Text) → strip_quotes (quoted s) ≡ s
unfolding strip_quotes
strip_quotes-quoted s =
    rw (trim-quoted s, strip_pair-quoted s, pieces-escape s) (unescaped-literal s)
