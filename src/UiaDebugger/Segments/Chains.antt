-- ===== src/UiaDebugger/Segments/Chains.antt =====
-- src/platform/uia/UIADebugger.cpp, execSegment: a chain of calls is taken apart at its dots.
use win_bot.Base.{
  ℕ, Text, is_empty, false, List, [], ◌∷◌, ◌++◌, map, append-nil, append_assoc, All, pos, ◌≡◌, refl,
  sym, ◌∙◌, ap, arith,
}
use win_bot.UiaDebugger.{pieces, is_blank, trim, trim_front, trim_back}
use win_bot.UiaDebugger.Quoting.{trim_back-snoc}
use win_bot.UiaDebugger.Joining.{IsClosed, joined, in_parentheses}
use win_bot.UiaDebugger.Segments.{calls, chain_piece, chain_pieces, chain_end, split_chain}
use win_bot.UiaDebugger.Segments.Passing.{
  is_plain, IsPlain, reading, chain_pieces-joined, chain_pieces-name,
}

-- A call: a method's name and its arguments in quotes.
unfoldable pub call : Text × List Text → Text
unfolding in_parentheses joined
call (name, ts) = name ++ in_parentheses (joined ts)

unfoldable pub IsCall : Text × List Text → Type 0
unfolding is_plain
IsCall (name, ts) = (is_empty name ≡ false) × All IsPlain name × All IsClosed ts

unfoldable pub dotted : List (Text × List Text) → Text
unfolding call
dotted [] = []
dotted (k ∷ []) = call k
dotted (k ∷ l ∷ ks) = call k ++ (b'.' ∷ dotted (l ∷ ks))

chain_pieces-call :
    (k : Text × List Text) (rest : Text) (tokens : List Text)
    → IsCall k
    → chain_pieces (pieces (call k ++ rest)) (reading false (pos 0) [] tokens)
      ≡ chain_pieces (pieces rest) (reading false (pos 0) (call k) tokens)
unfolding call in_parentheses IsCall chain_pieces chain_piece pieces
chain_pieces-call (name, ts) rest tokens (nonempty, hn, ht) =
    let args = joined ts in
    ap (λ x. chain_pieces (pieces x) (reading false (pos 0) [] tokens))
      (append_assoc name (b'(' ∷ (args ++ (b')' ∷ []))) rest
        ∙ ap (λ x. name ++ (b'(' ∷ x)) (append_assoc args (b')' ∷ []) rest))
    ∙ chain_pieces-name name [] (b'(' ∷ (args ++ (b')' ∷ rest))) (pos 0) tokens hn
    ∙ chain_pieces-joined ts (name ++ (b'(' ∷ [])) (b')' ∷ rest) (pos 1) tokens ht
    ∙ ap (λ x. chain_pieces (pieces rest) (reading false (pos 0) x tokens))
        (append_assoc (name ++ (b'(' ∷ [])) args (b')' ∷ [])
          ∙ append_assoc name (b'(' ∷ []) (args ++ (b')' ∷ [])))

plain_not_blank : (c : ℕ) → IsPlain c → is_blank c ≡ false
unfolding is_plain
plain_not_blank c h = ground (arith, h)

-- Trimming leaves a call as it is.
trim-call : (k : Text × List Text) → IsCall k → trim is_blank (call k) ≡ call k
unfolding trim trim_front call in_parentheses IsCall
trim-call ([], ts) (nonempty, hn, ht) = ground (arith, nonempty)
trim-call (c ∷ name, ts) (nonempty, (h, hn), ht) =
    let whole = c ∷ (name ++ (b'(' ∷ joined ts)) in
    let snoc : whole ++ (b')' ∷ []) ≡ call (c ∷ name, ts) =
      append_assoc (c ∷ name) (b'(' ∷ joined ts) (b')' ∷ []) in
    rw (plain_not_blank c h)
      (ap (trim_back is_blank) (sym snoc) ∙ trim_back-snoc is_blank whole b')' refl ∙ snoc)

call_nonempty : (k : Text × List Text) → IsCall k → is_empty (call k) ≡ false
unfolding call IsCall
call_nonempty ([], ts) (nonempty, hn, ht) = ground (arith, nonempty)
call_nonempty (c ∷ name, ts) h = refl

chain_pieces-dot :
    (k : Text × List Text) (rest : Text) (tokens : List Text)
    → IsCall k
    → chain_pieces (pieces (b'.' ∷ rest)) (reading false (pos 0) (call k) tokens)
      ≡ chain_pieces (pieces rest) (reading false (pos 0) [] (tokens ++ (call k ∷ [])))
unfolding chain_pieces chain_piece pieces
chain_pieces-dot k rest tokens h = rw (trim-call k h, call_nonempty k h) refl

chain_end-call :
    (cmd : Text) (k : Text × List Text) (tokens : List Text)
    → IsCall k
    → chain_end cmd (reading false (pos 0) (call k) tokens) ≡ calls (tokens ++ (call k ∷ []))
unfolding chain_end
chain_end-call cmd k tokens h = rw (trim-call k h, call_nonempty k h) refl

split_from :
    (cmd : Text) (k : Text × List Text) (ks : List (Text × List Text)) (tokens : List Text)
    → All IsCall (k ∷ ks)
    → chain_end cmd (chain_pieces (pieces (dotted (k ∷ ks))) (reading false (pos 0) [] tokens))
      ≡ calls (tokens ++ map call (k ∷ ks))
unfolding dotted pieces chain_pieces
split_from cmd k [] tokens (h, none_left) =
    ap (λ x. chain_end cmd (chain_pieces (pieces x) (reading false (pos 0) [] tokens)))
      (sym (append-nil (call k)))
    ∙ ap (chain_end cmd) (chain_pieces-call k [] tokens h)
    ∙ chain_end-call cmd k tokens h
split_from cmd k (l ∷ ks) tokens (h, hs) =
    ap (chain_end cmd) (chain_pieces-call k (b'.' ∷ dotted (l ∷ ks)) tokens h)
    ∙ ap (chain_end cmd) (chain_pieces-dot k (dotted (l ∷ ks)) tokens h)
    ∙ split_from cmd l ks (tokens ++ (call k ∷ [])) hs
    ∙ ap calls (append_assoc tokens (call k ∷ []) (map call (l ∷ ks)))

-- A chain of calls with dots between them is taken apart into these calls, whatever dots, parentheses,
-- commas and quotes their arguments hold. A method's name is not empty and has no character that the
-- splitting looks at; the arguments are in quotes, and none ends in a backslash.
pub split_chain-dotted :
    (k : Text × List Text) (ks : List (Text × List Text))
    → All IsCall (k ∷ ks)
    → split_chain (dotted (k ∷ ks)) ≡ calls (map call (k ∷ ks))
unfolding split_chain
split_chain-dotted k ks h = split_from (dotted (k ∷ ks)) k ks [] h
