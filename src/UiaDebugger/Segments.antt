-- ===== src/UiaDebugger/Segments.antt =====
-- src/platform/uia/UIADebugger.cpp: a line as segments, a segment as a chain of calls, and the loops
-- that run them. What a segment does is a parameter.
pub mod Running
pub mod Passing
pub mod Chains
use win_bot.Base.{
  ℕ, ◌+◌, Text, text, text_eq, is_empty, starts_with, ends_with, find, Bool, true, false, not, ◌&&◌,
  ◌||◌, Option, none, some, List, [], ◌∷◌, ◌++◌, take, drop, Map, lookup, ℤ, pos, negsuc, zero, suc,
  ◌==◌, if◌then◌else◌,
}
use win_bot.Scheduler.{split}
use win_bot.UiaDebugger.{
  quote, backslash, Piece, escaped, plain, pieces, is_white, is_blank, trim_front, trim_back, trim,
  drop_last,
}

abbrev is_gap : ℕ → Bool
is_gap c = c == b' '

-- The variable that a command assigns, which is empty when it assigns none, and the rest.
unfoldable pub split_assignment : Text → Text × Text
unfolding starts_with find trim_back trim_front
split_assignment cmd =
    if starts_with cmd (b'$' ∷ [])
    then elim (find cmd b'=') [
      | none ↦ ([], cmd)
      | some eq ↦ (trim_back is_gap (take eq cmd), trim_front is_gap (drop (eq + 1) cmd))
    ]
    else ([], cmd)

abbrev pub deeper : ℤ → ℤ
deeper (pos n) = pos (suc n)
deeper (negsuc zero) = pos 0
deeper (negsuc (suc n)) = negsuc n

abbrev pub shallower : ℤ → ℤ
shallower (pos zero) = negsuc 0
shallower (pos (suc n)) = pos n
shallower (negsuc n) = negsuc (suc n)

abbrev pub is_zero : ℤ → Bool
is_zero (pos n) = n == 0
is_zero (negsuc n) = false

-- The loop's variables; `dangling` once it has met a dot with nothing in front.
pub record Reading : Type 0 where
  pub in_quote : Bool
  pub depth : ℤ
  pub current : Text
  pub tokens : List Text
  pub dangling : Bool

abbrev depth_after : Bool → ℕ → ℤ → ℤ
depth_after quoting c depth =
    if quoting
    then depth
    else if c == b'('
    then deeper depth
    else if c == b')'
    then shallower depth
    else depth

abbrev at_dot : Text → Reading → Reading
at_dot trimmed r =
    if is_empty trimmed
    then record r { dangling = true }
    else record r { tokens = r.tokens ++ (trimmed ∷ []); current = [] }

unfoldable pub chain_piece : Piece → Reading → Reading
unfolding trim
chain_piece escaped r = record r { current = r.current ++ (backslash ∷ quote ∷ []) }
chain_piece (plain c) r =
    let quoting = if c == quote then not r.in_quote else r.in_quote in
    let depth = depth_after quoting c r.depth in
    let r' = record r { in_quote = quoting; depth = depth } in
    if c == b'.' && not quoting && is_zero depth
    then at_dot (trim is_blank r.current) r'
    else record r' { current = r.current ++ (c ∷ []) }

unfoldable pub chain_pieces : List Piece → Reading → Reading
unfolding chain_piece
chain_pieces [] r = r
chain_pieces (p ∷ ps) r = if r.dangling then r else chain_pieces ps (chain_piece p r)

abbrev has_tokens : List Text → Bool
has_tokens [] = false
has_tokens (t ∷ ts) = true

-- What a command is split into, or what is reported.
pub data Chain : Type 0 where
  calls : List Text → Chain
  failed : Text → Chain

unfoldable pub chain_end : Text → Reading → Chain
unfolding trim trim_back ends_with
chain_end cmd r =
    let trimmed = trim is_blank r.current in
    if r.dangling
    then failed (text "Syntax error: invalid or dangling dot in '" ++ cmd ++ text "'")
    else if not (is_empty trimmed)
    then calls (r.tokens ++ (trimmed ∷ []))
    else if has_tokens r.tokens && ends_with (trim_back is_blank cmd) (b'.' ∷ [])
    then failed (text "Syntax error: trailing dot in '" ++ cmd ++ text "'")
    else calls r.tokens

abbrev pub at_start : Reading
at_start = record { in_quote = false; depth = pos 0; current = []; tokens = []; dangling = false }

unfoldable pub split_chain : Text → Chain
unfolding chain_pieces chain_end pieces
split_chain cmd = chain_end cmd (chain_pieces (pieces cmd) at_start)

-- The method of a call and its argument.
unfoldable pub split_call : Text → Text × Text
unfolding find trim_back ends_with drop_last
split_call first = elim (find first b'(') [
  | some paren ↦ (
    method_of (trim_back is_white (take paren first)) (take paren first),
    arg_of (trim_back is_white (drop (paren + 1) first)) (drop (paren + 1) first),
  )
  | none ↦ elim (find first b' ') [
    | none ↦ (first, [])
    | some space ↦ (take space first, drop (space + 1) first)
  ]
]
  where
    method_of : Text → Text → Text
    method_of trimmed whole = if is_empty trimmed then whole else trimmed

    arg_of : Text → Text → Text
    arg_of trimmed whole =
        if is_empty trimmed
        then whole
        else if ends_with trimmed (b')' ∷ [])
        then trim_back is_white (drop_last trimmed)
        else trimmed

-- kTopMethodAliases
unfoldable pub top_method_aliases : Map Text
top_method_aliases =
    (text "scan", text "Scan")
    ∷ (text "wait", text "Wait")
    ∷ (text "type", text "Type")
    ∷ (text "key", text "Key")
    ∷ (text "focus", text "Focus")
    ∷ (text "clear", text "Clear")
    ∷ (text "vars", text "Vars")
    ∷ (text "list", text "Vars")
    ∷ (text "select", text "Select")
    ∷ (text "selectwindow", text "SelectWindow")
    ∷ (text "waitselect", text "WaitSelect")
    ∷ (text "waitwindow", text "WaitWindow")
    ∷ (text "waitclick", text "WaitClick")
    ∷ (text "click", text "Click")
    ∷ (text "text", text "Text")
    ∷ (text "gettext", text "Text")
    ∷ (text "value", text "Value")
    ∷ (text "getvalue", text "Value")
    ∷ (text "scanfocus", text "ScanFocus")
    ∷ (text "scanfocused", text "ScanFocus")
    ∷ (text "exit", text "Exit")
    ∷ (text "quit", text "Exit")
    ∷ []

unfoldable pub with_alias : Map Text → Text → Text
unfolding lookup
with_alias aliases method = elim (lookup method aliases) [ none ↦ method | some name ↦ name ]

module _ {S : Type 0} (exec_segment : Text → S → Bool × S) (killed : S → Bool) where
  unfoldable pub exec_segments : List Text → Bool × S → Bool × S
  exec_segments [] (keep_going, s) = (keep_going, s)
  exec_segments (seg ∷ segs) (keep_going, s) =
      if not keep_going || killed s
      then (keep_going, s)
      else exec_segments segs (exec_segment seg s)

  -- execute
  unfoldable pub execute : Text → S → Bool × S
  unfolding exec_segments split
  execute line s = if is_empty line then (true, s) else exec_segments (split b';' line) (true, s)

  -- run, on the lines that std::getline gives; after them it fails. The prompt is left out.
  unfoldable pub run_lines : List Text → Bool × S → Bool × S
  unfolding execute
  run_lines [] (keep_going, s) = (keep_going, s)
  run_lines (line ∷ lines) (keep_going, s) =
      if not keep_going || killed s
      then (keep_going, s)
      else run_lines lines (if is_empty line then (true, s) else execute line s)
