-- ===== src/UiaDebugger.antt =====
-- src/platform/uia/UIADebugger.cpp: how a line of commands is taken apart.
pub mod Quoting
pub mod Joining
pub mod Segments
use win_bot.Base.{
  ℕ, ◌+◌, ◌^◌, Text, text, text_eq, is_empty, starts_with, ends_with, is_digit, Bool, true, false,
  not, ◌&&◌, ◌||◌, Option, none, some, List, [], ◌∷◌, ◌++◌, map, all, drop, length, ℤ, pos, negsuc,
  ◌==◌, if◌then◌else◌,
}
use win_bot.Scheduler.{numeral, negative, bounded}

abbrev pub quote : ℕ
quote = b'"'

abbrev pub backslash : ℕ
backslash = b'\\'

-- The loops over a text take a backslash and the quote behind it as one piece.
pub data Piece : Type 0 where
  escaped : Piece
  plain : ℕ → Piece

unfoldable pub after_backslash : List Piece → List Piece
after_backslash [] = plain backslash ∷ []
after_backslash (escaped ∷ ps) = plain backslash ∷ escaped ∷ ps
after_backslash (plain c ∷ ps) = if c == quote then escaped ∷ ps else plain backslash ∷ plain c ∷ ps

unfoldable pub pieces : Text → List Piece
unfolding after_backslash
pieces [] = []
pieces (c ∷ s) =
    let rest = pieces s in if c == backslash then after_backslash rest else plain c ∷ rest

-- " \t\n\r" and " \t"
abbrev pub is_white : ℕ → Bool
is_white c = c == b' ' || c == b'\t' || c == b'\n' || c == b'\r'

abbrev pub is_blank : ℕ → Bool
is_blank c = c == b' ' || c == b'\t'

-- The text between find_first_not_of and find_last_not_of.
module _ (skips : ℕ → Bool) where
  unfoldable pub trim_front : Text → Text
  trim_front [] = []
  trim_front (c ∷ s) = let rest = trim_front s in if skips c then rest else c ∷ s

  unfoldable pub trim_back : Text → Text
  trim_back [] = []
  trim_back (c ∷ s) = let rest = trim_back s in if is_empty rest && skips c then [] else c ∷ rest

  unfoldable pub trim : Text → Text
  unfolding trim_front trim_back
  trim s = trim_back (trim_front s)

-- pop_back
unfoldable pub drop_last : Text → Text
drop_last [] = []
drop_last (c ∷ s) = let rest = drop_last s in if is_empty s then [] else c ∷ rest

unfoldable pub strip_pair : Text → Text
unfolding drop_last ends_with
strip_pair [] = []
strip_pair (c ∷ s) = if c == quote && ends_with s (quote ∷ []) then drop_last s else c ∷ s

unfoldable pub unescaped : List Piece → Text
unescaped [] = []
unescaped (escaped ∷ ps) = quote ∷ unescaped ps
unescaped (plain c ∷ ps) = c ∷ unescaped ps

-- stripQuotes
unfoldable pub strip_quotes : Text → Text
unfolding trim strip_pair unescaped pieces
strip_quotes s = unescaped (pieces (strip_pair (trim is_white s)))

unfoldable pub drop_parentheses : Text → Text
unfolding drop_last ends_with
drop_parentheses s =
    let inner = if starts_with s (b'(' ∷ []) then drop 1 s else s in
    if ends_with inner (b')' ∷ []) then drop_last inner else inner

-- Whether a quote is open, the part that is read, and those before it.
abbrev pub State : Type 0
State = Bool × Text × List Text

unfoldable pub read_piece : Piece → State → State
unfolding strip_quotes
read_piece escaped (in_quote, current, parts) =
    (in_quote, current ++ (backslash ∷ quote ∷ []), parts)
read_piece (plain c) (in_quote, current, parts) =
    let quoting = if c == quote then not in_quote else in_quote in
    if c == b',' && not quoting
    then (quoting, [], parts ++ (strip_quotes current ∷ []))
    else (quoting, current ++ (c ∷ []), parts)

unfoldable pub read_pieces : List Piece → State → State
unfolding read_piece
read_pieces [] state = state
read_pieces (p ∷ ps) state = read_pieces ps (read_piece p state)

unfoldable pub last_part : State → List Text
unfolding strip_quotes
last_part (in_quote, current, parts) =
    if is_empty current then parts else parts ++ (strip_quotes current ∷ [])

-- The parts of parseCommandArgs.
unfoldable pub split_args : Text → List Text
unfolding read_pieces last_part drop_parentheses pieces
split_args s = last_part (read_pieces (pieces (drop_parentheses s)) (false, [], []))

pub record CommandArgs : Type 0 where
  pub type : Text
  pub name : Text
  pub timeout_ms : ℤ

unfoldable pub leading_digits : Text → Text
leading_digits [] = []
leading_digits (c ∷ s) = let rest = leading_digits s in if is_digit c then c ∷ rest else []

-- std::from_chars into an int; none when it is left as it was.
unfoldable pub from_chars : Text → Option ℤ
unfolding leading_digits numeral
from_chars s =
    if starts_with s (b'-' ∷ [])
    then bounded (2 ^ 31 + 1) negative (numeral (leading_digits (drop 1 s)))
    else bounded (2 ^ 31) pos (numeral (leading_digits s))

abbrev or_zero : Option ℤ → ℤ
or_zero none = pos 0
or_zero (some n) = n

unfoldable pub args_of : List Text → CommandArgs
unfolding from_chars
args_of [] = record { type = []; name = []; timeout_ms = pos 0 }
args_of (a ∷ []) = record { type = []; name = a; timeout_ms = pos 0 }
args_of (a ∷ b ∷ []) =
    if not (is_empty b) && all is_digit b
    then record { type = []; name = a; timeout_ms = or_zero (from_chars b) }
    else record { type = a; name = b; timeout_ms = pos 0 }
args_of (a ∷ b ∷ c ∷ rest) = record { type = a; name = b; timeout_ms = or_zero (from_chars c) }

-- parseCommandArgs
unfoldable pub parse_command_args : Text → CommandArgs
unfolding split_args args_of
parse_command_args s = args_of (split_args s)
