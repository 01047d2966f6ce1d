-- ===== src/Tests/UiaDebugger.antt =====
-- src/platform/uia/UIADebugger.cpp at short commands.
use win_bot.Base.{
  Text, text, text_eq, starts_with, ends_with, find, lookup, value_from, List, [], ◌∷◌, map, pos,
  ◌≡◌, refl,
}
use win_bot.Scheduler.{split, numeral}
use win_bot.UiaDebugger.{
  parse_command_args, split_args, args_of, from_chars, leading_digits, last_part, read_pieces,
  read_piece, drop_parentheses, drop_last, pieces, after_backslash, strip_quotes, strip_pair,
  unescaped, trim, trim_front, trim_back,
}
use win_bot.UiaDebugger.Quoting.{escape, quoted}
use win_bot.UiaDebugger.Joining.{IsClosed, joined, in_parentheses, split_args-joined}
use win_bot.UiaDebugger.Segments.{calls, split_chain, split_call, with_alias, top_method_aliases}
use win_bot.UiaDebugger.Segments.Passing.{is_plain}
use win_bot.UiaDebugger.Segments.Chains.{IsCall, call, dotted, split_chain-dotted}

split_args-joined_example :
    split_args (in_parentheses (joined (text "Button" ∷ text "Save \"a, b\"" ∷ [])))
    ≡ text "Button" ∷ text "Save \"a, b\"" ∷ []
unfolding IsClosed ends_with text text_eq
split_args-joined_example =
    split_args-joined (text "Button" ∷ text "Save \"a, b\"" ∷ []) (refl, (refl, tt))

abbrev select : Text × List Text
select = (text "Select", text "Notes v1.2" ∷ [])

abbrev click : Text × List Text
click = (text "Click", text "Button" ∷ text "Save (all)" ∷ [])

split_chain-dotted_example :
    split_chain (dotted (select ∷ click ∷ [])) ≡ calls (map call (select ∷ click ∷ []))
unfolding IsCall IsClosed ends_with is_plain text text_eq
split_chain-dotted_example = split_chain-dotted select (click ∷ []) (
  (refl, (refl, (refl, (refl, (refl, (refl, (refl, tt)))))), (refl, tt)),
  ((refl, (refl, (refl, (refl, (refl, (refl, tt))))), (refl, (refl, tt))), tt),
)

-- The calls are those that are written.
written : dotted (select ∷ []) ≡ text "Select(\"Notes v1.2\")"
unfolding dotted call in_parentheses joined quoted escape text
written = refl

-- A semicolon in quotes ends the segment.
semicolon : split b';' (text "Type(\"a;b\")") ≡ text "Type(\"a" ∷ text "b\")" ∷ []
unfolding split text
semicolon = refl

-- A numeral behind a comma is a timeout.
comma_is_timeout :
    parse_command_args (text "(100, 200)")
    ≡ record { type = []; name = text "100"; timeout_ms = pos 200 }
unfolding parse_command_args split_args args_of from_chars leading_digits numeral value_from
    last_part read_pieces read_piece drop_parentheses drop_last pieces after_backslash strip_quotes
    strip_pair unescaped trim trim_front trim_back starts_with ends_with text text_eq
comma_is_timeout = refl

-- A backslash in front of the last quote of a text keeps the quote open.
open_quote : split_args (text "(\"C:\\\",\"b\")") ≡ text "C:\",\"b" ∷ []
unfolding split_args last_part read_pieces read_piece drop_parentheses drop_last pieces
    after_backslash strip_quotes strip_pair unescaped trim trim_front trim_back starts_with
    ends_with text text_eq
open_quote = refl

alias : with_alias top_method_aliases (text "gettext") ≡ text "Text"
unfolding with_alias top_method_aliases lookup text text_eq
alias = refl

call_parts : split_call (text "Wait ( 500 )") ≡ (text "Wait", text " 500")
unfolding split_call find trim_back ends_with drop_last text text_eq
call_parts = refl
