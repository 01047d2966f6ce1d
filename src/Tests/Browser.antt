-- ===== src/Tests/Browser.antt =====
-- src/platform/browser/BrowserAutomation.cpp at a small page.
use win_bot.Base.{
  ℕ, Text, text, text_eq, ◌++◌, Bool, true, false, Option, none, some, List, [], ◌∷◌, ℤ, pos,
  Outcome, returned, threw, ok, if◌then◌else◌, ◌==◌, leb, starts_with, ◌≡◌, ◌≢◌, refl,
}
use win_bot.Json.{JsonApi}
use win_bot.Browser.{
  Turn, last, BrowserAutomation, Socket, result, give, send_cdp_command, send_command, ws_send,
  await_after, await_reply, on_received, is_late, ws_receive, examine, ignoring, reply_of,
  answer_of, command_of,
}
use win_bot.Browser.Commands.{Pointer, key_event, eval_js, type_into, is_past, wait_for_selector}
use win_bot.Browser.Clicking.{click_js, click_selector}
use win_bot.Browser.Answering.{
  unparsed, unnumbered, says_result, Carries, Skipped, Answers, first_answer_taken,
}
use win_bot.Browser.Ending.{Ended, runs_out, received_whole}
use win_bot.Browser.Calls.{browser_calls_end}
use win_bot.Browser.Pointing.{pointer_never_moved}
use win_bot.Browser.Typing.{non_ascii_not_typed}
use win_bot.Browser.Connecting.{
  collect, connect_to_page, fetch_page_list, parsed_list, path_of, find_page, from_first,
  open_socket, dialled, upgraded, launch_and_connect, Dial, body, new_browser,
}
use win_bot.Tests.JsonValue.{
  Value, null, int, string, array, object, get, to_fields, to_items, value_api,
}

abbrev rv : Value
rv = object (to_fields ((text "value", string (text "null")) ∷ []))

abbrev reply : Value
reply = object (to_fields ((text "result", rv) ∷ []))

abbrev page : Value
page = object (
    to_fields (
      (text "type", string (text "page"))
      ∷ (text "webSocketDebuggerUrl", string (text "ws://x/devtools/page/1"))
      ∷ []))

-- The messages of the tests, and the text "null" with its quotes.
abbrev parse : Text → Outcome Value
parse s =
    if text_eq s (text "one")
    then returned (object (to_fields ((text "id", int (pos 1)) ∷ (text "result", reply) ∷ [])))
    else if text_eq s (text "event")
    then returned (object (to_fields ((text "method", string (text "Page.load")) ∷ [])))
    else if text_eq s (text "list")
    then returned (array (to_items (page ∷ [])))
    else if text_eq s (text "\"null\"")
    then returned (string (text "null"))
    else threw (text "parse error")

-- A printer that refuses a key beyond ASCII.
abbrev print_key : Option Value → Outcome Text
print_key (some (string (c ∷ cs))) =
    if leb 128 c then threw (text "invalid UTF-8") else returned (text "{}")
print_key _ = returned (text "{}")

abbrev print_params : Option Value → Outcome Text
print_params none = returned (text "{}")
print_params (some params) = print_key (get params (text "text"))

abbrev print : Value → Outcome Text
print (string s) = returned (text "\"" ++ s ++ text "\"")
print v = print_params (get v (text "params"))

abbrev api : JsonApi Value
api = value_api parse print

abbrev equals_int : Value → ℤ → Bool
equals_int (int (pos n)) (pos m) = n == m
equals_int _ _ = false

abbrev get_int : Value → Outcome ℤ
get_int (int n) = returned n
get_int _ = threw (text "type_error")

abbrev late : Turn
late = record { elapsed = 11000000000; receipts = [] }

abbrev at_once : Text → Turn
at_once s = record { elapsed = 0; receipts = last s ∷ [] }

-- What comes after each message that is sent.
abbrev World : Type 0
World = List (List Turn)

abbrev turns_of : World → List Turn × World
turns_of [] = (late ∷ [], [])
turns_of (turns ∷ w) = (turns, w)

abbrev socket : Socket World
socket = record { send = λ w content. (true, w); turns = turns_of }

-- A socket whose waits all run out.
abbrev silent : Socket World
silent = record { send = λ w content. (true, w); turns = λ w. (late ∷ [], w) }

abbrev pointer : Pointer World
pointer = record { handler = none; set_cursor_pos = λ x y w. [] }

abbrev answered : World
answered = (at_once (text "event") ∷ at_once (text "one") ∷ []) ∷ []

abbrev connected : World → BrowserAutomation World
connected w = record { connected = true; has_socket = true; msg_id = 1; world = w }

abbrev dial : Dial World
dial = record {
  fetch = λ w. (body (some (text "li") ∷ none ∷ some (text "st") ∷ []), w);
  connect = λ w. (true, w);
  upgrade = λ w path. (true, w);
  launch = λ w exe. w;
}

-- The constructor finds the page.
connects : (new_browser api dial true [] answered) ≡ (returned tt, connected answered)
unfolding new_browser connect_to_page fetch_page_list parsed_list collect path_of find_page
    from_first open_socket dialled upgraded launch_and_connect starts_with text text_eq
connects = refl

abbrev noisy : World
noisy = (at_once (text "noise") ∷ at_once (text "event") ∷ at_once (text "one") ∷ []) ∷ []

abbrev one : Value
one = object (to_fields ((text "id", int (pos 1)) ∷ (text "result", reply) ∷ []))

one-Carries : Carries api equals_int 1 (text "one") (result reply)
unfolding text text_eq
one-Carries = record {
  response = one;
  number = int (pos 1);
  parsed = refl;
  numbered = refl;
  read = refl;
  equal = refl;
  says = says_result reply refl refl;
}

first_answer_taken_example :
    send_cdp_command api equals_int socket (text "Page.enable") null (connected noisy)
    ≡ give (result reply) (record (connected noisy) { msg_id = 2; world = [] })
unfolding text text_eq send_cdp_command send_command ws_send await_after await_reply on_received
    is_late ws_receive examine ignoring reply_of answer_of command_of Skipped Answers
first_answer_taken_example =
    first_answer_taken api equals_int socket (text "Page.enable") (text "{}") null (connected noisy)
      noisy [] (at_once (text "noise") ∷ at_once (text "event") ∷ []) [] (at_once (text "one"))
      (result reply) refl refl refl refl refl
      (
        (refl, text "noise", refl, unparsed (text "parse error") refl),
        (
          (
            refl,
            text "event",
            refl,
            unnumbered (object (to_fields ((text "method", string (text "Page.load")) ∷ []))) refl
                refl,
          ),
          tt,
        ),
      )
      (refl, text "one", refl, one-Carries)

browser_calls_end_example :
    Ended (type_into api equals_int silent (text "#a") (text "hi") (connected []))
    × Ended (click_selector api get_int pointer equals_int silent (text "#a") (connected []))
    × Ended (
        wait_for_selector api equals_int silent
          (text "#a")
          (pos 300)
          (200 ∷ 400 ∷ [])
          (connected []))
unfolding is_past runs_out received_whole is_late
browser_calls_end_example =
    browser_calls_end api equals_int silent (λ w. refl) (text "#a") (text "hi") get_int pointer
      (pos 300) (200 ∷ 400 ∷ []) (connected []) refl

pointer_never_moved_example :
    click_selector api get_int pointer equals_int socket (text "#a") (connected answered)
    ≡ eval_js api equals_int socket
        (click_js (text "\"#a\""))
        (record (connected answered) { msg_id = 2; world = [] })
unfolding text text_eq send_cdp_command send_command ws_send await_after await_reply on_received
    is_late ws_receive examine ignoring reply_of answer_of command_of
pointer_never_moved_example =
    pointer_never_moved api get_int pointer equals_int socket (text "#a") (text "\"#a\"")
      (text "null") (text "\"null\"") reply rv (connected answered)
      (record (connected answered) { msg_id = 2; world = [] }) refl refl refl refl refl refl refl
      refl

rejects :
    (id c : ℕ)
    → leb 128 c ≡ true
    → (what : Text) × (api.dump
          (command_of api equals_int socket id (text "Input.dispatchKeyEvent") (key_event api c))
        ≡ threw what)
unfolding command_of key_event text text_eq
rejects id c h = (text "invalid UTF-8", rw h refl)

non_ascii_not_typed_example :
    type_into api equals_int socket (text "#a") (195 ∷ 169 ∷ []) (connected answered)
    ≢ (some (returned (ok (text "Typed"))), connected [])
non_ascii_not_typed_example =
    non_ascii_not_typed api equals_int socket rejects (text "#a") (195 ∷ 169 ∷ []) (text "Typed")
      (connected answered) (connected []) refl
