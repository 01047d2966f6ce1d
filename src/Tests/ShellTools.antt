-- ===== src/Tests/ShellTools.antt =====
-- src/tools/ShellTools.cpp: a command that writes more than is kept.
use win_bot.Base.{
  ℕ, Text, text, Bool, true, false, some, List, [], ◌∷◌, ◌++◌, ok, is_some, show_nat, digits_of,
  find, starts_with, ◌≡◌, refl,
}
use win_bot.ShellTools.Web.{
  Response, url_encode, search_web, next_result, extract_results, strip_tags, find_text, body_of,
  http_get, results_of,
}
use win_bot.ShellTools.Extracting.{search_web_ends}
use win_bot.ShellTools.{Round, Child, run_child}
use win_bot.ShellTools.Draining.{shown, with_exit_code, joined, read_of, GoesOn, run_child_exit}

abbrev round_of : Bool → List Text → ℕ → Round
round_of signaled chunks clock = record {
  stop = false;
  signaled = signaled;
  chunks = chunks;
  clock = clock;
}

abbrev first_round : Round
first_round = round_of false (text "ab" ∷ text "cd" ∷ []) 150

abbrev second_round : Round
second_round = round_of true (text "ef" ∷ []) 220

abbrev child : Child
child = record {
  pipe = true;
  created = true;
  last_error = 0;
  started = 50;
  rounds = first_round ∷ second_round ∷ [];
  flushed = [];
  exit_code = 0;
}

first_round-GoesOn : GoesOn 1050 first_round
unfolding text
first_round-GoesOn = record {
  unstopped = refl;
  running = refl;
  early = refl;
  read = (refl, (refl, tt));
}

run_child_exit_example :
    run_child 5 1000 child
    ≡ some (ok (with_exit_code 0 (shown 5 (read_of (first_round ∷ []) ++ joined (text "ef" ∷ [])))))
unfolding text
run_child_exit_example =
    run_child_exit 5 1000 child (first_round ∷ []) second_round [] refl refl refl
      (first_round-GoesOn, tt) refl refl (refl, tt)

-- Five bytes and the note.
five_kept :
    run_child 5 1000 child
    ≡ some (ok (text "abcde" ++ text "\n[WinBot: output truncated at 4 MiB]"))
unfolding run_child text
five_kept = refl

encoded_run : url_encode (text "a&b c") ≡ text "a%26b%20c"
unfolding url_encode text
encoded_run = refl

abbrev page : Text → Response
page url = record {
  cracked = true;
  session_made = true;
  connection_made = true;
  request_made = true;
  answered = true;
  reads = some (text "<a class=\"result__a\" href=\"x\"><b>One</b> hit</a>") ∷ [];
}

search_web_ends_example : is_some (search_web page (text "one")) ≡ true
search_web_ends_example = search_web_ends page (text "one")

search_run : search_web page (text "one") ≡ some (ok (text "1. One hit\n"))
unfolding search_web results_of http_get body_of extract_results next_result strip_tags find_text
    find starts_with show_nat digits_of text
search_run = refl
