-- ===== src/ShellTools/Web.antt =====
-- src/tools/ShellTools.cpp: httpGet, searchWeb and the tools on them. What WinHTTP does with a URL is
-- a parameter.
use win_bot.Base.{
  ℕ, zero, suc, ◌+◌, ◌-◌, ◌/◌, ◌%◌, Text, text, is_empty, starts_with, find, show_nat, length, take,
  drop, Bool, true, false, ◌&&◌, ◌||◌, not, Option, none, some, List, [], ◌∷◌, ◌++◌, Outcome, ◌>>=◌,
  returned, ToolResult, ok, err, ltb, leb, ◌==◌, if◌then◌else◌,
}
use win_bot.Json.{JsonApi}

pub data Handle : Type 0 where
  session : Handle
  connection : Handle
  request : Handle

pub data HandleCall : Type 0 where
  opened : Handle → HandleCall
  closed : Handle → HandleCall

-- What WinHTTP does for a URL: whether it is parsed, whether the three handles are had, whether the
-- response came, and the reads of the body; a read is none where WinHttpReadData fails.
pub record Response : Type 0 where
  pub cracked : Bool
  pub session_made : Bool
  pub connection_made : Bool
  pub request_made : Bool
  pub answered : Bool
  pub reads : List (Option Text)

unfoldable pub body_of : List (Option Text) → Text → Text
body_of [] body = body
body_of (none ∷ reads) body = body_of reads body
body_of (some bytes ∷ reads) body = body_of reads (body ++ bytes)

-- The result, with the handles that were opened and closed, in this order.
unfoldable pub http_get : Response → ToolResult × List HandleCall
unfolding body_of
http_get r =
    if not r.cracked
    then (err (text "Failed to parse URL"), [])
    else if not r.session_made
    then (err (text "WinHttpOpen failed"), [])
    else if not r.connection_made
    then (err (text "WinHttpConnect failed"), opened session ∷ closed session ∷ [])
    else if not r.request_made
    then (
      err (text "HTTP request failed"),
      opened session ∷ opened connection ∷ closed connection ∷ closed session ∷ [],
    )
    else (
      if r.answered then ok (body_of r.reads []) else err (text "HTTP request failed"),
      opened session
          ∷ opened connection
          ∷ opened request
          ∷ closed request
          ∷ closed connection
          ∷ closed session
          ∷ [],
    )

-- std::isalnum in the "C" locale, and the four other characters that stand for themselves
abbrev pub is_unreserved : ℕ → Bool
is_unreserved c =
    (leb b'0' c && leb c b'9')
    || ((leb b'A' c && leb c b'Z')
        || ((leb b'a' c && leb c b'z') || (c == b'-' || (c == b'_' || (c == b'.' || c == b'~')))))

-- A digit of {:02X}
abbrev pub hex_digit : ℕ → ℕ
hex_digit d = if ltb d 10 then b'0' + d else b'A' + (d - 10)

unfoldable pub url_encode : Text → Text
url_encode [] = []
url_encode (c ∷ query) =
    let rest = url_encode query in
    if is_unreserved c then c ∷ rest else b'%' ∷ hex_digit (c / 16) ∷ hex_digit (c % 16) ∷ rest

-- std::string::find of a text from a position
unfoldable pub find_text : Text → Text → Option ℕ
find_text needle [] = if is_empty needle then some 0 else none
find_text needle (c ∷ s) =
    if starts_with (c ∷ s) needle
    then some 0
    else elim (find_text needle s) [ none ↦ none | some i ↦ some (suc i) ]

abbrev pub offset_by : ℕ → Option ℕ → Option ℕ
offset_by pos none = none
offset_by pos (some i) = some (pos + i)

unfoldable pub find_from : Text → Text → ℕ → Option ℕ
unfolding find_text
find_from needle html pos = offset_by pos (find_text needle (drop pos html))

unfoldable pub find_char_from : ℕ → Text → ℕ → Option ℕ
find_char_from c html pos = offset_by pos (find (drop pos html) c)

unfoldable pub strip_tags : Bool → Text → Text
strip_tags in_tag [] = []
strip_tags in_tag (c ∷ s) =
    if c == b'<'
    then strip_tags true s
    else if c == b'>'
    then strip_tags false s
    else if in_tag
    then strip_tags in_tag s
    else c ∷ strip_tags in_tag s

-- `if (!clean.empty())`: the count and the output.
abbrev pub add_result : Text → ℕ × Text → ℕ × Text
add_result clean (count, output) =
    if is_empty clean
    then (count, output)
    else (suc count, output ++ show_nat (suc count) ++ text ". " ++ clean ++ text "\n")

abbrev pub from_start : ℕ → Option ℕ → Option (ℕ × ℕ)
from_start start none = none
from_start start (some end) = some (start, end)

unfoldable pub from_gt : Text → Option ℕ → Option (ℕ × ℕ)
unfolding find_from
from_gt html none = none
from_gt html (some gt) = from_start (gt + 1) (find_from (text "</a>") html (gt + 1))

unfoldable pub from_anchor : Text → Option ℕ → Option (ℕ × ℕ)
unfolding from_gt find_char_from
from_anchor html none = none
from_anchor html (some anchor) = from_gt html (find_char_from b'>' html anchor)

-- Where the next result stands: its start and its end.
unfoldable pub next_result : Text → ℕ → Option (ℕ × ℕ)
unfolding from_anchor find_from
next_result html pos = from_anchor html (find_from (text "result__a") html pos)

-- The body of the loop, where `go_on` is its next turn.
abbrev pub extract_next :
    (ℕ → ℕ × Text → Option (ℕ × Text)) → Text → ℕ × Text → Option (ℕ × ℕ) → Option (ℕ × Text)
extract_next go_on html found none = some found
extract_next go_on html found (some (start, end)) =
    go_on end (add_result (strip_tags false (take (end - start) (drop start html))) found)

-- The loop over the results; none when more fuel is needed.
unfoldable pub extract_results : ℕ → Text → ℕ → ℕ × Text → Option (ℕ × Text)
unfolding next_result strip_tags
extract_results zero html pos found = none
extract_results (suc n) html pos found =
    if ltb found.0 5 && ltb pos (length html)
    then extract_next (extract_results n html) html found (next_result html pos)
    else some found

abbrev pub listed : Option (ℕ × Text) → Option ToolResult
listed none = none
listed (some (count, output)) =
    some (ok (if is_empty output then text "No results found" else output))

-- With the turns that the length of the page allows.
unfoldable pub results_of : ToolResult → Option ToolResult
unfolding extract_results
results_of (err why) = some (err why)
results_of (ok html) = listed (extract_results (suc (length html)) html 0 (0, []))

unfoldable pub search_web : (Text → Response) → Text → Option ToolResult
unfolding http_get url_encode results_of
search_web get query =
    results_of (http_get (get (text "https://html.duckduckgo.com/html/?q=" ++ url_encode query))).0

module _ {J : Type 0} (api : JsonApi J) (get : Text → Response) where
  unfoldable pub http_get_tool : J → Outcome ToolResult
  unfolding http_get
  http_get_tool args = api.value_text args (text "url") [] >>= λ url.
      api.value_text args (text "headers") [] >>= λ headers. returned (http_get (get url)).0

  unfoldable pub search_web_tool : J → Outcome (Option ToolResult)
  unfolding search_web
  search_web_tool args =
      api.value_text args (text "query") [] >>= λ query. returned (search_web get query)
