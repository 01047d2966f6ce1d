-- ===== src/Browser/Connecting.antt =====
-- src/platform/browser/BrowserAutomation.cpp: the constructor, and the page it connects to. What Windows
-- answers is a parameter.
use win_bot.Base.{
  Text, text, text_eq, is_empty, starts_with, Bool, true, false, not, Option, none, some, List, [],
  ◌∷◌, ◌++◌, Outcome, returned, threw, threw_unknown, ◌>>=◌, if◌then◌else◌,
}
use win_bot.Base.Exec.{Exec, continue}
use win_bot.Json.{JsonApi}
use win_bot.Browser.{BrowserAutomation, Reply, result, failure}

-- What the request for the list of pages meets; each read of the body gives bytes or fails.
pub data Fetched : Type 0 where
  no_session : Fetched
  no_response : Fetched
  body : List (Option Text) → Fetched

unfoldable pub collect : Text → List (Option Text) → Text
collect content [] = content
collect content (none ∷ reads) = collect content reads
collect content (some bytes ∷ reads) = collect (content ++ bytes) reads

-- WinHttp and ShellExecute, in a world of type `W`: `upgrade` is the request for a path up to its
-- upgrade to a socket.
pub record Dial (W : Type 0) : Type 0 where
  pub fetch : W → Fetched × W
  pub connect : W → Bool × W
  pub upgrade : W → Text → Bool × W
  pub launch : W → Text → W

-- wsUrl.substr(wsUrl.find(needle)), none when it is not there
unfoldable pub from_first : Text → Text → Option Text
from_first [] needle = if starts_with [] needle then some [] else none
from_first (c ∷ s) needle = if starts_with (c ∷ s) needle then some (c ∷ s) else from_first s needle

-- The members' initial values.
abbrev pub unconnected : {W : Type 0} → W → BrowserAutomation W
unconnected w = record { connected = false; has_socket = false; msg_id = 1; world = w }

module _ {J : Type 0} (api : JsonApi J) where
  unfoldable pub parsed_list : Outcome J → Outcome (Reply J)
  parsed_list (returned pages) = returned (result pages)
  parsed_list (threw what) = returned (failure (text "Failed to parse CDP page list"))
  parsed_list threw_unknown = threw_unknown

  -- fetchPageList, on what was fetched
  unfoldable pub fetch_page_list : Fetched → Outcome (Reply J)
  unfolding parsed_list collect
  fetch_page_list no_session = returned (failure (text "WinHttpOpen failed"))
  fetch_page_list no_response = returned (failure (text "Failed to connect to CDP endpoint"))
  fetch_page_list (body reads) = parsed_list (api.parse (collect [] reads))

  -- The socket's address of the first page; empty when there is none.
  unfoldable pub find_page : List J → Outcome Text
  find_page [] = returned []
  find_page (page ∷ pages) = api.value_text page (text "type") [] >>= λ type.
      if text_eq type (text "page")
      then api.value_text page (text "webSocketDebuggerUrl") []
      else find_page pages

  unfoldable pub path_of : Reply J → Outcome (Option Text)
  unfolding find_page from_first
  path_of (failure why) = returned none
  path_of (result pages) = find_page (api.elements pages) >>= λ url.
      if is_empty url then returned none else returned (from_first url (text "/devtools"))

  module _ {W : Type 0} (dial : Dial W) (has_session : Bool) where
    unfoldable pub upgraded : Bool × W → Exec (BrowserAutomation W) Bool
    upgraded (false, w) b = (returned false, record b { world = w })
    upgraded (true, w) b =
        (returned true, record b { connected = true; has_socket = true; world = w })

    unfoldable pub dialled : Text → Bool × W → Exec (BrowserAutomation W) Bool
    unfolding upgraded
    dialled path (false, w) b = (returned false, record b { world = w })
    dialled path (true, w) b = upgraded (dial.upgrade w path) b

    unfoldable pub open_socket : Option Text → Exec (BrowserAutomation W) Bool
    unfolding dialled
    open_socket none b = (returned false, b)
    open_socket (some path) b =
        if not has_session then (returned false, b) else dialled path (dial.connect b.world) b

    -- connectToPage
    unfoldable pub connect_to_page : Exec (BrowserAutomation W) Bool
    unfolding fetch_page_list path_of open_socket
    connect_to_page b =
        let (fetched, w) = dial.fetch b.world in
        continue (fetch_page_list fetched >>= path_of) open_socket (record b { world = w })

    unfoldable pub launch_and_connect : Text → Bool → Exec (BrowserAutomation W) (Unit {0})
    unfolding connect_to_page
    launch_and_connect exe true b = (returned tt, b)
    launch_and_connect exe false b =
        if is_empty exe
        then (returned tt, b)
        else (let (o, b') = connect_to_page (record b { world = dial.launch b.world exe }) in
            continue o (λ connected b''. (returned tt, b'')) b')

    -- The constructor
    unfoldable pub new_browser : Text → W → Outcome (Unit {0}) × BrowserAutomation W
    unfolding launch_and_connect
    new_browser exe w =
        if not has_session
        then (returned tt, unconnected w)
        else (let (o, b') = connect_to_page (unconnected w) in
            continue o (launch_and_connect exe) b')
