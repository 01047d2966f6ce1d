-- ===== src/Browser/Clicking.antt =====
-- src/platform/browser/BrowserAutomation.cpp, clickSelector: the pointer goes to the element, then a
-- script clicks it. `get_int` is get<int> of a JSON value.
use win_bot.Base.{
  Text, text, text_eq, is_empty, Bool, not, ◌&&◌, Option, none, some, ◌++◌, ℤ, Outcome, returned,
  threw, threw_unknown, ◌>>=◌, ToolResult, ok, err, if◌then◌else◌,
}
use win_bot.Base.Exec.{Exec}
use win_bot.Json.{JsonApi}
use win_bot.Browser.{BrowserAutomation, Socket, Awaited, and_then, give}
use win_bot.Browser.Commands.{Pointer, attempt, eval_js}

module _ {J W : Type 0} (api : JsonApi J) (get_int : J → Outcome ℤ) (pointer : Pointer W) where
  -- The point in the answer of the first script.
  unfoldable pub point_of : Text → Outcome (Option (ℤ × ℤ))
  point_of answer = api.parse answer >>= λ parsed.
      if api.contains parsed (text "x") && api.contains parsed (text "y")
      then (api.at parsed (text "x") >>= λ x. get_int x >>= λ sx.
          api.at parsed (text "y") >>= λ y. get_int y >>= λ sy. returned (some (sx, sy)))
      else returned none

  abbrev pub move : Option (ℤ → ℤ → Exec W (Unit {0})) → ℤ → ℤ → Exec W (Unit {0})
  move (some handler) x y w = handler x y w
  move none x y w = (returned tt, pointer.set_cursor_pos x y w)

  -- What the `try` around the movement lets through.
  unfoldable pub after_move : Outcome (Unit {0}) × W → BrowserAutomation W → Awaited W (Unit {0})
  after_move (returned u, w) b = give tt (record b { world = w })
  after_move (threw what, w) b = give tt (record b { world = w })
  after_move (threw_unknown, w) b = (some threw_unknown, record b { world = w })

  unfoldable pub move_to : Outcome (Option (ℤ × ℤ)) → BrowserAutomation W → Awaited W (Unit {0})
  unfolding after_move
  move_to (returned none) b = give tt b
  move_to (returned (some (x, y))) b = after_move (move pointer.handler x y b.world) b
  move_to (threw what) b = give tt b
  move_to threw_unknown b = (some threw_unknown, b)

  unfoldable pub point_at : ToolResult → BrowserAutomation W → Awaited W (Unit {0})
  unfolding point_of move_to
  point_at (err why) b = give tt b
  point_at (ok answer) b =
      if not (text_eq answer (text "null")) && not (is_empty answer)
      then move_to (point_of answer) b
      else give tt b

-- The script that finds the middle of the element on the screen.
unfoldable pub position_js : Text → Text
position_js quoted =
    text "(() => {  let el = document.querySelector("
    ++ quoted
    ++ text ");  if (!el) return 'null';  let rect = el.getBoundingClientRect();"
    ++ text "  return JSON.stringify({"
    ++ text "    x: Math.round(window.screenX + rect.left + rect.width/2),"
    ++ text "    y: Math.round(window.screenY + (window.outerHeight - window.innerHeight)"
    ++ text " + rect.top + rect.height/2)  });})()"

unfoldable pub click_js : Text → Text
click_js quoted =
    text "(() => { let el = document.querySelector("
    ++ quoted
    ++ text "); if (!el) return 'not found'; el.click(); return 'clicked'; })()"

module _ {J W : Type 0} (api : JsonApi J) (get_int : J → Outcome ℤ) (pointer : Pointer W)
    (equals_int : J → ℤ → Bool) (socket : Socket W) where
  unfoldable pub click_quoted : Text → BrowserAutomation W → Awaited W ToolResult
  unfolding point_at eval_js
  click_quoted quoted b =
      and_then (eval_js api equals_int socket (position_js quoted) b) (λ answer b'.
        and_then (point_at api get_int pointer answer b')
          (λ moved. eval_js api equals_int socket (click_js quoted)))

  -- clickSelector
  unfoldable pub click_selector : Text → BrowserAutomation W → Awaited W ToolResult
  unfolding click_quoted
  click_selector selector b = and_then (attempt (api.dump (api.string selector)) b) click_quoted
