-- ===== src/LuaRuntime/Bindings.antt =====
-- src/services/LuaRuntime.cpp, bindWinBotAPI: the functions that a script calls. A std::exception
-- in one of them is an error in the script; the browser and the input tools are parameters.
pub mod Gating
use win_bot.Base.{
  ℕ, Text, text, text_eq, is_empty, Bool, true, false, Option, none, some, List, [], ◌∷◌, ◌++◌, ℤ,
  pos, Outcome, returned, threw, threw_unknown, ◌>>=◌, ToolResult, ok, err, if◌then◌else◌,
}
use win_bot.Base.Exec.{Exec, continue}
use win_bot.Json.{JsonApi}
use win_bot.Permission.{System}
use win_bot.FileTools.{FileApi, Perms, path_check, read_file, write_file}
use win_bot.ShellTools.{Child, shell_check, run_command}
use win_bot.SiteProfiles.{SiteProfile, SiteProfileItem, match}
use win_bot.LuaRuntime.{LuaValue, nil, boolean, integer, number, string}

-- LuaRef::isNumber with unsafe_cast<int>, which the parameter does for a double, and isString.
module _ (int_of_double : ℕ → ℤ) where
  abbrev pub number_of : LuaValue → Option ℤ
  number_of (integer i) = some i
  number_of (number x) = some (int_of_double x)
  number_of _ = none

  abbrev pub string_of : LuaValue → Option Text
  string_of (string s) = some s
  string_of _ = none

  abbrev with_default {ℓ} : {A : Type ℓ} → A → Option A → A
  with_default a none = a
  with_default a (some b) = b

  -- `if (!optTimeout.isNil() && optTimeout.isNumber())`
  unfoldable pub timeout_of : ℤ → LuaValue → ℤ
  timeout_of default v = with_default default (number_of v)

  -- The second and third argument of waitClick, select, find and selectUIA: a timeout and a type,
  -- in any order; the third one wins.
  unfoldable pub timeout_and_type : ℤ → LuaValue → LuaValue → ℤ × Text
  timeout_and_type default second third = (
    with_default (with_default default (number_of second)) (number_of third),
    with_default (with_default [] (string_of second)) (string_of third),
  )

-- `if (!res) throw std::runtime_error(res.error());`
abbrev pub or_throw : ToolResult → Outcome Text
or_throw (ok s) = returned s
or_throw (err why) = threw why

abbrev denied : {A : Type 0} → Text → Outcome A
denied why = threw (text "Permission denied: " ++ why)

module _ {W : Type 0} (int_of_double : ℕ → ℤ) (launch : W → Text → Child × W) (sys : System)
    (perms : Option Perms) where
  abbrev shell_result : Option ToolResult → Option (Outcome Text)
  shell_result none = none
  shell_result (some r) = some (or_throw r)

  abbrev shell_if : ToolResult → (W → Option ToolResult × W) → W → Option (Outcome Text) × W
  shell_if (err why) run w = (some (denied why), w)
  shell_if (ok allowed) run w = let (r, w') = run w in (shell_result r, w')

  -- winbot.shell; none while the command has not ended.
  unfoldable pub lua_shell : Bool → Text → LuaValue → W → Option (Outcome Text) × W
  unfolding shell_check run_command timeout_of
  lua_shell killed cmd opt_timeout w =
      if killed
      then (some (threw (text "Command execution blocked: KillSwitch triggered")), w)
      else shell_if (shell_check sys perms cmd)
          (run_command launch cmd (text "cmd") (timeout_of int_of_double (pos 30000) opt_timeout)) w

module _ {D : Type 0} (files : FileApi D) (sys : System) (perms : Option Perms) where
  abbrev file_if :
      {A : Type 0} → ToolResult → (ToolResult → Outcome A) → Exec D ToolResult → Exec D A
  file_if (err why) f run d = (denied why, d)
  file_if (ok allowed) f run d = let (o, d') = run d in (o >>= f, d')

  abbrev or_true : ToolResult → Outcome Bool
  or_true (ok s) = returned true
  or_true (err why) = threw why

  -- winbot.readFile and winbot.writeFile
  unfoldable pub lua_read_file : Text → Exec D Text
  unfolding path_check read_file
  lua_read_file path = file_if (path_check sys perms path) or_throw (read_file files sys path)

  unfoldable pub lua_write_file : Text → Text → Exec D Bool
  unfolding path_check write_file
  lua_write_file path content =
      file_if (path_check sys perms path) or_true (write_file files sys path content)

-- BrowserAutomation, on a state of type `B`.
pub record Browser (B : Type 0) : Type 0 where
  pub navigate : B → Text → ToolResult × B
  pub eval_js : B → Text → ToolResult × B

abbrev text_or_error : ToolResult → Text
text_or_error (ok s) = s
text_or_error (err why) = why

-- How the source asks whether there is a browser, and how it answers.
abbrev with_browser :
    {B : Type 0} → Option (Browser B) → (Browser B → B → Outcome Text × B) → B → Outcome Text × B
with_browser none f b = (returned (text "Browser automation not available"), b)
with_browser (some browser) f b = f browser b

module _ {B : Type 0} where
  unfoldable pub lua_navigate : Option (Browser B) → Text → B → Outcome Text × B
  lua_navigate browser url = with_browser browser (λ browser b. answer (browser.navigate b url))
    where
      answer : ToolResult × B → Outcome Text × B
      answer (ok s, b) = (returned (text "ok"), b)
      answer (err why, b) = (returned why, b)

  unfoldable pub lua_eval_js : Option (Browser B) → Text → B → Outcome Text × B
  lua_eval_js browser js =
      with_browser browser
        (λ browser b. let (r, b') = browser.eval_js b js in (returned (text_or_error r), b'))

module _ {J : Type 0} (api : JsonApi J) where
  -- A text as a literal of JavaScript: `json(s).dump()`.
  abbrev quote : Text → Outcome Text
  quote s = api.dump (api.string s)

  extract_js : Text → Outcome Text
  extract_js what =
      if text_eq what (text "text")
      then returned (text "e.innerText")
      else if text_eq what (text "html")
      then returned (text "e.innerHTML")
      else (quote what >>= λ q. returned (text "e.getAttribute(" ++ q ++ text ")"))

  abbrev assignment : Bool → Text → Text → Text
  assignment is_array name js =
      if is_array
      then text "    out["
        ++ name
        ++ text "] = Array.from(els).map(e => "
        ++ js
        ++ text ").filter(x => x);\n"
      else text "    out[" ++ name ++ text "] = (e => " ++ js ++ text ") (els[0]);\n"

  -- The lines for one item, with its three texts as literals.
  item_js : SiteProfileItem → Outcome Text
  unfolding extract_js
  item_js item = quote item.selector >>= λ selector. extract_js item.extract >>= λ js.
      quote item.name >>= λ name. returned (
        text "try {\n  let els = document.querySelectorAll("
        ++ selector
        ++ text ");\n  if (els.length > 0) {\n"
        ++ assignment item.is_array name js
        ++ text "  }\n} catch(e){}\n")

  items_js : List SiteProfileItem → Outcome Text
  unfolding item_js
  items_js [] = returned []
  items_js (item ∷ items) = item_js item >>= λ js. items_js items >>= λ rest. returned (js ++ rest)

  unfoldable pub profile_js : SiteProfile → Outcome Text
  unfolding items_js
  profile_js profile = items_js profile.items >>= λ js.
      returned (text "(() => { let out = {};\n" ++ js ++ text "return JSON.stringify(out);\n})()")

module _ {J B : Type 0} (api : JsonApi J) where
  -- The text of the page.
  page_text : Browser B → B → Outcome Text × B
  page_text browser b = answer (browser.eval_js b (text "document.body.innerText"))
    where
      answer : ToolResult × B → Outcome Text × B
      answer (ok s, b) = (returned s, b)
      answer (err why, b) = (returned (text "error"), b)

  run_profile : Browser B → Outcome Text → B → Outcome Text × B
  unfolding page_text
  run_profile browser (threw what) b = (threw what, b)
  run_profile browser threw_unknown b = (threw_unknown, b)
  run_profile browser (returned js) b = answer (browser.eval_js b js)
    where
      answer : ToolResult × B → Outcome Text × B
      answer (ok s, b) = (returned s, b)
      answer (err why, b) = page_text browser b

  read_with : Browser B → Option SiteProfile → B → Outcome Text × B
  unfolding run_profile page_text profile_js
  read_with browser none b = page_text browser b
  read_with browser (some profile) b = run_profile browser (profile_js api profile) b

  -- winbot.readPage
  unfoldable pub lua_read_page :
      Option (Browser B) → Option (List SiteProfile) → Text → B → Outcome Text × B
  unfolding read_with match
  lua_read_page browser profiles url =
      with_browser browser (λ browser b. answer browser (browser.navigate b url))
    where
      profile_of : Option (List SiteProfile) → Option SiteProfile
      profile_of none = none
      profile_of (some profiles) = match url profiles

      answer : Browser B → ToolResult × B → Outcome Text × B
      answer browser (err why, b) = (returned why, b)
      answer browser (ok s, b) = read_with browser (profile_of profiles) b
