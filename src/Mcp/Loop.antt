-- ===== src/Mcp/Loop.antt =====
-- src/core/McpServer.cpp: the loop of run(), line by line.
use win_bot.Base.{
  Text, text, all, Bool, ◌||◌, List, [], ◌∷◌, ◌++◌, Outcome, returned, threw, threw_unknown, ◌==◌,
  if◌then◌else◌,
}
use win_bot.Base.Exec.{Exec, pure, lift, ◌>>=◌}
use win_bot.Json.{JsonApi}
use win_bot.Mcp.{Server, parse_error, internal_error, send_error}
use win_bot.Mcp.Handlers.{process_message}

-- line.find_first_not_of(" \t\r\n") == npos, or an empty line
unfoldable pub is_blank : Text → Bool
is_blank line = all (λ c. c == b' ' || (c == b'\t' || (c == b'\r' || c == b'\n'))) line

module _ {J : Type 0} (api : JsonApi J) where
  -- The handler of an exception that processMessage lets out.
  unfoldable pub report : J → Text → Exec (Server J) (Unit {0})
  report msg what =
      if api.contains msg (text "id")
      then (do
        id ← lift (api.at msg (text "id"))
        if api.is_null id
            then pure tt
            else send_error api id internal_error (text "Internal error: " ++ what))
      else pure tt

  unfoldable pub catch_message : J → Outcome (Unit {0}) × Server J → Outcome (Unit {0}) × Server J
  unfolding report
  catch_message msg (returned _, s) = (returned tt, s)
  catch_message msg (threw what, s) = report msg what s
  catch_message msg (threw_unknown, s) = (threw_unknown, s)

  unfoldable pub parsed_line : Outcome J → Exec (Server J) (Unit {0})
  unfolding catch_message
  parsed_line (returned msg) s = catch_message msg (process_message api msg s)
  parsed_line (threw what) s = send_error api api.null parse_error (text "Parse error: " ++ what) s
  parsed_line threw_unknown s = (threw_unknown, s)

  -- One round of the loop. An exception that comes out of it ends run().
  unfoldable pub handle_line : Text → Exec (Server J) (Unit {0})
  unfolding parsed_line
  handle_line line = if is_blank line then pure tt else parsed_line (api.parse line)

  -- The rounds over the lines read before the input ends; each wants m_running.
  unfoldable pub serve : List Text → Exec (Server J) (Unit {0})
  unfolding handle_line
  serve [] s = (returned tt, s)
  serve (line ∷ lines) s =
      if s.running then (handle_line line >>= (λ _. serve lines)) s else (returned tt, s)
