-- ===== src/Protocol.antt =====
-- src/Protocol.h: requests and responses of the line protocol.
use win_bot.Base.{
  ℕ, Text, text, is_empty, Bool, true, false, ◌||◌, [], ◌∷◌, ◌++◌, Outcome, returned, threw,
  threw_unknown, ◌>>=◌, ℤ, pos, ◌==◌, if◌then◌else◌,
}
use win_bot.Json.{JsonApi}

pub record Request (J : Type 0) : Type 0 where
  pub id : ℤ
  pub tool : Text
  pub args : J

-- std::expected<Request, std::string>
pub data Parsed (J : Type 0) : Type 0 where
  request : Request J → Parsed J
  unexpected : Text → Parsed J

abbrev pub is_white : ℕ → Bool
is_white c = c == b' ' || c == b'\t' || c == b'\r' || c == b'\n'

-- The test on the first character that is no white space.
unfoldable pub is_skipped : Text → Bool
is_skipped [] = true
is_skipped (c ∷ line) = if is_white c then is_skipped line else c == b'#'

module _ {J : Type 0} (api : JsonApi J) where
  read_args : J → Outcome J
  read_args j =
      if api.contains j (text "args") then api.at j (text "args") else returned (api.object [])

  -- The body of the `try`.
  unfoldable pub read_request : J → Outcome (Parsed J)
  unfolding read_args
  read_request j = api.value_int j (text "id") (pos 0) >>= λ id.
      api.value_text j (text "tool") [] >>= λ tool. read_args j >>= λ args. returned (
        if is_empty tool
        then unexpected (text "Request missing 'tool' field")
        else request (record { id = id; tool = tool; args = args }))

  unfoldable pub catch_parse : Outcome (Parsed J) → Outcome (Parsed J)
  catch_parse (returned p) = returned p
  catch_parse (threw what) = returned (unexpected (text "JSON parse error: " ++ what))
  catch_parse threw_unknown = threw_unknown

  unfoldable pub parse_request : Text → Outcome (Parsed J)
  unfolding read_request catch_parse
  parse_request line =
      if is_skipped line
      then returned (unexpected [])
      else catch_parse (api.parse line >>= read_request)

  abbrev pub ok_json : ℤ → Text → J
  ok_json id result = api.object (
      (text "id", api.int id)
      ∷ (text "ok", api.bool true)
      ∷ (text "result", api.string result)
      ∷ [])

  abbrev pub err_json : ℤ → Text → J
  err_json id error = api.object (
      (text "id", api.int id) ∷ (text "ok", api.bool false) ∷ (text "error", api.string error) ∷ [])

  unfoldable pub make_ok : ℤ → Text → Outcome Text
  make_ok id result = api.dump (ok_json id result)

  unfoldable pub make_err : ℤ → Text → Outcome Text
  make_err id error = api.dump (err_json id error)
