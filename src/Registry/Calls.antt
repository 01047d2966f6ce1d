-- ===== src/Registry/Calls.antt =====
-- src/core/ToolRegistry.cpp: which tool a call reaches, after the changes of the registry, and
-- what text a raw call is read from.
use win_bot.Base.{
  ℕ, suc, ◌+◌, ◌-◌, ◌%◌, ◌<◌, Text, text, text_eq, text_eq_iff, is_empty, find, rfind, length, ◌≡◌,
  ◌≢◌, refl, false, none, some, [], ◌∷◌, ◌++◌, Outcome, returned, threw, threw_unknown, ◌>>=◌,
  ToolResult, err, lookup-insert, lookup-erase, if◌then◌else◌, arith, Option-cases, inl, inr, sym,
  append_assoc, ◌∙◌, length-append, find-append, rfind-append, rfind-cons, drop-append, take-append,
  ap,
}
use win_bot.Json.{JsonApi}
use win_bot.Registry.{StopToken, Tool, ToolRegistry, register_tool, unregister_tool}
use win_bot.Registry.Dispatch.{
  size_t_mod, substr, catch_tool, dispatch, dispatch_call, brace_span, dispatch_raw, catch_json,
}

module _ {J : Type 0} where
  -- A tool once registered takes the calls of its name, with its exceptions turned into errors,
  -- and the calls of every other name go where they went.
  pub dispatch-register :
      (t : Tool J) (r : ToolRegistry J) (n : Text) (args : J) (token : StopToken)
      → is_empty n ≡ false
      → dispatch (register_tool (some t) r).registry n args token ≡ (
          if text_eq t.name n then catch_tool n (t.execute args token) else dispatch r n args token)
  unfolding dispatch register_tool
  dispatch-register t r n args token h =
      ground (arith, lookup-insert t.name n t r.index, text_eq_iff t.name n)

  -- Once a name is unregistered a call of it is refused as unknown, and the calls of every other
  -- name go where they went.
  pub dispatch-unregister :
      (k : Text) (r : ToolRegistry J) (n : Text) (args : J) (token : StopToken)
      → is_empty n ≡ false
      → dispatch (unregister_tool k r).0.registry n args token ≡ (
          if text_eq k n
          then err (text "Unknown tool: '" ++ n ++ text "'")
          else dispatch r n args token)
  unfolding dispatch unregister_tool
  dispatch-unregister k r n args token h = ground (arith, lookup-erase k n r.index, text_eq_iff k n)

-- The literals `{` and `}`.
abbrev opening : ℕ
opening = b'{'

abbrev closing : ℕ
closing = b'}'

brace_span-eq :
    (s : Text) (i j : ℕ)
    → find s opening ≡ some i
    → rfind s closing ≡ some j
    → brace_span s ≡ some (substr s i ((j + size_t_mod - i + 1) % size_t_mod))
unfolding brace_span
brace_span-eq s i j p q = rw (p, q, brace_span)

last_closing :
    (before body after : Text)
    → rfind after closing ≡ none
    → rfind (before ++ opening ∷ (body ++ closing ∷ after)) closing
      ≡ some (length before + (suc (length body) + 0))
last_closing before body after h =
    rfind-append closing before (opening ∷ (body ++ closing ∷ after)) _
      (rfind-append closing (opening ∷ body) (closing ∷ after) 0 (rfind-cons closing after h))

substr_middle :
    (before kept rest : Text)
    → substr (before ++ (kept ++ rest)) (length before) (length kept) ≡ kept
substr_middle before kept rest = rw (drop-append before (kept ++ rest)) (take-append kept rest)

-- A reply that wraps its call in other text is read from the call alone: what stands before the
-- first opening brace and after the last closing one is dropped. The reply fits a size_t.
pub brace_span_fence :
    (before body after : Text)
    → find before opening ≡ none
    → rfind after closing ≡ none
    → length before + length body + length after + 2 < size_t_mod
    → brace_span (before ++ opening ∷ (body ++ closing ∷ after))
      ≡ some (opening ∷ (body ++ closing ∷ []))
brace_span_fence before body after no_open no_close fits =
    brace_span-eq whole (length before) (length before + (suc (length body) + 0))
      (find-append opening before (body ++ closing ∷ after) no_open)
      (last_closing before body after no_close)
    ∙ ap some (
        ap (substr whole (length before)) count
        ∙ ap (λ w. substr w (length before) (length kept)) regroup
        ∙ substr_middle before kept after)
  where
    whole : Text
    whole = before ++ opening ∷ (body ++ closing ∷ after)

    kept : Text
    kept = opening ∷ (body ++ closing ∷ [])

    count :
        (length before + (suc (length body) + 0) + size_t_mod - length before + 1) % size_t_mod
        ≡ length kept
    count = omega (arith, length-append body (closing ∷ []))

    regroup : whole ≡ before ++ (kept ++ after)
    regroup = ap (λ l. before ++ opening ∷ l) (sym (append_assoc body (closing ∷ []) after))

-- nlohmann::json throws exceptions of its own only, all derived from std::exception.
pub record ThrowsStd {J : Type 0} (api : JsonApi J) : Type 0 where
  pub parse : (s : Text) → api.parse s ≢ threw_unknown
  pub at : (j : J) (k : Text) → api.at j k ≢ threw_unknown
  pub value_text : (j : J) (k d : Text) → api.value_text j k d ≢ threw_unknown

catch_json_total :
    (cleaned : Text) (o : Outcome ToolResult)
    → o ≢ threw_unknown
    → (result : ToolResult) × (catch_json cleaned o ≡ returned result)
unfolding catch_json
catch_json_total cleaned (returned result) h = (result, refl)
catch_json_total cleaned (threw what) h =
    (err (text "JSON parse error: " ++ what ++ text " in: " ++ cleaned), refl)
catch_json_total cleaned threw_unknown h = absurd (h refl)

dispatch_call_std :
    {J : Type 0} (api : JsonApi J) (r : ToolRegistry J) (call : J) (token : StopToken)
    → ThrowsStd api
    → dispatch_call api r call token ≢ threw_unknown
unfolding dispatch_call
dispatch_call_std api r call token h e =
    ground (arith, h.value_text call (text "tool") [], h.at call (text "args"))

parse_call_std :
    {J : Type 0} (api : JsonApi J) (r : ToolRegistry J) (s : Text) (token : StopToken)
    → ThrowsStd api
    → (api.parse s >>= (λ call. dispatch_call api r call token)) ≢ threw_unknown
parse_call_std {J} api r s token h e = go (api.parse s) (h.parse s) e
  where
    go :
        (o : Outcome J)
        → o ≢ threw_unknown
        → (o >>= (λ call. dispatch_call api r call token)) ≡ threw_unknown
        → ⊥
    go (returned call) ne e' = dispatch_call_std api r call token h e'
    go (threw what) ne e' = cc
    go threw_unknown ne e' = ne refl

-- A raw call always comes back as a result: whatever the text, and whatever the tool does or
-- throws, no exception leaves dispatchRaw, provided that the JSON library throws only its own.
pub dispatch_raw_total :
    {J : Type 0} (api : JsonApi J) (r : ToolRegistry J) (s : Text) (token : StopToken)
    → ThrowsStd api
    → (result : ToolResult) × (dispatch_raw api r s token ≡ returned result)
unfolding dispatch_raw
dispatch_raw_total api r s token h = elim (Option-cases (brace_span s)) [
  | inl e ↦ (err (text "No JSON object found in: " ++ s), rw (e, dispatch_raw))
  | inr (cleaned, e) ↦
      let (result, p) =
        catch_json_total cleaned (api.parse cleaned >>= (λ call. dispatch_call api r call token))
          (parse_call_std api r cleaned token h) in
      (result, rw (e, dispatch_raw) p)
]
