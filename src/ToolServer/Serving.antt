-- ===== src/ToolServer/Serving.antt =====
-- src/core/ToolServer.cpp: the responses that run() writes, and what ends it.
use win_bot.Base.{
  Text, text, true, false, Bool-cases, Option, none, some, List, [], ◌∷◌, ◌++◌, append-nil,
  append_assoc, Outcome, returned, threw, threw_unknown, ◌>>=◌, ToolResult, ok, err, All,
  if◌then◌else◌, ◌≡◌, ◌≢◌, refl, inl, inr, ap, ℤ, pos,
}
use win_bot.Json.{JsonApi}
use win_bot.Registry.{ToolRegistry}
use win_bot.AuditLog.{AuditEntry, AuditLog, entry_json, write_line, record_entry}
use win_bot.Protocol.{
  Request, Parsed, request, unexpected, is_skipped, catch_parse, read_request, parse_request,
  ok_json, err_json, make_ok, make_err,
}
use win_bot.ToolServer.{
  Service, Input, call_tool, entry_of, keep_log, audit_to, audit_call, response_of, send_response,
  answer_request, answer_parsed, serve_line, run,
}

-- What is assumed of nlohmann::json: what it throws where it reads is its own exceptions.
pub record Sound {J : Type 0} (api : JsonApi J) : Type 0 where
  pub parse : (s : Text) → api.parse s ≢ threw_unknown
  pub at : (j : J) (k : Text) → api.at j k ≢ threw_unknown
  pub value_text : (j : J) (k d : Text) → api.value_text j k d ≢ threw_unknown
  pub value_int : (j : J) (k : Text) (d : ℤ) → api.value_int j k d ≢ threw_unknown

std_bind :
    {A B : Type 0} (o : Outcome A) (f : A → Outcome B)
    → o ≢ threw_unknown
    → ((a : A) → f a ≢ threw_unknown)
    → (o >>= f) ≢ threw_unknown
std_bind (returned a) f h k = k a
std_bind (threw what) f h k = λ e. cc
std_bind threw_unknown f h k = absurd (h refl)

module _ {J : Type 0} {api : JsonApi J} (good : Sound api) where
  read_args_std :
      (j : J)
      → (if api.contains j (text "args") then api.at j (text "args") else returned (api.object []))
        ≢ threw_unknown
  read_args_std j = elim (Bool-cases (api.contains j (text "args"))) [
    | inl e ↦ rw e (good.at j (text "args"))
    | inr e ↦ rw e (λ q. cc)
  ]

  read_request_std : (j : J) → read_request api j ≢ threw_unknown
  unfolding read_request
  read_request_std j =
      std_bind (api.value_int j (text "id") (pos 0)) _ (good.value_int j (text "id") (pos 0)) (λ id.
        std_bind (api.value_text j (text "tool") []) _ (good.value_text j (text "tool") [])
          (λ tool. std_bind _ _ (read_args_std j) (λ args q. cc)))

  catch_parse_total :
      (o : Outcome (Parsed J))
      → o ≢ threw_unknown
      → (p : Parsed J) × (catch_parse api o ≡ returned p)
  unfolding catch_parse
  catch_parse_total (returned p) h = (p, refl)
  catch_parse_total (threw what) h = (_, refl)
  catch_parse_total threw_unknown h = absurd (h refl)

  pub parse_request_total : (line : Text) → (p : Parsed J) × (parse_request api line ≡ returned p)
  unfolding parse_request
  parse_request_total line = elim (Bool-cases (is_skipped line)) [
    | inl e ↦ (unexpected [], rw e refl)
    | inr e ↦
        let std = std_bind (api.parse line) (read_request api) (good.parse line) read_request_std in
        let (p, q) = catch_parse_total (api.parse line >>= read_request api) std in (p, rw e q)
  ]

module _ {J : Type 0} (api : JsonApi J) where
  -- The response to a request, as the protocol has it.
  abbrev pub response_json : Request J → ToolResult → J
  response_json req (ok result) = ok_json api req.id result
  response_json req (err error) = err_json api req.id error

  -- What is written for a line: nothing where it holds no request, and else the response. The
  -- arguments, the entry of the log and the response can be dumped.
  pub data Reply (tools : Option (ToolRegistry J)) (input : Input) : List Text → Type 0 where
    silence :
        (why : Text)
        → parse_request api input.line ≡ returned (unexpected why)
        → Reply tools input []
    response :
        (req : Request J) (args logged line : Text)
        → parse_request api input.line ≡ returned (request req)
        → api.dump req.args ≡ returned args
        → api.dump (entry_json api (entry_of api input.now req (call_tool api tools req)))
          ≡ returned logged
        → api.dump (response_json req (call_tool api tools req)) ≡ returned line
        → Reply tools input (line ∷ [])

  -- What is written for several lines, in order.
  pub data Written (tools : Option (ToolRegistry J)) : List Input → List Text → Type 0 where
    no_more : Written tools [] []
    then_more :
        {input : Input} {inputs : List Input} {here later : List Text}
        → Reply tools input here
        → Written tools inputs later
        → Written tools (input ∷ inputs) (here ++ later)

  record_entry_lem :
      (entry : AuditEntry J) (log : AuditLog) (line : Text)
      → api.dump (entry_json api entry) ≡ returned line
      → (log' : AuditLog) × (record_entry api entry log ≡ (returned tt, log'))
  unfolding record_entry write_line
  record_entry_lem entry log line q = elim (Bool-cases log.enabled) [
    | inl e ↦ (record log { lines = log.lines ++ line ∷ [] }, simp (e, q) refl)
    | inr e ↦ (log, simp e refl)
  ]

  -- A service whose log is as given, and else unchanged.
  abbrev with_log : Service J → Option AuditLog → Service J
  with_log s log = record s { audit = log }

  audit_to_lem :
      (log : Option AuditLog) (entry : AuditEntry J) (line : Text) (s : Service J)
      → s.audit ≡ log
      → api.dump (entry_json api entry) ≡ returned line
      → (log' : Option AuditLog) × (audit_to api log entry s ≡ (returned tt, with_log s log'))
  unfolding audit_to keep_log
  audit_to_lem none entry line s h d = (s.audit, refl)
  audit_to_lem (some log) entry line s h d =
      let (log', q) = record_entry_lem entry log line d in (some log', rw q refl)

  response_of_lem :
      (req : Request J) (result : ToolResult)
      → response_of api req result ≡ api.dump (response_json req result)
  unfolding response_of make_ok make_err
  response_of_lem req (ok result) = refl
  response_of_lem req (err error) = refl

  -- A line gets its reply, and nothing else of the service changes but the log.
  serve_line_lem :
      (input : Input) (lines : List Text) (s : Service J)
      → Reply s.tools input lines
      → (log : Option AuditLog) × (serve_line api input s
          ≡ (returned tt, record s { audit = log; output = s.output ++ lines }))
  unfolding serve_line answer_parsed answer_request audit_call send_response
  serve_line_lem input lines s (silence why p) = (s.audit, rw p (rw (append-nil s.output) refl))
  serve_line_lem input lines s (response req args logged line p a e r) =
      let result = call_tool api s.tools req in
      let (log, q) = audit_to_lem s.audit (entry_of api input.now req result) logged s refl e in
      (log, rw (p, a, q, response_of_lem req result, r) refl)

  abbrev pub Live : Input → Type 0
  Live input = input.halted ≡ false

  -- The input is at its end, or the kill switch is found triggered.
  abbrev pub Ends : List Input → Type 0
  Ends [] = Unit
  Ends (input ∷ inputs) = input.halted ≡ true

  -- run() answers every line that holds a request, once, in order, until its input ends or the kill
  -- switch is found triggered, answers no other line, and returns, as long as the arguments, the
  -- entry of the log and the response of each request can be dumped. The tools do not change
  -- meanwhile.
  pub run-replies :
      (before rest : List Input) (lines : List Text) (s : Service J)
      → All Live before
      → Ends rest
      → Written s.tools before lines
      → (log : Option AuditLog) × (run api (before ++ rest) s
          ≡ (returned tt, record s { audit = log; output = s.output ++ lines }))
  unfolding run
  run-replies [] [] lines s live ends no_more = (s.audit, rw (append-nil s.output) refl)
  run-replies [] (input ∷ rest) lines s live ends no_more =
      (s.audit, rw (ends, append-nil s.output) refl)
  run-replies (input ∷ before) rest lines s live ends
        (then_more {here = here} {later = later} h hs) =
      let (log, p) = serve_line_lem input here s h in
      let s' = record s { audit = log; output = s.output ++ here } in
      let (log', q) = run-replies before rest later s' live.1 ends hs in
      (
        log',
        simp live.0 (
            rw p (
              rw q (
                ap (λ l. (returned tt, record s { audit = log'; output = l }))
                  (append_assoc s.output here later)))),
      )

-- When the log's own line about a call cannot be dumped, run() is left by that exception: the
-- call has been made, its response is not written, and no later line is read.
pub audit_failure_ends_run :
    {J : Type 0} (api : JsonApi J) (input : Input) (inputs : List Input) (req : Request J)
    (log : AuditLog) (logged what : Text) (s : Service J)
    → input.halted ≡ false
    → parse_request api input.line ≡ returned (request req)
    → api.dump req.args ≡ returned logged
    → s.audit ≡ some log
    → log.enabled ≡ true
    → api.dump (entry_json api (entry_of api input.now req (call_tool api s.tools req)))
      ≡ threw what
    → (run api (input ∷ inputs) s).0 ≡ threw what × (run api (input ∷ inputs) s).1.output ≡ s.output
unfolding run serve_line answer_parsed answer_request audit_call audit_to keep_log record_entry
    write_line
audit_failure_ends_run api input inputs req log logged what s h p a l e d =
    simp (h, p, a, l, e, d) (refl, refl)
