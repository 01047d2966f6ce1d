-- ===== src/Mcp/Lines.antt =====
-- src/core/McpServer.cpp: what one line of input leads to, and that the loop of run() survives it.
use win_bot.Base.{
  Text, text, text_eq, ◌≡◌, ◌≢◌, refl, Bool, true, false, not, Bool-cases, inl, inr, [], ◌++◌,
  Outcome, returned, threw, threw_unknown, arith, if◌then◌else◌,
}
use win_bot.Base.Exec.{Exec, lift, ◌>>=◌}
use win_bot.Json.{JsonApi}
use win_bot.Mcp.{Server, cancel_request, write, send, send_error, error_message, internal_error}
use win_bot.Mcp.Schema.{is_jsonrpc}
use win_bot.Mcp.Handlers.{
  handle_cancelled, handle_notification, handle_request, reject_envelope, process_message,
}
use win_bot.Mcp.Loop.{is_blank, report, catch_message, parsed_line, handle_line}
use win_bot.Mcp.Reliable.{Reliable, is_jsonrpc_std}
use win_bot.Mcp.Replies.{
  error, Effect, answered, Serves, served, failed, Serves-error, Serves-lift, Serving-if,
  Serving-request,
}

-- The message has an "id" that is not null.
pub record HasId {J : Type 0} (api : JsonApi J) (msg id : J) : Type 0 where
  pub contained : api.contains msg (text "id") ≡ true
  pub read : api.at msg (text "id") ≡ returned id
  pub present : api.is_null id ≡ false

-- What becomes of the line of a request: it is served, or its handler has thrown and the report of
-- that cannot be dumped.
pub data Handled {J : Type 0} (api : JsonApi J) (msg id : J) (s : Server J)
    : Outcome (Unit {0}) × Server J → Type 0 where
  handled : {s' : Server J} → Effect api id s s' → Handled api msg id s (returned tt, s')
  unreported :
      (what w : Text)
      → process_message api msg s ≡ (threw what, s)
      → api.dump (error_message api id internal_error (text "Internal error: " ++ what)) ≡ threw w
      → Handled api msg id s (threw w, s)

module _ {J : Type 0} {api : JsonApi J} (ok : Reliable api) where
  module _ (msg id : J) (contained : api.contains msg (text "id") ≡ true)
      (read : api.at msg (text "id") ≡ returned id) where
    -- The rest of processMessage, for a valid envelope.
    abbrev serve_valid : Exec (Server J) (Unit {0})
    serve_valid = do
      method ← lift (api.value_text msg (text "method") [])
      id' ←
          lift (if api.contains msg (text "id") then api.at msg (text "id") else returned api.null)
      params ← lift (api.value_json msg (text "params") (api.object []))
      if api.contains msg (text "id")
          then handle_request api method id' params
          else handle_notification api method params

    Serves-valid : (s : Server J) → Serves api id s (serve_valid s)
    Serves-valid s =
        simp (contained, read)
          (Serves-lift ok id s (api.value_text msg (text "method") []) _
            (ok.value_text msg (text "method") [])
            (λ method.
              Serves-lift ok id s (api.value_json msg (text "params") (api.object [])) _
                (ok.value_json msg (text "params") (api.object []))
                (λ params. (Serving-request ok method id params).from s)))

    -- With a null id a bad envelope is not answered; all else is served as for any other id.
    pub null_message_std :
        api.is_null id ≡ true → (s : Server J) → (process_message api msg s).0 ≢ threw_unknown
    unfolding process_message reject_envelope
    null_message_std n s = go (is_jsonrpc api msg) (is_jsonrpc_std ok msg)
      where
        std : (r : Outcome (Unit {0}) × Server J) → Serves api id s r → r.0 ≢ threw_unknown
        std r (served e) = λ q. cc
        std r (failed what) = λ q. cc

        go :
            (o : Outcome Bool)
            → o ≢ threw_unknown
            → ((lift o >>= (λ valid. if not valid then reject_envelope api msg else serve_valid))
                s).0
              ≢ threw_unknown
        go (returned true) h = std _ (Serves-valid s)
        go (returned false) h = rw (contained, read, n) (λ q. cc)
        go (threw what) h = λ q. cc
        go threw_unknown h = absurd (h refl)

  module _ (msg id : J) (h : HasId api msg id) where
    report_lem :
        (what : Text) (s : Server J)
        → report api msg what s
          ≡ send_error api id internal_error (text "Internal error: " ++ what) s
    unfolding report
    report_lem what s = rw (h.contained, h.read, h.present)

    Serves-reject : (s : Server J) → Serves api id s (reject_envelope api msg s)
    unfolding reject_envelope
    Serves-reject s = rw (h.contained, h.read, h.present) (Serves-error ok id _ _ s)

    Serves-message : (s : Server J) → Serves api id s (process_message api msg s)
    unfolding process_message
    Serves-message s = Serves-lift ok id s (is_jsonrpc api msg) _ (is_jsonrpc_std ok msg) (λ valid.
        (Serving-if ok id (not valid) _ _ (record { from = Serves-reject })
            (record { from = Serves-valid msg id h.contained h.read })).from
          s)

    reported :
        (what : Text) (s : Server J)
        → process_message api msg s ≡ (threw what, s)
        → Handled api msg id s (report api msg what s)
    unfolding send_error send write
    reported what s thrown = rw (report_lem what s) (go (api.dump reply) refl)
      where
        reply : J
        reply = error_message api id internal_error (text "Internal error: " ++ what)

        go : (o : Outcome Text) → api.dump reply ≡ o → Handled api msg id s (write api reply o s)
        go (returned line) e = handled (answered reply (error internal_error _) refl refl)
        go (threw w) e = unreported what w thrown e
        go threw_unknown e = absurd (ok.dump reply e)

    caught :
        (s : Server J) (r : Outcome (Unit {0}) × Server J)
        → process_message api msg s ≡ r
        → Serves api id s r
        → Handled api msg id s (catch_message api msg r)
    unfolding catch_message
    caught s r e (served effect) = handled effect
    caught s r e (failed what) = reported what s e

    -- A line whose message has an id that is not null is served once: either exactly one reply to
    -- that id is written and no call is queued, or exactly one call for that id is handed to the pool
    -- and nothing is written. The one exception is a message whose handler throws where the report of
    -- that error cannot be dumped: nothing is written, and the exception of that dump leaves the
    -- loop. The JSON library throws only its own exceptions and reads the members it reports.
    pub request_served_once :
        (line : Text) (s : Server J)
        → is_blank line ≡ false
        → api.parse line ≡ returned msg
        → Handled api msg id s (handle_line api line s)
    unfolding handle_line parsed_line
    request_served_once line s b p =
        rw (b, p, parsed_line) (caught s (process_message api msg s) refl (Serves-message s))

  -- An action writes nothing, queues nothing and throws nothing but a std::exception.
  record Quiet (s : Server J) (r : Outcome (Unit {0}) × Server J) : Type 0 where
    std : r.0 ≢ threw_unknown
    output : r.1.output ≡ s.output
    pool : r.1.pool ≡ s.pool

  Quiet-pure : (s : Server J) → Quiet s (returned tt, s)
  Quiet-pure s = record { std = λ e. cc; output = refl; pool = refl }

  Quiet-lift :
      {A : Type 0} (s : Server J) (o : Outcome A) (f : A → Exec (Server J) (Unit {0}))
      → o ≢ threw_unknown
      → ((a : A) → Quiet s (f a s))
      → Quiet s ((lift o >>= f) s)
  Quiet-lift s (returned a) f h k = k a
  Quiet-lift s (threw what) f h k = record { std = λ e. cc; output = refl; pool = refl }
  Quiet-lift s threw_unknown f h k = absurd (h refl)

  cancel_request_keeps :
      (key : Text) (s : Server J)
      → ((cancel_request key s).0.output ≡ s.output) × ((cancel_request key s).0.pool ≡ s.pool)
  unfolding cancel_request
  cancel_request_keeps key s = ground arith

  Quiet-cancelled : (params : J) (s : Server J) → Quiet s (handle_cancelled api params s)
  unfolding handle_cancelled
  Quiet-cancelled params s =
      Quiet-lift s (api.value_json params (text "requestId") api.null) _
        (ok.value_json params (text "requestId") api.null)
        (λ req_id. Quiet-lift s (api.dump req_id) _ (ok.dump req_id) (λ key.
          let (p, q) = cancel_request_keeps key s in
          record { std = λ e. cc; output = p; pool = q }))

  Quiet-notification :
      (method : Text) (params : J) (s : Server J)
      → Quiet s (handle_notification api method params s)
  unfolding handle_notification
  Quiet-notification method params s =
      elim (Bool-cases (text_eq method (text "notifications/initialized"))) [
        | inl e ↦ rw e (Quiet-pure s)
        | inr e ↦ elim (Bool-cases (text_eq method (text "notifications/cancelled"))) [
          | inl c ↦ rw (e, c) (Quiet-cancelled params s)
          | inr c ↦ rw (e, c) (Quiet-pure s)
        ]
      ]

  module _ (msg : J) (no_id : api.contains msg (text "id") ≡ false) where
    Quiet-message : (s : Server J) → Quiet s (process_message api msg s)
    unfolding process_message reject_envelope
    Quiet-message s =
        Quiet-lift s (is_jsonrpc api msg) _ (is_jsonrpc_std ok msg) (λ valid. go valid)
      where
        go :
            (valid : Bool)
            → Quiet s (
                (if not valid then reject_envelope api msg else (do
                  method ← lift (api.value_text msg (text "method") [])
                  id ← lift (
                      if api.contains msg (text "id")
                      then api.at msg (text "id")
                      else returned api.null)
                  params ← lift (api.value_json msg (text "params") (api.object []))
                  if api.contains msg (text "id")
                      then handle_request api method id params
                      else handle_notification api method params))
                  s)
        go false = rw no_id (Quiet-pure s)
        go true = simp no_id (
            Quiet-lift s (api.value_text msg (text "method") []) _
              (ok.value_text msg (text "method") [])
              (λ method.
                Quiet-lift s (api.value_json msg (text "params") (api.object [])) _
                  (ok.value_json msg (text "params") (api.object []))
                  (λ params. Quiet-notification method params s)))

    Quiet-caught :
        (s s' : Server J) (o : Outcome (Unit {0}))
        → Quiet s (o, s')
        → (s'' : Server J) × (catch_message api msg (o, s') ≡ (returned tt, s''))
          × (s''.output ≡ s.output)
          × (s''.pool ≡ s.pool)
    unfolding catch_message report
    Quiet-caught s s' (returned a) q = (s', refl, q.output, q.pool)
    Quiet-caught s s' (threw what) q = (s', rw no_id, q.output, q.pool)
    Quiet-caught s s' threw_unknown q = absurd (q.std refl)

    -- A line whose message has no id is never answered, provided that the JSON library behaves as
    -- Reliable says: nothing is written, nothing is queued, and no exception leaves the loop,
    -- whatever the message holds.
    pub notification_silent :
        (line : Text) (s : Server J)
        → is_blank line ≡ false
        → api.parse line ≡ returned msg
        → (s' : Server J) × (handle_line api line s ≡ (returned tt, s'))
          × (s'.output ≡ s.output)
          × (s'.pool ≡ s.pool)
    unfolding handle_line parsed_line
    notification_silent line s b p =
        let (o, s1) = process_message api msg s in
        let (s', e, f, g) = Quiet-caught s s1 o (Quiet-message s) in
        (s', rw (b, p, parsed_line) e, f, g)
