-- ===== src/Browser/Ending.antt =====
-- src/platform/browser/BrowserAutomation.cpp: the calls end. A connection ends its waits when, whatever is
-- sent, the clock passes the deadline and each message before that is received whole, or fails.
use win_bot.Base.{
  ℕ, suc, Text, Bool, true, false, ◌&&◌, ◌||◌, Option, none, some, List, [], ◌∷◌, ◌++◌, ℤ, Outcome,
  returned, threw, threw_unknown, ◌≡◌, ◌≢◌, refl, inl, inr, arith, &&_parts, Bool-cases, ToolResult,
}
use win_bot.Json.{JsonApi}
use win_bot.Browser.{
  Turn, Receipt, receive_error, closed, fragment, last, Received, pending, broken, message,
  BrowserAutomation, Socket, Reply, result, failure, Awaited, and_then, ws_receive, is_late,
  examine, on_received, on_examined, await_reply, await_after, send_command, ws_send, command_of,
  send_cdp_command,
}
use win_bot.Browser.Commands.{eval_js, type_chars, type_char, or_error}

-- What a call has when it no longer waits.
abbrev pub Ended : {W A : Type 0} → Awaited W A → Type 0
Ended (none, b) = ⊥
Ended (some o, b) = Unit

-- A receive that comes to an end.
unfoldable pub received_whole : List Receipt → Bool
received_whole [] = false
received_whole (receive_error code ∷ receipts) = true
received_whole (closed ∷ receipts) = true
received_whole (fragment bytes ∷ receipts) = received_whole receipts
received_whole (last bytes ∷ receipts) = true

unfoldable pub runs_out : List Turn → Bool
unfolding received_whole
runs_out [] = false
runs_out (t ∷ turns) = is_late t.elapsed || (received_whole t.receipts && runs_out turns)

ws_receive_ends :
    (receipts : List Receipt) (s : Text)
    → received_whole receipts ≡ true
    → ws_receive receipts s ≢ pending
unfolding ws_receive received_whole
ws_receive_ends [] s h = λ e. ground (arith, h)
ws_receive_ends (receive_error code ∷ receipts) s h = λ e. ground (arith, e)
ws_receive_ends (closed ∷ receipts) s h = λ e. ground (arith, e)
ws_receive_ends (fragment bytes ∷ receipts) s h = ws_receive_ends receipts (s ++ bytes) h
ws_receive_ends (last bytes ∷ receipts) s h = λ e. ground (arith, e)

module _ {W A B : Type 0} where
  pub and_then-Ended :
      (m : Awaited W A) (f : A → BrowserAutomation W → Awaited W B)
      → Ended m
      → ((a : A) (b : BrowserAutomation W) → Ended (f a b))
      → Ended (and_then m f)
  and_then-Ended (none, b) f h k = absurd h
  and_then-Ended (some (returned a), b) f h k = k a b
  and_then-Ended (some (threw what), b) f h k = tt
  and_then-Ended (some threw_unknown, b) f h k = tt

module _ {J W : Type 0} (api : JsonApi J) (equals_int : J → ℤ → Bool) where
  on_received_ends :
      (id : ℕ) (r : Received) (go_on : BrowserAutomation W → Awaited W (Reply J))
      (b : BrowserAutomation W)
      → r ≢ pending
      → ((b : BrowserAutomation W) → Ended (go_on b))
      → Ended (on_received api equals_int id r go_on b)
  unfolding on_received
  on_received_ends id pending go_on b h k = h refl
  on_received_ends id (broken why) go_on b h k = tt
  on_received_ends id (message raw) go_on b h k = examined (examine api equals_int id raw)
    where
      examined : (o : Outcome (Option (Reply J))) → Ended (on_examined api equals_int o go_on b)
      examined (returned none) = k b
      examined (returned (some r)) = tt
      examined (threw what) = tt
      examined threw_unknown = tt

  await_reply_ends :
      (id : ℕ) (turns : List Turn) (b : BrowserAutomation W)
      → runs_out turns ≡ true
      → Ended (await_reply api equals_int id turns b)
  unfolding await_reply runs_out
  await_reply_ends id [] b h = ground (arith, h)
  await_reply_ends id (t ∷ turns) b h = elim (Bool-cases (is_late t.elapsed)) [
    | inl e ↦ rw e tt
    | inr e ↦ rw e (
        let (w, o) =
          &&_parts (received_whole t.receipts) (runs_out turns) (let q = rw e at h in q) in
        on_received_ends id (ws_receive t.receipts []) (await_reply api equals_int id turns) b
          (ws_receive_ends t.receipts [] w) (λ b'. await_reply_ends id turns b' o))
  ]

  module _ (socket : Socket W) (ends : (w : W) → runs_out (socket.turns w).0 ≡ true) where
    await_after_ends :
        (id : ℕ) (sent : Bool × BrowserAutomation W)
        → Ended (await_after api equals_int socket id sent)
    unfolding await_after
    await_after_ends id (false, b) = tt
    await_after_ends id (true, b) = await_reply_ends id (socket.turns b.world).0 _ (ends b.world)

    send_command_ends :
        (id : ℕ) (content : Outcome Text) (b : BrowserAutomation W)
        → Ended (send_command api equals_int socket id content b)
    unfolding send_command
    send_command_ends id (returned content) b =
        await_after_ends id (ws_send api equals_int socket content b)
    send_command_ends id (threw what) b = tt
    send_command_ends id threw_unknown b = tt

    pub send_cdp_command_ends :
        (method : Text) (params : J) (b : BrowserAutomation W)
        → Ended (send_cdp_command api equals_int socket method params b)
    unfolding send_cdp_command
    send_cdp_command_ends method params b = elim (Bool-cases b.connected) [
      | inl e ↦ rw e (
          send_command_ends b.msg_id
            (api.dump (command_of api equals_int socket b.msg_id method params))
            (record b { connected = true; msg_id = suc b.msg_id }))
      | inr e ↦ rw e tt
    ]

    or_error_ends :
        (f : J → BrowserAutomation W → Awaited W ToolResult)
        → ((r : J) (b : BrowserAutomation W) → Ended (f r b))
        → (r : Reply J) (b : BrowserAutomation W) → Ended (or_error f r b)
    or_error_ends f h (result r) b = h r b
    or_error_ends f h (failure why) b = tt

    command_ends :
        (method : Text) (params : J) (f : J → BrowserAutomation W → Awaited W ToolResult)
        (b : BrowserAutomation W)
        → ((r : J) (b : BrowserAutomation W) → Ended (f r b))
        → Ended (and_then (send_cdp_command api equals_int socket method params b) (or_error f))
    command_ends method params f b h =
        and_then-Ended _ _ (send_cdp_command_ends method params b) (or_error_ends f h)

    pub eval_js_ends :
        (js : Text) (b : BrowserAutomation W) → Ended (eval_js api equals_int socket js b)
    unfolding eval_js
    eval_js_ends js b = command_ends _ _ _ b (λ r b'. tt)

    pub type_chars_ends :
        (done : ToolResult) (content : Text) (b : BrowserAutomation W)
        → Ended (type_chars api equals_int socket done content b)
    unfolding type_chars type_char
    type_chars_ends done [] b = tt
    type_chars_ends done (c ∷ cs) b = command_ends _ _ _ b (λ r b'. type_chars_ends done cs b')
