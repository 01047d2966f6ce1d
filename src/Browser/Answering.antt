-- ===== src/Browser/Answering.antt =====
-- src/platform/browser/BrowserAutomation.cpp, sendCdpCommand: which message is taken for the answer to a
-- command, and when the wait ends.
use win_bot.Base.{
  ℕ, suc, Text, text, threw, pos, Bool, true, false, none, some, List, [], ◌∷◌, ◌++◌, ℤ, returned,
  ◌≡◌, refl, All, ◌∙◌,
}
use win_bot.Json.{JsonApi}
use win_bot.Browser.{
  Turn, message, BrowserAutomation, Socket, Reply, result, failure, answer_of, reply_of, ignoring,
  give, ws_receive, is_late, examine, await_reply, await_after, send_command, ws_send, command_of,
  send_cdp_command,
}

module _ {J : Type 0} (api : JsonApi J) (equals_int : J → ℤ → Bool) where
  -- A message that is passed over in the wait for the answer to the command `id`: it does not parse,
  -- or it has no number, or another one.
  pub data PassedOver (id : ℕ) (raw : Text) : Type 0 where
    unparsed : (what : Text) → api.parse raw ≡ threw what → PassedOver id raw
    unnumbered :
        (j : J)
        → api.parse raw ≡ returned j
        → api.contains j (text "id") ≡ false
        → PassedOver id raw
    misnumbered :
        (j v : J)
        → api.parse raw ≡ returned j
        → api.contains j (text "id") ≡ true
        → api.at j (text "id") ≡ returned v
        → equals_int v (pos id) ≡ false
        → PassedOver id raw

  -- What an answer says: the message of its error, if it has one, and else its result.
  pub data Says (j : J) : Reply J → Type 0 where
    says_error :
        (e : J) (what : Text)
        → api.contains j (text "error") ≡ true
        → api.at j (text "error") ≡ returned e
        → api.value_text e (text "message") (text "CDP error") ≡ returned what
        → Says j (failure what)
    says_result :
        (r : J)
        → api.contains j (text "error") ≡ false
        → api.value_json j (text "result") (api.object []) ≡ returned r
        → Says j (result r)

  -- A message that parses, has the number `id` and says `r`.
  pub record Carries (id : ℕ) (raw : Text) (r : Reply J) : Type 0 where
    pub response : J
    pub number : J
    pub parsed : api.parse raw ≡ returned response
    pub numbered : api.contains response (text "id") ≡ true
    pub read : api.at response (text "id") ≡ returned number
    pub equal : equals_int number (pos id) ≡ true
    pub says : Says response r

  -- A turn in time whose message is passed over.
  unfoldable pub Skipped : ℕ → Turn → Type 0
  Skipped id t =
      (is_late t.elapsed ≡ false)
      × (raw : Text) × (ws_receive t.receipts [] ≡ message raw)
      × PassedOver id raw

  -- A turn in time with the reply `r` to the command `id`.
  unfoldable pub Answers : ℕ → Reply J → Turn → Type 0
  Answers id r t =
      (is_late t.elapsed ≡ false)
      × (raw : Text) × (ws_receive t.receipts [] ≡ message raw)
      × Carries id raw r

  examine-PassedOver :
      (id : ℕ) (raw : Text) → PassedOver id raw → examine api equals_int id raw ≡ returned none
  unfolding examine reply_of ignoring
  examine-PassedOver id raw (unparsed what p) = rw p refl
  examine-PassedOver id raw (unnumbered j p c) = rw (p, c) refl
  examine-PassedOver id raw (misnumbered j v p c a e) = rw (p, c, a, e) refl

  answer_of-Says : (j : J) (r : Reply J) → Says j r → answer_of api equals_int j ≡ returned r
  unfolding answer_of
  answer_of-Says j _ (says_error e what c a v) = rw (c, a, v) refl
  answer_of-Says j _ (says_result r c v) = rw (c, v) refl

  examine-Carries :
      (id : ℕ) (raw : Text) (r : Reply J)
      → Carries id raw r
      → examine api equals_int id raw ≡ returned (some r)
  unfolding examine reply_of ignoring
  examine-Carries id raw r c =
      let says = answer_of-Says c.response r c.says in
      rw (c.parsed, c.numbered, c.read, c.equal, says) refl

  module _ {W : Type 0} where
    await_reply-skip :
        (id : ℕ) (before after : List Turn) (b : BrowserAutomation W)
        → All (Skipped id) before
        → await_reply api equals_int id (before ++ after) b ≡ await_reply api equals_int id after b
    unfolding await_reply Skipped
    await_reply-skip id [] after b h = refl
    await_reply-skip id (t ∷ before) after b ((late, raw, m, e), h) =
        rw (late, m, examine-PassedOver id raw e) (await_reply-skip id before after b h)

    await_reply-answer :
        (id : ℕ) (r : Reply J) (t : Turn) (after : List Turn) (b : BrowserAutomation W)
        → Answers id r t
        → await_reply api equals_int id (t ∷ after) b ≡ give r b
    unfolding await_reply Answers
    await_reply-answer id r t after b (late, raw, m, c) =
        rw (late, m, examine-Carries id raw r c) refl

    module _ (socket : Socket W) where
      -- The reply to a command is that of the first message with its number: messages before it that
      -- do not parse, have no number or another one are passed over, and what comes after it is not
      -- looked at. The reply is the message of the error that the answer has, and else its result.
      -- The next command has the next number. The browser is connected with a socket, the command
      -- can be dumped and is sent, and each message in question arrives in time.
      pub first_answer_taken :
          (method content : Text) (params : J) (b : BrowserAutomation W) (sent turned : W)
          (before after : List Turn) (t : Turn) (r : Reply J)
          → b.connected ≡ true
          → b.has_socket ≡ true
          → api.dump (command_of api equals_int socket b.msg_id method params) ≡ returned content
          → socket.send b.world content ≡ (true, sent)
          → socket.turns sent ≡ (before ++ t ∷ after, turned)
          → All (Skipped b.msg_id) before
          → Answers b.msg_id r t
          → send_cdp_command api equals_int socket method params b
            ≡ give r (record b { msg_id = suc b.msg_id; world = turned })
      unfolding send_cdp_command send_command ws_send await_after
      first_answer_taken method content params b sent turned before after t r c s d e f h a =
          rw (c, d, s, e, f)
            (await_reply-skip b.msg_id before (t ∷ after) _ h
              ∙ await_reply-answer b.msg_id r t after _ a)
