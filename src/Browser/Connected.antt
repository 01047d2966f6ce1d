-- ===== src/Browser/Connected.antt =====
-- src/platform/browser/BrowserAutomation.cpp: a browser that is connected has a socket, and one that is not
-- is left alone.
use win_bot.Base.{
  ℕ, suc, Text, is_empty, Bool, true, false, Option, none, some, List, [], ◌∷◌, ℤ, Outcome,
  returned, threw, threw_unknown, ◌≡◌, refl, arith, not, if◌then◌else◌, Bool-cases, inl, inr,
}
use win_bot.Base.Exec.{Exec, continue}
use win_bot.Json.{JsonApi}
use win_bot.Browser.{
  Turn, Received, pending, broken, message, BrowserAutomation, Socket, Reply, Awaited, ws_receive,
  is_late, examine, on_received, on_examined, await_reply, await_after, send_command, ws_send,
  command_of, send_cdp_command,
}
use win_bot.Browser.Connecting.{
  Dial, upgraded, dialled, open_socket, connect_to_page, launch_and_connect, new_browser,
  unconnected,
}

-- What is said of a browser that is connected.
unfoldable pub IsLive : {W : Type 0} → BrowserAutomation W → Type 0
IsLive b = b.connected ≡ true → b.has_socket ≡ true

module _ {J W : Type 0} (api : JsonApi J) (equals_int : J → ℤ → Bool) where
  on_received-IsLive :
      (id : ℕ) (r : Received) (go_on : BrowserAutomation W → Awaited W (Reply J))
      (b : BrowserAutomation W)
      → IsLive b
      → ((b : BrowserAutomation W) → IsLive b → IsLive (go_on b).1)
      → IsLive (on_received api equals_int id r go_on b).1
  unfolding on_received IsLive
  on_received-IsLive id pending go_on b h k = h
  on_received-IsLive id (broken why) go_on b h k = λ e. ground (arith, e)
  on_received-IsLive id (message raw) go_on b h k = examined (examine api equals_int id raw)
    where
      examined : (o : Outcome (Option (Reply J))) → IsLive (on_examined api equals_int o go_on b).1
      examined (returned none) = k b h
      examined (returned (some r)) = h
      examined (threw what) = h
      examined threw_unknown = h

  await_reply-IsLive :
      (id : ℕ) (turns : List Turn) (b : BrowserAutomation W)
      → IsLive b
      → IsLive (await_reply api equals_int id turns b).1
  unfolding await_reply
  await_reply-IsLive id [] b h = h
  await_reply-IsLive id (t ∷ turns) b h = elim (Bool-cases (is_late t.elapsed)) [
    | inl e ↦ rw e h
    | inr e ↦ rw e (
        on_received-IsLive id (ws_receive t.receipts []) (await_reply api equals_int id turns) b h
          (λ b' h'. await_reply-IsLive id turns b' h'))
  ]

  module _ (socket : Socket W) where
    await_after-IsLive :
        (id : ℕ) (sent : Bool × BrowserAutomation W)
        → IsLive sent.1
        → IsLive (await_after api equals_int socket id sent).1
    unfolding await_after IsLive
    await_after-IsLive id (false, b) h = h
    await_after-IsLive id (true, b) h =
        await_reply-IsLive id (socket.turns b.world).0
          (record b { world = (socket.turns b.world).1 }) h

    ws_send-IsLive :
        (content : Text) (b : BrowserAutomation W)
        → IsLive b
        → IsLive (ws_send api equals_int socket content b).1
    unfolding ws_send IsLive
    ws_send-IsLive content b h = elim (Bool-cases b.has_socket) [
      | inl e ↦ rw e (λ c. refl)
      | inr e ↦ (let q = rw e at h in rw e q)
    ]

    send_command-IsLive :
        (id : ℕ) (content : Outcome Text) (b : BrowserAutomation W)
        → IsLive b
        → IsLive (send_command api equals_int socket id content b).1
    unfolding send_command
    send_command-IsLive id (returned content) b h =
        await_after-IsLive id (ws_send api equals_int socket content b) (ws_send-IsLive content b h)
    send_command-IsLive id (threw what) b h = h
    send_command-IsLive id threw_unknown b h = h

    send_cdp_command-IsLive :
        (method : Text) (params : J) (b : BrowserAutomation W)
        → IsLive b
        → IsLive (send_cdp_command api equals_int socket method params b).1
    unfolding send_cdp_command IsLive
    send_cdp_command-IsLive method params b h = elim (Bool-cases b.connected) [
      | inl e ↦
          (let q = rw e at h in
            rw e (
              send_command-IsLive b.msg_id
                (api.dump (command_of api equals_int socket b.msg_id method params))
                (record b { connected = true; msg_id = suc b.msg_id }) q))
      | inr e ↦ (let q = rw e at h in rw e q)
    ]

if-IsLive :
    {W A : Type 0} (c : Bool) (m n : A × BrowserAutomation W)
    → IsLive m.1
    → IsLive n.1
    → IsLive (if c then m else n).1
if-IsLive true m n h k = h
if-IsLive false m n h k = k

module _ {J W : Type 0} (api : JsonApi J) (dial : Dial W) (has_session : Bool) where
  upgraded-IsLive :
      (r : Bool × W) (b : BrowserAutomation W)
      → IsLive b
      → IsLive (upgraded api dial has_session r b).1
  unfolding upgraded IsLive
  upgraded-IsLive (false, w) b h = h
  upgraded-IsLive (true, w) b h = λ e. refl

  dialled-IsLive :
      (path : Text) (r : Bool × W) (b : BrowserAutomation W)
      → IsLive b
      → IsLive (dialled api dial has_session path r b).1
  unfolding dialled IsLive
  dialled-IsLive path (false, w) b h = h
  dialled-IsLive path (true, w) b h = upgraded-IsLive (dial.upgrade w path) b h

  open_socket-IsLive :
      (path : Option Text) (b : BrowserAutomation W)
      → IsLive b
      → IsLive (open_socket api dial has_session path b).1
  unfolding open_socket
  open_socket-IsLive none b h = h
  open_socket-IsLive (some path) b h = elim (Bool-cases has_session) [
    | inl e ↦
        (let p = dialled-IsLive path (dial.connect b.world) b h in let q = rw e at p in rw e q)
    | inr e ↦ rw e h
  ]

  continue-IsLive :
      {A B : Type 0} (o : Outcome A) (f : A → Exec (BrowserAutomation W) B)
      (b : BrowserAutomation W)
      → IsLive b
      → ((a : A) (b : BrowserAutomation W) → IsLive b → IsLive (f a b).1)
      → IsLive (continue o f b).1
  continue-IsLive (returned a) f b h k = k a b h
  continue-IsLive (threw what) f b h k = h
  continue-IsLive threw_unknown f b h k = h

  connect_to_page-IsLive :
      (b : BrowserAutomation W) → IsLive b → IsLive (connect_to_page api dial has_session b).1
  unfolding connect_to_page IsLive
  connect_to_page-IsLive b h =
      continue-IsLive _ (open_socket api dial has_session)
        (record b { world = (dial.fetch b.world).1 }) h open_socket-IsLive

  launch_and_connect-IsLive :
      (exe : Text) (connected : Bool) (b : BrowserAutomation W)
      → IsLive b
      → IsLive (launch_and_connect api dial has_session exe connected b).1
  unfolding launch_and_connect IsLive
  launch_and_connect-IsLive exe true b h = h
  launch_and_connect-IsLive exe false b h = elim (Bool-cases (is_empty exe)) [
    | inl e ↦ rw e h
    | inr e ↦
        (let launched = record b { world = dial.launch b.world exe } in
          let m = connect_to_page api dial has_session launched in
          rw e (
            continue-IsLive m.0 (λ connected b''. (returned tt, b'')) m.1
              (connect_to_page-IsLive launched h) (λ connected b' h'. h')))
  ]

  new_browser-IsLive : (exe : Text) (w : W) → IsLive (new_browser api dial has_session exe w).1
  unfolding new_browser IsLive
  new_browser-IsLive exe w =
      let m = connect_to_page api dial has_session (unconnected w) in
      let live = connect_to_page-IsLive (unconnected w) (λ c. ground (arith, c)) in
      if-IsLive (not has_session) (returned tt, unconnected w) _ (λ c. ground (arith, c))
        (continue-IsLive m.0 (launch_and_connect api dial has_session exe) m.1 live
          (launch_and_connect-IsLive exe))

module _ {J W : Type 0} (api : JsonApi J) (equals_int : J → ℤ → Bool) (socket : Socket W)
    (dial : Dial W) (has_session : Bool) where
  -- A browser that says it is connected has a socket: the constructor leaves it so, whether the page
  -- is found at once, after the launch, or not at all, and each command keeps it so.
  pub socket_whenever_connected :
      (exe method : Text) (w : W) (params : J) (b : BrowserAutomation W)
      → IsLive b
      → IsLive (new_browser api dial has_session exe w).1
        × IsLive (send_cdp_command api equals_int socket method params b).1
  socket_whenever_connected exe method w params b h = (
    new_browser-IsLive api dial has_session exe w,
    send_cdp_command-IsLive api equals_int socket method params b h,
  )
