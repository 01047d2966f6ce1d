-- ===== src/Mcp/Cancellation.antt =====
-- src/core/McpServer.cpp: which calls notifications/cancelled reaches, and what an uninitialized
-- server answers.
use win_bot.Base.{
  ◌+◌, ◌≡◌, ◌≢◌, refl, ◌∙◌, Text, text, text_eq, text_eq_refl, Bool, true, false, none, some, [],
  ◌∷◌, ◌++◌, returned, arith, if◌then◌else◌, lookup, insert, lookup-insert, lookup-erase, is_empty,
  not,
}
use win_bot.Json.{JsonApi}
use win_bot.Mcp.{
  Server, is_cancelled, cancel_request, write, send, send_error, error_message, not_initialized,
}
use win_bot.Mcp.Handlers.{submit, handle_request}
use win_bot.Mcp.Execution.{release}

module _ {J : Type 0} where
  -- The server after a tools/call was submitted.
  abbrev pub submitted : J → Text → J → Text → Server J → Server J
  submitted id tool_name args key s = (submit id tool_name args key s).1

  -- Once a call is submitted, a cancellation of its key is accepted and reaches that very call.
  pub cancel-submit :
      (id : J) (tool_name : Text) (args : J) (key : Text) (s : Server J)
      → let (s', accepted) = cancel_request key (submitted id tool_name args key s) in
        (accepted ≡ true) × (is_cancelled s.next_object s' ≡ true)
  unfolding cancel_request is_cancelled submit
  cancel-submit id tool_name args key s =
      let found = lookup-insert key key s.next_object s.active_requests in
      (ground (arith, found, text_eq_refl key), ground (arith, found, text_eq_refl key))

  -- A cancellation of another key leaves the submitted call as it was, where its object is fresh.
  pub cancel-submit_other :
      (id : J) (tool_name : Text) (args : J) (key other : Text) (s : Server J)
      → text_eq key other ≡ false
      → lookup other s.active_requests ≢ some s.next_object
      → is_cancelled s.next_object (cancel_request other (submitted id tool_name args key s)).0
        ≡ is_cancelled s.next_object s
  unfolding cancel_request is_cancelled submit
  cancel-submit_other id tool_name args key other s ne fresh =
      ground (arith, lookup-insert key other s.next_object s.active_requests)

  cancel_missing :
      (key : Text) (s : Server J)
      → lookup key s.active_requests ≡ none
      → cancel_request key s ≡ (s, false)
  unfolding cancel_request
  cancel_missing key s e = rw (e, cancel_request)

  -- Two calls in flight with one id share one entry of the active requests. When the first of them
  -- ends it removes the entry, and a cancellation is then refused and leaves the second running.
  pub duplicate_not_cancellable :
      (id : J) (tool_name other_tool : Text) (args other_args : J) (key : Text) (s : Server J)
      → let both = submitted id other_tool other_args key (submitted id tool_name args key s) in
        (lookup key both.active_requests ≡ some (s.next_object + 1))
        × (cancel_request key (release key both) ≡ (release key both, false))
  unfolding submit release
  duplicate_not_cancellable id tool_name other_tool args other_args key s =
      let first = insert key s.next_object s.active_requests in
      let second = insert key (s.next_object + 1) first in
      (
        ground (arith, lookup-insert key key (s.next_object + 1) first, text_eq_refl key),
        cancel_missing key _ (ground (arith, lookup-erase key key second, text_eq_refl key)),
      )

not_ready : {A : Type 0} (b : Bool) (x y : A) → b ≡ false → (if not b then x else y) ≡ x
not_ready true x y e = cc
not_ready false x y e = refl

-- Before initialization a request is refused and nothing else happens, unless its method is
-- 'initialize' or 'ping' (or missing), where that answer can be dumped.
pub uninitialized_refused :
    {J : Type 0} (api : JsonApi J) (method line : Text) (id params : J) (s : Server J)
    → api.dump (
        error_message api id not_initialized
          (text "Server not initialized. Send 'initialize' first."))
      ≡ returned line
    → s.initialized ≡ false
    → is_empty method ≡ false
    → text_eq method (text "initialize") ≡ false
    → text_eq method (text "ping") ≡ false
    → handle_request api method id params s ≡ (
      returned tt,
      record s {
        output =
            s.output
            ++ error_message api id not_initialized
                (text "Server not initialized. Send 'initialize' first.")
              ∷ [];
      },
    )
unfolding handle_request send_error send write
uninitialized_refused api method line id params s d n e i p =
    simp (e, i, p) (not_ready s.initialized _ _ n ∙ rw d refl)
