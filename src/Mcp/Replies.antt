-- ===== src/Mcp/Replies.antt =====
-- src/core/McpServer.cpp: each request is answered once, by the reader or by the call it queues.
use win_bot.Base.{
  Text, text, text_eq, is_empty, ◌≡◌, ◌≢◌, refl, ◌∙◌, inl, inr, Bool, true, false, [], ◌∷◌, ◌++◌,
  Outcome, returned, threw, threw_unknown, ℤ, Bool-cases, if◌then◌else◌,
}
use win_bot.Base.Exec.{Exec, lift, modify, continue, ◌>>=◌}
use win_bot.Json.{JsonApi}
use win_bot.Registry.{snapshot}
use win_bot.ThreadPool.{enqueue}
use win_bot.Mcp.{Call, Server, result_message, error_message, write, send, send_result, send_error}
use win_bot.Mcp.Schema.{read_client_info, negotiated, tool_schemas}
use win_bot.Mcp.Reliable.{Reliable, read_client_info_std, tool_schemas_std}
use win_bot.Mcp.Handlers.{
  initialize_result, handle_initialize, handle_tools_list, submit, handle_tools_call, handle_ping,
  handle_method, when_initialized, handle_request,
}

module _ {J : Type 0} (api : JsonApi J) where
  -- A response to the request `id`: a result or an error.
  pub data IsReply (id : J) : J → Type 0 where
    result : (r : J) → IsReply id (result_message api id r)
    error : (code : ℤ) (message : Text) → IsReply id (error_message api id code message)

  -- From `s` to `s'` the request `id` was answered, or its one call was handed to the pool.
  pub data Effect (id : J) (s s' : Server J) : Type 0 where
    answered :
        (reply : J)
        → IsReply id reply
        → s'.output ≡ s.output ++ reply ∷ []
        → s'.pool ≡ s.pool
        → Effect id s s'
    queued :
        (call : Call J)
        → call.id ≡ id
        → s'.pool ≡ (enqueue call s.pool).0
        → s'.output ≡ s.output
        → Effect id s s'

  -- An action has served the request, or has thrown before it did anything.
  pub data Serves (id : J) (s : Server J) : Outcome (Unit {0}) × Server J → Type 0 where
    served : {s' : Server J} → Effect id s s' → Serves id s (returned tt, s')
    failed : (what : Text) → Serves id s (threw what, s)

  -- An action serves the request in every state.
  pub record Serving (id : J) (m : Exec (Server J) (Unit {0})) : Type 0 where
    pub from : (s : Server J) → Serves id s (m s)

module _ {J : Type 0} {api : JsonApi J} (ok : Reliable api) where
  -- A reply is written, or its dump throws and nothing is.
  Serves-send :
      (id msg : J) → IsReply api id msg → (s : Server J) → Serves api id s (send api msg s)
  unfolding send write
  Serves-send id msg i s = go (api.dump msg) (ok.dump msg)
    where
      go : (o : Outcome Text) → o ≢ threw_unknown → Serves api id s (write api msg o s)
      go (returned line) h = served (answered msg i refl refl)
      go (threw what) h = failed what
      go threw_unknown h = absurd (h refl)

  Serves-result : (id r : J) (s : Server J) → Serves api id s (send_result api id r s)
  unfolding send_result
  Serves-result id r s = Serves-send id (result_message api id r) (result r) s

  pub Serves-error :
      (id : J) (code : ℤ) (message : Text) (s : Server J)
      → Serves api id s (send_error api id code message s)
  unfolding send_error
  Serves-error id code message s =
      Serves-send id (error_message api id code message) (error code message) s

  pub Serves-lift :
      {A : Type 0} (id : J) (s : Server J) (o : Outcome A) (f : A → Exec (Server J) (Unit {0}))
      → o ≢ threw_unknown
      → ((a : A) → Serves api id s (f a s))
      → Serves api id s ((lift o >>= f) s)
  Serves-lift id s (returned a) f h k = k a
  Serves-lift id s (threw what) f h k = failed what
  Serves-lift id s threw_unknown f h k = absurd (h refl)

  -- A change that leaves the output and the pool alone may follow.
  Serves-then :
      (id : J) (s : Server J) (f : Server J → Server J) (r : Outcome (Unit {0}) × Server J)
      → ((s' : Server J) → (f s').output ≡ s'.output)
      → ((s' : Server J) → (f s').pool ≡ s'.pool)
      → Serves api id s r
      → Serves api id s (continue r.0 (λ _. modify f) r.1)
  Serves-then id s f r output pool (served {s'} (answered reply i o p)) =
      served (answered reply i (output s' ∙ o) (pool s' ∙ p))
  Serves-then id s f r output pool (served {s'} (queued call c p o)) =
      served (queued call c (pool s' ∙ p) (output s' ∙ o))
  Serves-then id s f r output pool (failed what) = failed what

  Serves-initialize :
      (id params : J) (s : Server J) → Serves api id s (handle_initialize api id params s)
  unfolding handle_initialize
  Serves-initialize id params s =
      Serves-lift id s (read_client_info api params) _ (read_client_info_std ok params) (λ _.
        Serves-lift id s (api.value_text params (text "protocolVersion") []) _
          (ok.value_text params (text "protocolVersion") [])
          (λ client.
            let r = initialize_result api (negotiated client) s in
            Serves-then id s (λ s'. record s' { initialized = true }) (send_result api id r s)
              (λ s'. refl) (λ s'. refl) (Serves-result id r s)))

  Serves-tools_list : (id : J) (s : Server J) → Serves api id s (handle_tools_list api id s)
  unfolding handle_tools_list
  Serves-tools_list id s =
      Serves-lift id s (tool_schemas api (snapshot s.registry)) _
        (tool_schemas_std ok (snapshot s.registry)) (λ schemas. Serves-result id _ s)

  pub Serving-if :
      (id : J) (b : Bool) (m n : Exec (Server J) (Unit {0}))
      → Serving api id m
      → Serving api id n
      → Serving api id (if b then m else n)
  Serving-if id true m n p q = p
  Serving-if id false m n p q = q

  Serving-result : (id r : J) → Serving api id (send_result api id r)
  Serving-result id r = record { from = Serves-result id r }

  pub Serving-error :
      (id : J) (code : ℤ) (message : Text) → Serving api id (send_error api id code message)
  Serving-error id code message = record { from = Serves-error id code message }

  Serves-tools_call :
      (id params : J) (s : Server J) → Serves api id s (handle_tools_call api id params s)
  unfolding handle_tools_call submit
  Serves-tools_call id params s =
      Serves-lift id s (api.value_text params (text "name") []) _
        (ok.value_text params (text "name") [])
        (λ name.
          (Serving-if id (is_empty name) _ _ (Serving-error id _ _) (record {
            from = λ s.
                Serves-lift id s (api.value_json params (text "arguments") (api.object [])) _
                  (ok.value_json params (text "arguments") (api.object []))
                  (λ args.
                    Serves-lift id s (api.dump id) _ (ok.dump id)
                      (λ key. served (queued _ refl refl refl)));
          })).from
            s)

  Serving-tools_list : (id : J) → Serving api id (handle_tools_list api id)
  Serving-tools_list id = record { from = Serves-tools_list id }

  Serving-tools_call : (id params : J) → Serving api id (handle_tools_call api id params)
  Serving-tools_call id params = record { from = Serves-tools_call id params }

  Serving-method :
      (method : Text) (id params : J) → Serving api id (handle_method api method id params)
  unfolding handle_method
  Serving-method method id params =
      search (Serving-if, Serving-result, Serving-error, Serving-tools_list, Serving-tools_call)
        depth 12

  Serving-when_initialized :
      (id : J) (m : Exec (Server J) (Unit {0}))
      → Serving api id m
      → Serving api id (when_initialized api id m)
  unfolding when_initialized
  Serving-when_initialized id m h = record {
    from = λ s. elim (Bool-cases s.initialized) [
      | inl e ↦ simp e (h.from s)
      | inr e ↦ simp e (Serves-error id _ _ s)
    ];
  }

  Serving-initialize : (id params : J) → Serving api id (handle_initialize api id params)
  Serving-initialize id params = record { from = Serves-initialize id params }

  Serving-ping : (id : J) → Serving api id (handle_ping api id)
  unfolding handle_ping
  Serving-ping id = Serving-result id (api.object [])

  pub Serving-request :
      (method : Text) (id params : J) → Serving api id (handle_request api method id params)
  unfolding handle_request
  Serving-request method id params = Serving-if id (is_empty method) _ _ (Serving-error id _ _) (
      Serving-if id (text_eq method (text "initialize")) _ _ (Serving-initialize id params) (
        Serving-if id (text_eq method (text "ping")) _ _ (Serving-ping id)
          (Serving-when_initialized id _ (Serving-method method id params))))
