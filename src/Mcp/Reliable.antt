-- ===== src/Mcp/Reliable.antt =====
-- What the theorems on src/core/McpServer.cpp assume of nlohmann::json, and what follows for the
-- parts of the handlers that only read.
use win_bot.Base.{
  Text, text, ◌≡◌, ◌≢◌, Bool, true, false, List, [], ◌∷◌, Outcome, returned, threw, threw_unknown,
  ◌>>=◌, if◌then◌else◌, refl,
}
use win_bot.Json.{JsonApi}
use win_bot.Registry.{Tool}
use win_bot.Mcp.Schema.{
  read_client_info, schema_member, input_schema, tool_to_mcp_schema, tool_schemas, is_jsonrpc,
}

-- What is assumed of nlohmann::json: it throws only its own exceptions, which derive from
-- std::exception, and `at` finds the members that `contains` reports. A dump may throw, as it does
-- on a string that is no UTF-8.
pub record Reliable {J : Type 0} (api : JsonApi J) : Type 0 where
  pub dump : (j : J) → api.dump j ≢ threw_unknown
  pub parse : (s : Text) → api.parse s ≢ threw_unknown
  pub at : (j : J) (k : Text) → api.at j k ≢ threw_unknown
  pub at_contained :
      (j : J) (k : Text) → api.contains j k ≡ true → (v : J) × (api.at j k ≡ returned v)
  pub value_text : (j : J) (k d : Text) → api.value_text j k d ≢ threw_unknown
  pub value_json : (j : J) (k : Text) (d : J) → api.value_json j k d ≢ threw_unknown

bind_std :
    {A B : Type 0} (o : Outcome A) (f : A → Outcome B)
    → o ≢ threw_unknown
    → ((a : A) → f a ≢ threw_unknown)
    → (o >>= f) ≢ threw_unknown
bind_std (returned a) f h k = k a
bind_std (threw what) f h k = λ e. cc
bind_std threw_unknown f h k = absurd (h refl)

if_std :
    {A : Type 0} (b : Bool) (x y : Outcome A)
    → x ≢ threw_unknown
    → y ≢ threw_unknown
    → (if b then x else y) ≢ threw_unknown
if_std true x y p q = p
if_std false x y p q = q

returned_std : {A : Type 0} (a : A) → returned a ≢ threw_unknown
returned_std a e = cc

module _ {J : Type 0} {api : JsonApi J} (ok : Reliable api) where
  pub read_client_info_std : (params : J) → read_client_info api params ≢ threw_unknown
  unfolding read_client_info
  read_client_info_std params =
      if_std _ _ _
        (bind_std _ _ (ok.at params (text "clientInfo")) (λ ci.
          bind_std _ _ (ok.value_text ci (text "name") (text "unknown")) (λ _.
            bind_std _ _ (ok.value_text ci (text "version") (text "?")) (λ _. returned_std tt))))
        (returned_std tt)

  schema_member_std : (params : J) (k : Text) (d : J) → schema_member api params k d ≢ threw_unknown
  unfolding schema_member
  schema_member_std params k d = if_std _ _ _ (ok.at params k) (returned_std d)

  tool_to_mcp_schema_std : (t : Tool J) → tool_to_mcp_schema api t ≢ threw_unknown
  unfolding tool_to_mcp_schema input_schema
  tool_to_mcp_schema_std t =
      bind_std _ _
        (bind_std _ _ (schema_member_std t.parameters_schema (text "properties") (api.object []))
          (λ properties.
            if_std _ _ _
              (bind_std _ _ (ok.at t.parameters_schema (text "required"))
                (λ required. returned_std _))
              (returned_std _)))
        (λ schema. returned_std _)

  pub tool_schemas_std : (ts : List (Tool J)) → tool_schemas api ts ≢ threw_unknown
  unfolding tool_schemas
  tool_schemas_std [] = returned_std []
  tool_schemas_std (t ∷ ts) =
      bind_std _ _ (tool_to_mcp_schema_std t)
        (λ schema. bind_std _ _ (tool_schemas_std ts) (λ schemas. returned_std _))

  pub is_jsonrpc_std : (msg : J) → is_jsonrpc api msg ≢ threw_unknown
  unfolding is_jsonrpc
  is_jsonrpc_std msg =
      if_std _ _ _ (bind_std _ _ (ok.at msg (text "jsonrpc")) (λ v. returned_std _))
        (returned_std false)
