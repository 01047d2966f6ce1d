-- ===== src/Registry.antt =====
-- src/core/ITool.h and src/core/ToolRegistry.cpp: the tools, and the table that they are called by.
-- `tools` is m_tools, `index` is m_index; an operation also says whether it calls m_changeCallback.
pub mod Dispatch
pub mod Consistent
pub mod Calls
pub mod Refinement
use win_bot.Base.{
  ℕ, Text, text, text_eq, Bool, true, false, Option, none, some, List, [], ◌∷◌, ◌++◌, Outcome,
  ToolResult, ok, err, Map, lookup, insert, erase, is_some, erase_if, if◌then◌else◌, returned, not,
}

-- std::stop_token: what each successive call of stop_requested() answers.
abbrev pub StopToken : Type 0
StopToken = ℕ → Bool

-- ITool
pub record Tool (J : Type 0) : Type 0 where
  pub name : Text
  pub description : Text
  pub parameters_schema : J
  pub execute : J → StopToken → Outcome ToolResult

-- LambdaTool: either handler may be missing.
pub record LambdaTool (J : Type 0) : Type 0 where
  pub name : Text
  pub description : Text
  pub schema : J
  pub handler : Option (J → Outcome ToolResult)
  pub cancelable_handler : Option (J → StopToken → Outcome ToolResult)

pub record ToolRegistry (J : Type 0) : Type 0 where
  pub tools : List (Tool J)
  pub index : Map (Tool J)
  pub has_callback : Bool

-- What a call leaves: the registry, and whether the callback was called.
pub record Change (J : Type 0) : Type 0 where
  pub registry : ToolRegistry J
  pub notified : Bool

module _ {J : Type 0} where
  run_handler : Option (J → Outcome ToolResult) → J → Outcome ToolResult
  run_handler none args = returned (err (text "No handler defined"))
  run_handler (some f) args = f args

  run_lambda :
      Option (J → StopToken → Outcome ToolResult)
      → Option (J → Outcome ToolResult)
      → J
      → StopToken
      → Outcome ToolResult
  run_lambda (some f) handler args token = f args token
  run_lambda none handler args token = run_handler handler args

  -- LambdaTool as an ITool
  unfoldable pub lambda_tool : LambdaTool J → Tool J
  unfolding run_lambda run_handler
  lambda_tool t = record {
    name = t.name;
    description = t.description;
    parameters_schema = t.schema;
    execute = run_lambda t.cancelable_handler t.handler;
  }

  unfoldable pub set_change_callback : Bool → ToolRegistry J → ToolRegistry J
  set_change_callback cb r = record r { has_callback = cb }

  -- The loop over m_tools: the first tool of that name is overwritten.
  replace_first : Text → Tool J → List (Tool J) → List (Tool J)
  replace_first name tool [] = []
  replace_first name tool (t ∷ ts) =
      if text_eq t.name name then tool ∷ ts else t ∷ replace_first name tool ts

  register_some : Tool J → ToolRegistry J → Change J
  unfolding replace_first
  register_some tool r =
      if is_some (lookup tool.name r.index)
      then record {
        registry = record r {
          tools = replace_first tool.name tool r.tools;
          index = insert tool.name tool r.index;
        };
        notified = r.has_callback;
      }
      else record {
        registry = record r { tools = r.tools ++ tool ∷ []; index = insert tool.name tool r.index };
        notified = r.has_callback;
      }

  -- registerOrReplaceTool; `none` is a null pointer
  unfoldable pub register_or_replace_tool : Option (Tool J) → ToolRegistry J → Change J
  unfolding register_some
  register_or_replace_tool none r = record { registry = r; notified = false }
  register_or_replace_tool (some tool) r = register_some tool r

  unfoldable pub register_tool : Option (Tool J) → ToolRegistry J → Change J
  unfolding register_or_replace_tool
  register_tool = register_or_replace_tool

  -- unregisterTool, with its result
  unfoldable pub unregister_tool : Text → ToolRegistry J → Change J × Bool
  unregister_tool name r =
      if is_some (lookup name r.index)
      then (
        record {
          registry = record r {
            tools = erase_if (λ t. text_eq t.name name) r.tools;
            index = erase name r.index;
          };
          notified = r.has_callback;
        },
        true,
      )
      else (record { registry = r; notified = false }, false)

  -- registerSelfRegisteredTools: `made` is what each factory returns, `enabled` is isToolEnabled
  -- of deps.perms, constantly true when that pointer is null.
  unfoldable pub register_self_registered_tools :
      (Text → Bool) → List (Option (Tool J)) → ToolRegistry J → ToolRegistry J
  register_self_registered_tools enabled [] r = r
  register_self_registered_tools enabled (none ∷ made) r =
      register_self_registered_tools enabled made r
  register_self_registered_tools enabled (some tool ∷ made) r =
      register_self_registered_tools enabled made
        (if enabled tool.name then (register_tool (some tool) r).registry else r)

  unfoldable pub has_tool : Text → ToolRegistry J → Bool
  has_tool name r = is_some (lookup name r.index)

  unfoldable pub snapshot : ToolRegistry J → List (Tool J)
  snapshot r = r.tools

  abbrev pub empty : ToolRegistry J
  empty = record { tools = []; index = []; has_callback = false }
