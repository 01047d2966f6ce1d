-- ===== src/Tests/Registry.antt =====
-- src/core/ToolRegistry.cpp and src/Common.h at concrete tools, replies and texts.
use win_bot.Base.{text, ◌≡◌, false, [], ◌∷◌, some, returned, threw, none, is_some}
use win_bot.Json.{JsonApi}
use win_bot.Registry.{Tool, StopToken, empty, unregister_tool, has_tool}
use win_bot.Registry.Refinement.{table_apply_all, table_call, registry_refines_map}
use win_bot.Registry.Dispatch.{dispatch}
use win_bot.Registry.Consistent.{
  register, unregister, apply_all, IsConsistent, reachable-IsConsistent,
}
use win_bot.Tests.JsonValue.{Value, null, value_api}
use win_bot.Tests.JsonLaws.{dump_text}

abbrev calc : Tool Value
calc = record {
  name = text "calc";
  description = text "adds";
  parameters_schema = null;
  execute = λ args token. threw (text "overflow");
}

abbrev no_stop : StopToken
no_stop n = false

reachable-IsConsistent_example :
    IsConsistent (
      apply_all (register (some calc) ∷ unregister (text "calc") ∷ register (some calc) ∷ []) empty)
reachable-IsConsistent_example =
    reachable-IsConsistent
      (register (some calc) ∷ unregister (text "calc") ∷ register (some calc) ∷ [])

abbrev broken : JsonApi Value
broken = value_api (λ s. threw (text "syntax error")) (λ j. returned (dump_text j))

registry_refines_map_example :
    let ops = register (some calc) ∷ unregister (text "calc") ∷ register (some calc) ∷ [] in
    let r = apply_all ops empty in
    let m = table_apply_all ops (λ k. none) in
    (dispatch r (text "calc") null no_stop ≡ table_call m (text "calc") null no_stop)
    × (has_tool (text "calc") r ≡ is_some (m (text "calc")))
    × ((unregister_tool (text "calc") r).1 ≡ is_some (m (text "calc")))
registry_refines_map_example =
    registry_refines_map
      (register (some calc) ∷ unregister (text "calc") ∷ register (some calc) ∷ []) (text "calc")
      null no_stop
