-- ===== src/LuaRuntime/Hook.antt =====
-- src/services/LuaRuntime.cpp, luaHookCallback: when the hook of a running script ends it.
use win_bot.Base.{
  ℕ, suc, ◌+◌, ◌-◌, ◌*◌, ◌/◌, ◌%◌, ◌^◌, ◌<◌, Text, text, Bool, true, false, ◌&&◌, ◌||◌, Bool-cases,
  Option, none, some, is_some, List, [], ◌∷◌, ltb, if◌then◌else◌, ◌≡◌, refl, inl, inr, ap, arith,
}

-- The clocks are counts of nanoseconds; a timeout that is not positive is 0.
pub record HookContext : Type 0 where
  pub start_time : ℕ
  pub timeout_ms : ℕ
  pub instruction_count : ℕ
  pub max_instructions : ℕ

-- One call of the hook: whether the kill switch is triggered, and the clock.
pub record HookCall : Type 0 where
  pub killed : Bool
  pub now : ℕ

-- `m_timeout` and `m_maxInstructions` at the start of a script
unfoldable pub started : ℕ → ℕ → ℕ → HookContext
started now timeout_ms max = record {
  start_time = now;
  timeout_ms = timeout_ms;
  instruction_count = 0;
  max_instructions = max;
}

abbrev counted : HookContext → HookContext
counted ctx = record {
  start_time = ctx.start_time;
  timeout_ms = ctx.timeout_ms;
  instruction_count = (ctx.instruction_count + 500) % 2 ^ 64;
  max_instructions = ctx.max_instructions;
}

abbrev elapsed_ms : HookContext → ℕ → ℕ
elapsed_ms ctx now = (now - ctx.start_time) / 1000000

-- The message of the error that ends the script, or none.
unfoldable pub verdict : HookContext → ℕ → Option Text
verdict ctx now =
    if ltb ctx.max_instructions ctx.instruction_count
    then some (text "Script execution aborted: instruction limit exceeded")
    else if ltb 0 ctx.timeout_ms && ltb ctx.timeout_ms (elapsed_ms ctx now)
    then some (text "Script execution aborted: timeout expired")
    else none

unfoldable pub lua_hook_callback : HookCall → HookContext → Option Text × HookContext
unfolding verdict
lua_hook_callback call ctx = (
  if call.killed
      then some (text "Script execution aborted: KillSwitch triggered")
      else verdict (counted ctx) call.now,
  if call.killed then ctx else counted ctx,
)

-- The context behind some calls of the hook.
unfoldable pub after : List HookCall → HookContext → HookContext
unfolding lua_hook_callback
after [] ctx = ctx
after (call ∷ calls) ctx = after calls (lua_hook_callback call ctx).1

-- The calls that count: those without the kill switch.
unfoldable pub live_calls : List HookCall → ℕ
live_calls [] = 0
live_calls (call ∷ calls) = if call.killed then live_calls calls else suc (live_calls calls)

abbrev advanced : ℕ → HookContext → HookContext
advanced k ctx = record {
  start_time = ctx.start_time;
  timeout_ms = ctx.timeout_ms;
  instruction_count = k;
  max_instructions = ctx.max_instructions;
}

after_lem :
    (calls : List HookCall) (ctx : HookContext)
    → ctx.instruction_count + 500 * live_calls calls < 2 ^ 64
    → after calls ctx ≡ advanced (ctx.instruction_count + 500 * live_calls calls) ctx
unfolding after live_calls lua_hook_callback
after_lem [] ctx h = ap (λ k. advanced k ctx) (omega arith)
after_lem (call ∷ calls) ctx h = elim (Bool-cases call.killed) [
  | inl e ↦ simp e (after_lem calls ctx (let g = simp e at h in g))
  | inr e ↦
      let g : ctx.instruction_count + 500 * suc (live_calls calls) < 2 ^ 64 = simp e at h in
      let c : (ctx.instruction_count + 500) % 2 ^ 64 ≡ ctx.instruction_count + 500 = omega arith in
      simp e (
        let ih = after_lem calls (advanced (ctx.instruction_count + 500) ctx) (omega arith) in
        rw c (rw ih (ap (λ k. advanced k ctx) (omega arith))))
]

-- The conditions of the three errors.
abbrev is_over : ℕ → ℕ → ℕ → List HookCall → HookCall → Bool
is_over start timeout_ms max calls call =
    call.killed
    || (ltb max (500 * suc (live_calls calls))
        || (ltb 0 timeout_ms && ltb timeout_ms ((call.now - start) / 1000000)))

-- After any calls of the hook, while 500 for each fits in 64 bits, the next one raises an error in
-- the script exactly when the kill switch is triggered, or 500 for each call without the kill
-- switch, the next one included, is more than the limit, or there is a timeout and more
-- milliseconds than it have passed.
pub lua_hook_callback-after :
    (start timeout_ms max : ℕ) (calls : List HookCall) (call : HookCall)
    → 500 * suc (live_calls calls) < 2 ^ 64
    → is_some (lua_hook_callback call (after calls (started start timeout_ms max))).0
      ≡ is_over start timeout_ms max calls call
unfolding lua_hook_callback verdict started
lua_hook_callback-after start timeout_ms max calls call h =
    let e = after_lem calls (started start timeout_ms max) (omega arith) in
    let c : (0 + 500 * live_calls calls + 500) % 2 ^ 64 ≡ 500 * suc (live_calls calls) =
      omega arith in
    rw (e, c)
      (go call.killed (ltb max (500 * suc (live_calls calls)))
        (ltb 0 timeout_ms && ltb timeout_ms ((call.now - start) / 1000000)))
  where
    go :
        (k l t : Bool)
        → is_some (
            if k
            then some (text "Script execution aborted: KillSwitch triggered")
            else if l
            then some (text "Script execution aborted: instruction limit exceeded")
            else if t
            then some (text "Script execution aborted: timeout expired")
            else none)
          ≡ (k || (l || t))
    go true l t = refl
    go false true t = refl
    go false false true = refl
    go false false false = refl
