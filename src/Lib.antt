-- ===== src/Lib.antt =====
-- WinBot: a Windows automation server that an agent drives over stdin and stdout.
--
-- The program has two transports. McpServer reads JSON-RPC lines and hands tool calls to a thread
-- pool; ToolServer reads one request a line and answers it before the next. Both dispatch through
-- ToolRegistry, whose tools ask PermissionSystem before they touch files, processes or the shell.
-- A scheduler fires prompts by cron expressions, a keyboard hook halts the program, an audit log
-- records calls, site profiles are kept in a directory, and Lua scripts define tools.
--
-- Which file models what (paths from the repository's root):
--   Base           texts, lists, maps, results and exceptions that all parts share. A std::string
--                  is the list of its bytes, a std::wstring that of its code units. A method that
--                  changes an object and may throw is an `Exec` on its state.
--   Json           nlohmann::json, which is not part of the repository: a record of its calls.
--   Common         src/Common.h: case folding (toLower, ciEqual, ciContains) and pollUntil. A poll
--                  loop runs over the list of what its rounds meet.
--   Registry       src/core/ToolRegistry, src/core/ITool.h: the list of tools and its index.
--     Dispatch     dispatch, dispatchCall, dispatchRaw and buildToolsSchema.
--   ThreadPool     src/core/ThreadPool.h: each worker's place in workerLoop, and a step relation
--                  whose steps are those of enqueue, stop and the workers, in any order.
--   Permission     src/security/PermissionSystem: Paths has expandEnv and isSubpathOrEqual,
--                  Checks has checkPath, checkFileDelete, checkProcess and checkShellCommand.
--                  Windows, the regex engine and the user's answers are the record System.
--   Mcp            src/core/McpServer: Schema and Handlers have what processMessage calls,
--                  Execution the task that handleToolsCall queues, Loop the body of run. What the
--                  other threads do while a tool runs is an arbitrary change of the server.
--   AuditLog, Protocol, ToolServer
--                  src/security/AuditLog, src/Protocol.h, src/core/ToolServer. The loop runs over
--                  what each of its tests finds: the kill switch, a line and the clock.
--   KillSwitch     src/security/KillSwitch: install's parsing of the hotkey, and the hook. Hotkeys has
--                  the hook over a sequence of events, Halting the hotkeys that are made of known names.
--   Scheduler      src/services/Scheduler: cron fields, the list of tasks, and the worker over the
--                  local times of its wake-ups.
--   FileTools      src/tools/FileTools.cpp, over a disk that is a parameter.
--   SiteProfiles   src/services/SiteProfileRegistry, over a directory that is a parameter.
--   LuaLoader      src/services/LuaToolLoader and src/tools/LuaScriptTool, over a directory and a Lua
--                  runtime that are parameters. The unordered maps are association lists in the
--                  order of insertion.
--   ShellTools     src/tools/ShellTools.cpp, over what Windows answers: the turns of the wait of
--                  runCommand, the reads of the pipe and the exit code. The theorems hold for any cap;
--                  the program's is 4 MiB. Web has httpGet and searchWeb.
--   LuaRuntime     src/services/LuaRuntime.cpp: luaValueToJson, pushJsonValue and extractReturnValue.
--                  The Lua library is a parameter; a table is the list of its entries, which ends:
--                  tables that hold themselves, and metatables, are left out.
--     Running      execString and execFile, and the guards in front of a script.
--     Loading, Executing
--                  loadToolDefinitions and executeTool.
--     Hook, Sandbox, Bindings
--                  luaHookCallback, sandboxEnvironment, and functions that bindWinBotAPI binds.
--   InputTools     src/tools/InputTools.cpp: the operations as the lists of events that SendInput is
--                  given. Keyboard has keyPress and typeText. The coordinates are those of screens
--                  small enough that their product with 65535 fits an int.
--   EntryPoint     src/main.cpp: loadConfig, buildPermConfig, resolveAppPath, getExecutableDir and the
--                  changes that main makes to the permissions.
--   Browser        src/platform/browser/BrowserAutomation.cpp, on a connection that is a parameter:
--                  sendCdpCommand runs over the turns of its wait, each with its clock and what is
--                  received. The numbers of commands are far from the bound of an int.
--     Commands, Clicking, Dom
--                  the calls of a page; Clicking has clickSelector, Dom the script of getDom.
--     Connecting   the constructor, connectToPage and fetchPageList.
--   UiaDebugger    src/platform/uia/UIADebugger.cpp: stripQuotes and parseCommandArgs. A backslash and
--                  the quote behind it are one piece, as in the loops of the source.
--     Segments     execSegment up to its commands, execute and run; what a segment does is a parameter.
--   UiElement      src/platform/uia/UIAutomationScanner: the tree of elements of a scan and findBestMatch,
--                  whose stack is a list with its top in front; the scans themselves are not modelled.
--     Searching    findDescendant, findParent, findElementCenter and countInteractive.
--   Tests          JSON values that meet the assumptions on the library, and concrete runs.
--
-- Numbers. Values of the program's int are ℤ, and std::from_chars refuses what does not fit its
-- type, as written out in Scheduler and Permission.Checks. The length of dispatchRaw's substring and
-- the count of the hook, which are unsigned, are computed modulo 2 ^ 64.
--
-- Fuel. The digits of a printed number have one unit more than the number, which has no more digits
-- than that, and the scan of expandEnv one for each character, of which each round consumes one at
-- least. searchWeb has one unit more than the page has characters, and getExecutableDir one more than
-- the path has: both are shown to end. The loops over the tools of a script have one unit more than
-- the greatest index, behind which there is none. luaValueToJson needs as much as the value has
-- entries; with less, or on a table on which lua_next goes in circles, it is `unfinished`.
-- findBestMatch has one unit for each element of its tree, which is shown to be enough. All other loops
-- recur on their input.
--
-- nlohmann::json may throw where it parses, reads a member or prints: dump() throws type_error.316 on
-- a string that is not UTF-8. What is assumed of it is said by the records Mcp.Reliable.Reliable,
-- ToolServer.Serving.Sound and Registry.Calls.ThrowsStd: which members are found in what it builds,
-- and that it throws only std::exceptions; the tests have values that meet them. Where a theorem needs
-- that a message can be printed, this is a hypothesis on that message.
--
-- Strings of Lua. A std::string that the program makes of the char pointer of lua_tostring ends before
-- the first NUL (c_string); one that is pushed with its length does not.
--
-- Globals of Lua are the fields of one table, which the global _G names too.
--
-- Not modelled: the methods of UIHandle, the commands of the debugger and the other bindings of the
-- Lua runtime, which only call other parts, the tools on windows, screen and browser, the rest of the
-- platform code, which calls Windows, and the wiring of the parts in main. Logging is left out everywhere but where an argument of a log line may
-- throw.
pub mod Base
pub mod Json
pub mod Mcp
pub mod ThreadPool
pub mod Permission
pub mod Common
pub mod Registry
pub mod Scheduler
pub mod AuditLog
pub mod Protocol
pub mod ToolServer
pub mod KillSwitch
pub mod FileTools
pub mod SiteProfiles
pub mod LuaLoader
pub mod ShellTools
pub mod LuaRuntime
pub mod InputTools
pub mod EntryPoint
pub mod UiaDebugger
pub mod UiElement
pub mod Browser
mod Tests
