-- ===== src/Tests.antt =====
-- Concrete inputs: the theorems at data of the kind that the program meets, and short runs.
mod JsonValue
mod JsonLaws
mod Server
mod Registry
mod Permission
mod Pool
mod Scheduler
mod ToolServer
mod KillSwitch
mod FileTools
mod SiteProfiles
mod LuaLoader
mod ShellTools
mod LuaRuntime
mod LuaScripts
mod InputTools
mod EntryPoint
mod Browser
mod UiaDebugger
mod UiElement
