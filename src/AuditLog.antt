-- ===== src/AuditLog.antt =====
-- src/security/AuditLog.h and .cpp: the log of tool calls, one JSON line for each.
use win_bot.Base.{Text, text, Bool, false, List, [], ◌∷◌, ◌++◌, if◌then◌else◌}
use win_bot.Base.Exec.{Exec, pure, lift, modify, ◌>>=◌}
use win_bot.Json.{JsonApi}

pub record AuditEntry (J : Type 0) : Type 0 where
  pub timestamp : Text
  pub task : Text
  pub tool : Text
  pub args : J
  pub result : Text
  pub detail : Text

-- `lines` is what has been written to the stream.
pub record AuditLog : Type 0 where
  pub enabled : Bool
  pub lines : List Text

module _ {J : Type 0} (api : JsonApi J) where
  abbrev pub entry_json : AuditEntry J → J
  entry_json entry = api.object (
      (text "ts", api.string entry.timestamp)
      ∷ (text "task", api.string entry.task)
      ∷ (text "tool", api.string entry.tool)
      ∷ (text "args", entry.args)
      ∷ (text "result", api.string entry.result)
      ∷ (text "detail", api.string entry.detail)
      ∷ [])

  unfoldable pub write_line : J → Exec AuditLog (Unit {0})
  write_line j = do
    line ← lift (api.dump j)
    modify (λ log. record log { lines = log.lines ++ line ∷ [] })

  -- AuditLog::record
  unfoldable pub record_entry : AuditEntry J → Exec AuditLog (Unit {0})
  unfolding write_line
  record_entry entry log = if log.enabled then write_line (entry_json entry) log else pure tt log

  unfoldable pub note : Text → Text → Exec AuditLog (Unit {0})
  unfolding write_line
  note now message log =
      if log.enabled
      then write_line
          (api.object ((text "ts", api.string now) ∷ (text "note", api.string message) ∷ [])) log
      else pure tt log

  -- The constructor; `opened` is whether the directory could be made and the file opened.
  unfoldable pub new_log : Bool → Text → Exec AuditLog (Unit {0})
  unfolding note
  new_log opened now log =
      if opened
      then note now (text "=== WinBot session started " ++ now ++ text " ===") log
      else (pure tt) (record log { enabled = false })
