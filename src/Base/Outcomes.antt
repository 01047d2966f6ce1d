-- ===== src/Base/Outcomes.antt =====
-- Results and exceptions. `ToolResult` is Common.h's std::expected<std::string, std::string>;
-- an `Outcome` is what a call does in C++: return, throw a std::exception, or throw something else.
use win_bot.Base.Texts.{Text}

-- ToolResult: `ok` and `err` of Common.h
pub data ToolResult : Type 0 where
  ok : Text → ToolResult
  err : Text → ToolResult

pub data Outcome {ℓ} (A : Type ℓ) : Type ℓ where
  returned : A → Outcome A
  threw : Text → Outcome A
  threw_unknown : Outcome A

infixl 5 ◌>>=◌
abbrev pub ◌>>=◌ {ℓ κ} : {A : Type ℓ} {B : Type κ} → Outcome A → (A → Outcome B) → Outcome B
returned a >>= f = f a
threw what >>= f = threw what
threw_unknown >>= f = threw_unknown
