-- ===== src/Tests/FileTools.antt =====
-- src/tools/FileTools.cpp on a disk with one file.
use win_bot.Base.{
  Text, text, text_eq, length, true, false, Option, none, some, [], ◌∷◌, ◌++◌, Outcome, returned,
  threw, ToolResult, err, if◌then◌else◌, ◌≡◌, refl,
}
use win_bot.Json.{JsonApi}
use win_bot.Permission.Checks.{check_path}
use win_bot.FileTools.{
  FileApi, Perms, path_check, read_file_tool, write_file_tool, append_file_tool,
  list_directory_tool, delete_file_tool,
}
use win_bot.FileTools.Guarding.{refused_untouched}
use win_bot.Tests.JsonValue.{Value, string, object, end, field, value_api}
use win_bot.Tests.JsonLaws.{dump_text}
use win_bot.Tests.Permission.{windows, rules}

-- The name and the bytes of the one file.
abbrev Disk : Type 0
Disk = Text × Text

abbrev one_file : FileApi Disk
one_file = record {
  read = λ d p. if text_eq d.0 p then some d.1 else none;
  create_parents = λ d p. returned d;
  write = λ d p content. some (p, content);
  append = λ d p content. some (p, d.1 ++ content);
  exists = λ d p. returned true;
  entries = λ d p. record { name = d.0; is_directory = false; size = length d.1 } ∷ [];
  remove = λ d p. (([], []), record { removed = true; failed = false; message = [] });
  copy = λ d from to. ((to, d.1), none);
}

abbrev disk : Disk
disk = (text "a.txt", text "hello")

abbrev api : JsonApi Value
api = value_api (λ s. threw s) (λ j. returned (dump_text j))

abbrev calls : Value
calls = object (
    field (text "path") (string [])
      (field (text "src") (string []) (field (text "dst") (string []) end)))

abbrev strict_mode : Option Perms
strict_mode = some (record { cfg = rules; mcp = true })

-- The empty path is refused.
empty_refused : path_check windows strict_mode [] ≡ err (text "Path cannot be empty")
unfolding path_check check_path
empty_refused = refl

refused_untouched_example :
    let refused : Outcome ToolResult × Disk =
      (returned (err (text "Path cannot be empty")), disk) in
    (read_file_tool one_file windows api strict_mode calls disk ≡ refused)
    × (write_file_tool one_file windows api strict_mode calls disk ≡ refused)
    × (append_file_tool one_file windows api strict_mode calls disk ≡ refused)
    × (list_directory_tool one_file windows api strict_mode calls disk ≡ refused)
    × (delete_file_tool one_file windows api strict_mode calls disk ≡ refused)
unfolding text text_eq
refused_untouched_example =
    refused_untouched one_file windows api strict_mode calls disk [] (text "Path cannot be empty")
      refl refl empty_refused
