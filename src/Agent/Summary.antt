-- ===== src/Agent/Summary.antt =====
-- c/agent.c: agent_tool_display_summary, the line that is shown for a tool call.
use bash_agent.Base.{
  Bytes, Option, [], codes, if◌then◌else◌, length, ltb, none, some, str_eq, suc, take, text_is,
  zero, ℕ, ◌++◌, ◌+◌, ◌==◌, ◌||◌, ◌∷◌,
}
use bash_agent.Json.Query.{
  Count, counted, json_array_get, json_array_len, json_get, json_get_string, result,
}
use bash_agent.Json.Value.{Val, is_array}
use bash_agent.Store.Stats.Updated.{field}
use bash_agent.Util.Decimal.{decimal}
use bash_agent.Util.Utf8.{dots, truncate_len}

-- the items that are completed: `n` of them from `i` on
unfoldable pub count_completed : Val → ℕ → ℕ → ℕ
count_completed todos zero i = 0
count_completed todos (suc n) i =
    (if text_is (json_get_string (result (json_array_get todos i)) (codes "status"))
        (codes "completed")
      then 1
      else 0)
    + count_completed todos n (i + 1)

-- json_array_len, where it is told
abbrev pub known_count : Count → ℕ
known_count (counted n) = n
known_count _ = 0

-- "%d/%d" of the completed items
unfoldable pub todos_text : Val → Bytes
unfolding count_completed
todos_text todos =
    let total = known_count (json_array_len todos) in
    decimal (count_completed todos total 0) ++ (codes "/" ++ decimal total)

-- the field of the input that stands for the call; `none` is NULL
unfoldable pub summary_field : Bytes → Val → Option Bytes
unfolding todos_text
summary_field name input =
    if str_eq name (codes "Read") || str_eq name (codes "Write") || str_eq name (codes "Edit")
    then json_get_string input (codes "path")
    else if str_eq name (codes "Glob") || str_eq name (codes "Grep")
    then json_get_string input (codes "pattern")
    else if str_eq name (codes "Bash")
    then json_get_string input (codes "command")
    else if str_eq name (codes "Skill")
    then json_get_string input (codes "name")
    else if str_eq name (codes "SubAgent")
    then json_get_string input (codes "description")
    else if str_eq name (codes "TodoWrite")
    then (let todos = result (json_get input (codes "todos")) in
        if is_array todos.kind then some (todos_text todos) else none)
    else none

-- the line feeds become blanks
unfoldable pub one_line : Bytes → Bytes
one_line [] = []
one_line (c ∷ s) = (if c == b'\n' then b' ' else c) ∷ one_line s

-- a command that is too long is cut between two characters
unfoldable pub short_command : Bytes → Bytes
unfolding one_line truncate_len
short_command s =
    let line = one_line s in
    if ltb 80 (length line) then take (truncate_len line 77) line ++ dots else line

-- the summary where no field was found: the input, cut behind 80 bytes
unfoldable pub input_summary : Option Bytes → Bytes
input_summary none = []
input_summary (some s) = if ltb 80 (length s) then take 80 s ++ dots else s

abbrev pub summary_of : Bytes → Option Bytes → Option Bytes → Bytes
summary_of name (some field) input =
    if str_eq name (codes "Bash") then short_command field else field
summary_of name none input = input_summary input

-- agent_tool_display_summary
unfoldable pub agent_tool_display_summary : Bytes → Val → Option Bytes → Bytes
unfolding summary_field short_command input_summary
agent_tool_display_summary name input json = summary_of name (summary_field name input) json
