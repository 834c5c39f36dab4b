-- ===== src/Tools/Commands.antt =====
-- c/tools.c: the tools that run a program, the remaining tools, and the guard and the dispatch in
-- front of all of them. Programs are a parameter.
pub mod Guarded
use bash_agent.Base.{
  Bool, Bytes, List, Option, [], c_string, codes, contains, if◌then◌else◌, is_some, ltb, none, peek,
  some, starts_with, str_eq, strstr, suc, take, text_is, zero, ℕ, ◌&&◌, ◌++◌, ◌+◌, ◌==◌, ◌||◌, ◌∷◌,
}
use bash_agent.Json.Parse.{json_parse_root}
use bash_agent.Json.Query.{
  Count, counted, json_array_get, json_array_len, json_get, json_get_string, result,
}
use bash_agent.Json.Value.{Val, is_array}
use bash_agent.Tools.Files.{
  ToolResult, bad_json, data_of, fails, given, is_missing, json_get_positive, succeeds, tool_edit,
  tool_read, tool_write, with_input,
}
use bash_agent.Tools.Policy.{mode_allows, mode_normalize}
use bash_agent.Tools.Policy.Commands.{classify_required_mode}
use bash_agent.Tools.Policy.Scan.{Surroundings}
use bash_agent.Util.Decimal.{decimal}
use bash_agent.Util.Escape.{shell_arg}
use bash_agent.Util.FileSystem.{World}
use bash_agent.Util.Utf8.{sanitize_utf8}

-- what a program run by tool_bash ends as
pub data Ran : Type 0 where
  pipe_failed fork_failed : Ran
  exited : Bytes → ℕ → Ran
  killed : Bytes → Ran
  timed_out : Bytes → Ran

-- what the tools read of their surroundings, and the programs that they run
pub record Setup : Type 0 where
  pub env : Surroundings
  pub mode : Option Bytes
  pub home : Bytes
  pub cwd : Bytes
  pub run : Bytes → ℕ → Ran
  pub pipe_lines : Bytes → Bytes
  pub diff : Bytes → Bytes → List Bytes
  pub plan_draft : Option Bytes

-- the message of a command that is blocked
abbrev pub blocked_text : Bytes → Bytes → Bytes
blocked_text required allowed =
    codes "Error: command blocked by bash safety policy (required="
    ++ (required
        ++ (codes " allowed="
            ++ (allowed
                ++ codes
                    "; mode=system/external/network/workspace bits=4:read,2:write,1:execute)")))

-- the policy on a command line
unfoldable pub policy_allows : Setup → Bytes → Bool
unfolding mode_normalize mode_allows classify_required_mode
policy_allows setup cmd =
    mode_allows (some (mode_normalize setup.mode))
      (some (classify_required_mode setup.env (some cmd)))

abbrev pub blocked : Setup → Bytes → ToolResult
blocked setup cmd =
    fails (blocked_text (classify_required_mode setup.env (some cmd)) (mode_normalize setup.mode))

-- the path as native_file_mode_guard completes it
abbrev pub guard_target : Bytes → Bytes
guard_target raw =
    if peek raw == b'/'
      || str_eq raw (codes "~")
      || starts_with raw (codes "~/")
      || starts_with raw (codes "./")
      || starts_with raw (codes "../")
    then take 2047 raw
    else take 2047 (codes "./" ++ raw)

abbrev pub is_name : Bytes → Bytes → Bool
is_name = str_eq

-- the command that stands for the access; `none` is a tool that is not guarded
unfoldable pub guard_probe : Bytes → Option Bytes → Option Bytes → Option Bytes
unfolding strstr
guard_probe name path pattern =
    let target = guard_target (if is_missing path then codes "." else given path) in
    let reads = some (take 2099 (codes "cat " ++ target)) in
    if is_name name (codes "Read") || is_name name (codes "Grep")
    then reads
    else if is_name name (codes "Write") || is_name name (codes "Edit")
    then some (take 2099 (codes ": > " ++ target))
    else if is_name name (codes "Glob")
    then (if is_missing path
          && is_some pattern
          && (peek (given pattern) == b'/' || contains (given pattern) (codes ".."))
        then some (codes "cat /")
        else reads)
    else none

-- the result of the guard, whose output is NULL where it has no objection
abbrev pub no_objection : ToolResult
no_objection = record { output = none; exit_code = 0 }

abbrev pub guard_command : Setup → Option Bytes → ToolResult
guard_command setup none = no_objection
guard_command setup (some cmd) = if policy_allows setup cmd then no_objection else blocked setup cmd

abbrev pub guard_value : Setup → Bytes → Val → ToolResult
guard_value setup name v =
    guard_command setup
      (guard_probe name (json_get_string v (codes "path")) (json_get_string v (codes "pattern")))

-- native_file_mode_guard
unfoldable pub native_file_mode_guard : Setup → Bytes → Option Bytes → Option ToolResult
unfolding guard_probe policy_allows
native_file_mode_guard setup name input =
    with_input (json_parse_root input) no_objection (guard_value setup name)

-- tool_bash behind its policy check
unfoldable pub bash_ran : ℕ → Ran → ToolResult
unfolding decimal sanitize_utf8
bash_ran timeout pipe_failed = fails (codes "Error: pipe failed")
bash_ran timeout fork_failed = fails (codes "Error: fork failed")
bash_ran timeout (exited out status) = record {
  output = some (sanitize_utf8 (some out));
  exit_code = status;
}
bash_ran timeout (killed out) = record { output = some (sanitize_utf8 (some out)); exit_code = 1 }
bash_ran timeout (timed_out out) = record {
  output = some (
      sanitize_utf8 (
        some (
          out
          ++ (codes "\n[... command timed out after "
              ++ (decimal timeout ++ codes " seconds ...]")))));
  exit_code = 1;
}

abbrev pub bash_value : Setup → ℕ → Val → ToolResult
bash_value setup timeout_secs v =
    let command = json_get_string v (codes "command") in
    let cmd = given command in
    let own = json_get_positive v (codes "timeout") in
    let timeout = if ltb 0 own then own else timeout_secs in
    if is_missing command
    then fails (codes "Error: no command provided")
    else if policy_allows setup cmd
    then bash_ran timeout (setup.run cmd timeout)
    else blocked setup cmd

-- tool_bash
unfoldable pub tool_bash : Setup → ℕ → Option Bytes → Option ToolResult
unfolding policy_allows bash_ran
tool_bash setup timeout_secs input =
    with_input (json_parse_root input) bad_json (bash_value setup timeout_secs)

-- the directory that tool_glob and tool_grep search
abbrev pub search_base : Setup → Option Bytes → Bytes
search_base setup path = if is_missing path then setup.cwd else given path

-- the command of tool_glob
unfoldable pub glob_command : Bytes → Bytes → Bytes
unfolding shell_arg
glob_command base pattern =
    codes "rg --files "
    ++ (shell_arg (some base)
        ++ (codes " -g " ++ (shell_arg (some pattern) ++ codes " 2>/dev/null || true")))

-- one line feed at the end is dropped
abbrev pub drop_feed : Bytes → Bytes
drop_feed [] = []
drop_feed (c ∷ []) = if c == b'\n' then [] else c ∷ []
drop_feed (c ∷ d ∷ s) = c ∷ drop_feed (d ∷ s)

abbrev pub no_pattern : ToolResult
no_pattern = fails (codes "Error: no pattern provided")

abbrev pub glob_value : Setup → Val → ToolResult
glob_value setup v =
    let pattern = json_get_string v (codes "pattern") in
    let base = search_base setup (json_get_string v (codes "path")) in
    if is_missing pattern
    then no_pattern
    else succeeds (drop_feed (setup.pipe_lines (glob_command base (given pattern))))

-- tool_glob
unfoldable pub tool_glob : Setup → Option Bytes → Option ToolResult
unfolding glob_command
tool_glob setup input = with_input (json_parse_root input) bad_json (glob_value setup)

-- the command of tool_grep
unfoldable pub grep_command : ℕ → Option Bytes → Bytes → Bytes → Bytes
unfolding shell_arg decimal
grep_command context glob_pat pattern base =
    codes "rg -n --color never --heading "
    ++ ((if ltb 0 context then codes "-C " ++ (decimal context ++ codes " ") else [])
        ++ ((if is_missing glob_pat then [] else codes "-g " ++ (shell_arg glob_pat ++ codes " "))
            ++ (codes "-- "
                ++ (shell_arg (some pattern)
                    ++ (codes " " ++ (shell_arg (some base) ++ codes " 2>/dev/null || true"))))))

abbrev pub grep_value : Setup → Val → ToolResult
grep_value setup v =
    let pattern = json_get_string v (codes "pattern") in
    let base = search_base setup (json_get_string v (codes "path")) in
    let command =
      grep_command (json_get_positive v (codes "context")) (json_get_string v (codes "glob"))
        (given pattern) base in
    if is_missing pattern then no_pattern else succeeds (setup.pipe_lines command)

-- tool_grep
unfoldable pub tool_grep : Setup → Option Bytes → Option ToolResult
unfolding grep_command
tool_grep setup input = with_input (json_parse_root input) bad_json (grep_value setup)

-- tool_plan_confirm, with the draft where there are session paths
unfoldable pub tool_plan_confirm : Setup → ToolResult
tool_plan_confirm setup = succeeds (
    if is_missing setup.plan_draft
    then codes "Error: no plan draft found to confirm."
    else codes "Plan confirmed and locked in.")

-- tool_plan_clear
unfoldable pub tool_plan_clear : ToolResult
tool_plan_clear = succeeds (codes "Plan cleared.")

abbrev pub skill_file : Bytes → Bytes → Bytes
skill_file dir name = dir ++ (codes "/" ++ (name ++ codes "/SKILL.md"))

-- the first file that is there
abbrev pub first_file : Option Bytes → Option Bytes → Option Bytes
first_file none other = other
first_file (some s) other = some s

abbrev pub skill_content : Setup → World → Bytes → Option Bytes
skill_content setup w name = first_file (w.files (skill_file (codes ".claude/skills") name)) (
    first_file (w.files (skill_file (codes "skills") name))
      (w.files (skill_file (setup.home ++ codes "/.claude/skills") name)))

abbrev pub skill_value : Setup → World → Val → ToolResult
skill_value setup w v =
    let name = json_get_string v (codes "name") in
    let content = skill_content setup w (given name) in
    if is_missing name
    then fails (codes "Error: no skill name provided")
    else if is_missing content
    then fails (codes "Error: skill not found: " ++ given name)
    else succeeds (codes "Skill: " ++ (given name ++ (codes "\n\n" ++ c_string (given content))))

-- tool_skill
unfoldable pub tool_skill : Setup → World → Option Bytes → Option ToolResult
tool_skill setup w input = with_input (json_parse_root input) bad_json (skill_value setup w)

-- one line of tool_todo_write
unfoldable pub todo_line : Val → Bytes
todo_line item =
    codes "- ["
    ++ ((if text_is (json_get_string item (codes "status")) (codes "completed")
          then codes "x"
          else codes " ")
        ++ (codes "] " ++ (given (json_get_string item (codes "content")) ++ codes "\n")))

-- the loop of tool_todo_write: `n` items from `i` on
unfoldable pub todo_lines : Val → ℕ → ℕ → Bytes
unfolding todo_line
todo_lines arr zero i = []
todo_lines arr (suc n) i = todo_line (result (json_array_get arr i)) ++ todo_lines arr n (i + 1)

abbrev pub todo_count : Val → Count → ToolResult
todo_count arr (counted n) = record {
  output = data_of (drop_feed (todo_lines arr n 0));
  exit_code = 0;
}
todo_count arr _ = succeeds []

abbrev pub todo_value : Val → ToolResult
todo_value v =
    let todos = result (json_get v (codes "todos")) in
    if is_array todos.kind then todo_count todos (json_array_len todos) else succeeds (codes "OK")

-- tool_todo_write
unfoldable pub tool_todo_write : Option Bytes → Option ToolResult
unfolding todo_lines
tool_todo_write input = with_input (json_parse_root input) bad_json todo_value

-- a tool that changes no file
abbrev pub unchanged : World → Option ToolResult → Option (World × ToolResult)
unchanged w none = none
unchanged w (some r) = some (w, r)

-- the tool of a name
unfoldable pub run_tool : Setup → ℕ → World → Bytes → Option Bytes → Option (World × ToolResult)
unfolding tool_read tool_write tool_edit tool_bash tool_glob tool_grep tool_todo_write
    tool_plan_confirm tool_plan_clear tool_skill
run_tool setup timeout w name input =
    if is_name name (codes "Read")
    then unchanged w (tool_read w input)
    else if is_name name (codes "Write")
    then tool_write w input
    else if is_name name (codes "Edit")
    then tool_edit setup.diff w input
    else if is_name name (codes "Bash")
    then unchanged w (tool_bash setup timeout input)
    else if is_name name (codes "Glob")
    then unchanged w (tool_glob setup input)
    else if is_name name (codes "Grep")
    then unchanged w (tool_grep setup input)
    else if is_name name (codes "TodoWrite")
    then unchanged w (tool_todo_write input)
    else if is_name name (codes "PlanConfirm")
    then some (w, tool_plan_confirm setup)
    else if is_name name (codes "PlanClear")
    then some (w, tool_plan_clear)
    else if is_name name (codes "Skill")
    then unchanged w (tool_skill setup w input)
    else if is_name name (codes "SubAgent")
    then some (w, succeeds (codes "SubAgent handled by agent layer"))
    else some (w, fails (codes "Unknown tool: " ++ name))

abbrev pub is_guarded : Bytes → Bool
is_guarded name =
    is_name name (codes "Read")
    || is_name name (codes "Write")
    || is_name name (codes "Edit")
    || is_name name (codes "Glob")
    || is_name name (codes "Grep")

-- behind the guard: its objection, or the tool
abbrev pub unless_blocked :
    World → Option (World × ToolResult) → Option ToolResult → Option (World × ToolResult)
unless_blocked w go none = none
unless_blocked w go (some r) = if is_some r.output then some (w, r) else go

-- tool_dispatch
unfoldable pub tool_dispatch :
    Setup → ℕ → World → Bytes → Option Bytes → Option (World × ToolResult)
unfolding native_file_mode_guard run_tool
tool_dispatch setup timeout w name input =
    let tool = run_tool setup timeout w name input in
    if is_guarded name
    then unless_blocked w tool (native_file_mode_guard setup name input)
    else tool
