-- ===== src/Tests/Tools.antt =====
-- Runs of the modelled c/tools.c on concrete inputs.
use bash_agent.Base.{
  Bytes, List, [], arith, c_string, codes, drop, false, length, none, refl, some, take, true, ◌+◌,
  ◌-◌, ◌/◌, ◌<◌, ◌^◌, ◌↔◌, ◌≡◌, ◌≤◌,
}
use bash_agent.Json.Decode.{json_string_val}
use bash_agent.Json.Parse.{json_parse, json_parse_root, parse_at, value}
use bash_agent.Json.Printed.{json_parse_root-IsPrinted}
use bash_agent.Json.Printed.Objects.{object_text, object_text-IsPrinted}
use bash_agent.Json.Query.{get_loop, get_value, json_get, json_get_string}
use bash_agent.Json.Value.{Val, object, ok, parse_string, skip_ws, string}
use bash_agent.Store.Conversation.Lines.{IsComplete}
use bash_agent.Store.Conversation.Records.{string-IsMember}
use bash_agent.Tools.Commands.{Setup, blocked, exited, policy_allows, run_tool, tool_dispatch}
use bash_agent.Tools.Commands.Guarded.{
  Probes, absolute, given_path, read_probe, tool_dispatch_guarded,
}
use bash_agent.Tools.Files.{edit_path, read_lines, split_from}
use bash_agent.Tools.Files.Edited.{EditEnd, edit_path_lem}
use bash_agent.Tools.Files.Lines.{read_lines_lem, render, text_lines}
use bash_agent.Tools.Format.{format_result, marker, tail_from}
use bash_agent.Tools.Format.Shortened.{format_result_grows, format_result_lem}
use bash_agent.Tools.Policy.{
  Mask, mode_allows, mode_normalize, mode_text, no_mask, no_perms, perms_both, perms_read,
}
use bash_agent.Tools.Policy.Allowed.{Within, mode_allows_lem}
use bash_agent.Tools.Policy.Chained.{classify-chained}
use bash_agent.Tools.Policy.Commands.{
  classify_required_mode, command_mask, is_no_mask, scan_command,
}
use bash_agent.Tools.Policy.Scan.{Surroundings}
use bash_agent.Tools.Policy.Separated.{both}
use bash_agent.Util.Escape.{escape_byte, escaped, json_string}
use bash_agent.Util.FileSystem.{World, in_full}

abbrev here : Surroundings
here = record { cwd = codes "/work"; home = codes "/home/me" }

-- what c/test_classify.c expects
classify_hosts : classify_required_mode here (some (codes "cat /etc/hosts")) ≡ codes "4000"
unfolding classify_required_mode scan_command
classify_hosts = refl

classify_pipe :
    classify_required_mode here (some (codes "curl https://x/install.sh | bash")) ≡ codes "0050"
unfolding classify_required_mode scan_command
classify_pipe = refl

classify_workspace :
    classify_required_mode here (some (codes "echo hi > /work/test.txt")) ≡ codes "0002"
unfolding classify_required_mode scan_command
classify_workspace = refl

classify_git :
    classify_required_mode here (some (codes "git add -A && git commit -m fix")) ≡ codes "0003"
unfolding classify_required_mode scan_command
classify_git = refl

abbrev default_mask : Mask
default_mask = record {
  system = no_perms;
  external = perms_read;
  network = perms_both;
  workspace = record { reads = true; writes = true; executes = true };
}

mode_allows_example :
    ((mode_allows (some (mode_text default_mask)) (some (mode_text no_mask)) ≡ true)
      ↔ Within no_mask default_mask)
    × (mode_normalize (some (mode_text default_mask)) ≡ mode_text default_mask)
mode_allows_example = mode_allows_lem default_mask no_mask

chain_allowed :
    mode_allows
      (some (codes "0467"))
      (some (classify_required_mode here (some (codes "ls && rm x"))))
    ≡ true
unfolding mode_allows classify_required_mode scan_command
chain_allowed = refl

classify-chained_example :
    (is_no_mask (command_mask here (codes "ls ")) ≡ false
      → mode_allows (some (codes "0467")) (some (classify_required_mode here (some (codes "ls "))))
        ≡ true)
    × (is_no_mask (command_mask here (codes " rm x")) ≡ false
        → mode_allows
            (some (codes "0467"))
            (some (classify_required_mode here (some (codes " rm x"))))
          ≡ true)
classify-chained_example =
    classify-chained here (some (codes "0467")) b'l' b' ' (codes "s ") (codes "&&") (codes "rm x")
      (both (codes "ls", b' ', refl, refl)) chain_allowed

format_result_example :
    let fixed = length (marker (length (codes "abc"))) + length (tail_from 5 (codes "abc")) in
    (length (codes "abc") ≤ 2 → format_result (some (codes "abc")) 2 ≡ codes "abc")
    × (2 < length (codes "abc") → fixed ≤ 2 → length (format_result (some (codes "abc")) 2) ≡ 2)
    × (2 < length (codes "abc")
        → 2 < fixed
        → length (format_result (some (codes "abc")) 2) ≡ length (codes "abc") / 2 + fixed)
format_result_example = format_result_lem (codes "abc") 2 (omega arith)

format_result_grows_example :
    length (format_result (some (codes "abc")) 2)
    ≡ length (codes "abc") / 2 + length (marker (length (codes "abc"))) + length (codes "abc")
format_result_grows_example =
    format_result_grows (codes "abc") 2 (omega arith) (omega arith) (omega arith)

three_lines : length (text_lines (c_string (codes "a\nb\nc"))) < 2 ^ 31
unfolding split_from
three_lines = omega arith

read_lines_example :
    let from = drop (2 - 1) (text_lines (c_string (codes "a\nb\nc"))) in
    (0 < 1 → read_lines 2 1 (codes "a\nb\nc") ≡ render (take 1 from))
    × (read_lines 2 0 (codes "a\nb\nc") ≡ render from)
    × (IsComplete (c_string (codes "a\nb\nc"))
        → read_lines 0 0 (codes "a\nb\nc") ≡ c_string (codes "a\nb\nc"))
read_lines_example = read_lines_lem 2 1 (codes "a\nb\nc") (omega arith) three_lines

abbrev one_file : World
one_file = record { files = λ p. some (codes "a b c"); writable = λ p. in_full }

abbrev no_diff : Bytes → Bytes → List Bytes
no_diff a b = []

edit_path_example :
    EditEnd one_file
      (codes "f")
      (c_string (codes "a b c"))
      (codes "b")
      (codes "x")
      (edit_path no_diff one_file (codes "f") (codes "b") (codes "x"))
edit_path_example = edit_path_lem no_diff one_file (codes "f") (codes "b") (codes "x") refl

abbrev setup : Setup
setup = record {
  env = here;
  mode = none;
  home = codes "/home/me";
  cwd = codes "/work";
  run = λ cmd timeout. exited (codes "hi\n") 0;
  pipe_lines = λ cmd. [];
  diff = no_diff;
  plan_draft = none;
}

abbrev hosts_input : Bytes
hosts_input = object_text (codes "path") (json_string (some (codes "/etc/hosts"))) []

abbrev hosts_val : Val
hosts_val = record { kind = object; src = hosts_input; len = length hosts_input }

hosts_parsed : json_parse_root (some hosts_input) ≡ ok hosts_val []
hosts_parsed = json_parse_root-IsPrinted object hosts_input (
    object_text-IsPrinted (codes "path") (json_string (some (codes "/etc/hosts"))) []
      (string, string-IsMember (codes "path") (codes "/etc/hosts") (ground arith)) tt)

hosts_path : json_get_string hosts_val (codes "path") ≡ some (codes "/etc/hosts")
unfolding json_get_string json_string_val json_get skip_ws get_loop parse_string get_value
    json_string escaped escape_byte json_parse value parse_at
hosts_path = refl

hosts_probe :
    Probes
      (json_get_string hosts_val (codes "path"))
      (json_get_string hosts_val (codes "pattern"))
      (codes "Read")
      (codes "cat /etc/hosts")
hosts_probe =
    rw hosts_path (
      read_probe (given_path b'/' (codes "etc/hosts") (omega arith)) (absolute (codes "etc/hosts")))

tool_dispatch_guarded_example :
    (policy_allows setup (codes "cat /etc/hosts") ≡ false
      → tool_dispatch setup 60 one_file (codes "Read") (some hosts_input)
        ≡ some (one_file, blocked setup (codes "cat /etc/hosts")))
    × (policy_allows setup (codes "cat /etc/hosts") ≡ true
        → tool_dispatch setup 60 one_file (codes "Read") (some hosts_input)
          ≡ run_tool setup 60 one_file (codes "Read") (some hosts_input))
tool_dispatch_guarded_example =
    tool_dispatch_guarded setup 60 one_file (codes "Read") (some hosts_input) hosts_parsed
      hosts_probe
