-- ===== src/Agent/Replay.antt =====
-- c/agent.c: agent_replay_events, which shows the last turns of events.jsonl again, and
-- find_recent_turn_start_offset, which finds where they begin.
pub mod Recorded
pub mod Shown
pub mod Counted
pub mod Calls
pub mod Recent
use mathlib.Core.Option
use bash_agent.Agent.Events.{Log, push_display}
use bash_agent.Agent.Summary.{agent_tool_display_summary}
use bash_agent.Base.{
  Bool, Bytes, List, Option, [], c_string, codes, contains, drop, false, get_or, if◌then◌else◌, leb,
  length, none, not, pos, replicate, set, some, str_eq, take, ℕ, ◌%◌, ◌&&◌, ◌++◌, ◌+◌, ◌==◌, ◌||◌,
  ◌∷◌,
}
use bash_agent.Json.Numbers.{json_get_int}
use bash_agent.Json.Parse.{json_parse_root}
use bash_agent.Json.Query.{json_as_string, json_get, json_get_string, result}
use bash_agent.Json.Value.{Parse, Val, null, ok}
use bash_agent.Protocol.{
  DisplayMessage, display_msg_error, display_msg_sub_agent_result, display_msg_text,
  display_msg_thinking, display_msg_tool_call, display_msg_tool_result,
}
use bash_agent.Store.Conversation.{or_empty}
use bash_agent.Tools.Files.{split_from}
use bash_agent.Transport.Events.{or_else}
use bash_agent.Util.Utf8.{truncate_len, truncate_str}

-- what find_recent_turn_start_offset looks for
abbrev pub user_mark : Bytes
user_mark = codes "\"type\":\"user_input\""

-- up to the first line feed
abbrev pub first_line : Bytes → Bytes
first_line [] = []
first_line (c ∷ s) = if c == b'\n' then [] else c ∷ first_line s

-- content && content[0]
abbrev pub unless_blank : Option Bytes → (Bytes → DisplayMessage) → Option DisplayMessage
unless_blank none f = none
unless_blank (some []) f = none
unless_blank (some (c ∷ s)) f = some (f (c ∷ s))

-- a user input, cut to one line of at most 80 bytes, in green
unfoldable pub replay_user : Bytes → DisplayMessage
unfolding truncate_str
replay_user content =
    display_msg_text (
      some
        (codes "\n\u{1b}[32m> " ++ (first_line (truncate_str content 80) ++ codes "\u{1b}[0m\n")))

-- the input of a tool call that is shown: a missing or null input is `{}` with no summary
unfoldable pub replay_call : Bytes → Bytes → Val → DisplayMessage
unfolding agent_tool_display_summary json_as_string
replay_call id name input =
    let json = json_as_string input in
    let summary : Bytes = elim input.kind [
      | null ↦ []
      | _ ↦ agent_tool_display_summary name input json
    ] in
    record (display_msg_tool_call (some id) (some name) (some summary)) {
      tool_input = some (or_else json (codes "{}"));
    }

abbrev pub replay_result : Option Bytes → Option Bytes → Option Bytes → DisplayMessage
replay_result id name content =
    record (display_msg_tool_result
      (some (or_else (Option.map (λ s. truncate_str s 200) content) [])) (pos 0)) {
        tool_id = id;
        tool_name = name;
      }

abbrev pub replay_sub_agent : Val → DisplayMessage
replay_sub_agent v =
    display_msg_sub_agent_result (or_empty (json_get_string v (codes "session_id")))
      (or_else (json_get_string v (codes "status")) (codes "ok"))
      (Option.map (λ s. take (truncate_len s 120) s) (json_get_string v (codes "thinking")))
      (or_empty (Option.map (λ s. truncate_str s 200) (json_get_string v (codes "text"))))
      (json_get_int v (codes "input_tokens")) (json_get_int v (codes "output_tokens"))

-- the message of a record of the given type, if it is shown
unfoldable pub replay_typed : Bytes → Val → Option DisplayMessage
unfolding replay_user replay_call
replay_typed type v =
    if str_eq type (codes "user_input")
    then unless_blank (json_get_string v (codes "content")) replay_user
    else if str_eq type (codes "text")
    then unless_blank (json_get_string v (codes "content")) (λ s. display_msg_text (some s))
    else if str_eq type (codes "thinking")
    then unless_blank (json_get_string v (codes "content")) (λ s. display_msg_thinking (some s))
    else if str_eq type (codes "tool_call")
    then some (
        replay_call (or_else (json_get_string v (codes "id")) [])
          (or_else (json_get_string v (codes "name")) []) (result (json_get v (codes "input"))))
    else if str_eq type (codes "tool_result")
    then some (
        replay_result (json_get_string v (codes "tool_use_id")) (json_get_string v (codes "name"))
          (json_get_string v (codes "content")))
    else if str_eq type (codes "sub_agent_result")
    then some (replay_sub_agent v)
    else if str_eq type (codes "error")
    then some
        (display_msg_error (some (or_else (json_get_string v (codes "message")) (codes "unknown"))))
    else none

abbrev pub replay_type : Option Bytes → Val → Option DisplayMessage
replay_type none v = none
replay_type (some type) v = replay_typed type v

abbrev pub replay_parsed : Parse → Option DisplayMessage
replay_parsed (ok v r) = replay_type (json_get_string v (codes "type")) v
replay_parsed _ = none

-- the line feeds and carriage returns at the end are cut
unfoldable pub cut_line_end : Bytes → Bytes
cut_line_end [] = []
cut_line_end (c ∷ s) =
    let rest = cut_line_end s in
    if (length rest == 0) && (c == b'\n' || c == b'\r') then [] else c ∷ rest

-- behind the cutting: an empty line is skipped
unfoldable pub replay_text : Bytes → Option DisplayMessage
unfolding replay_typed
replay_text [] = none
replay_text (c ∷ s) = replay_parsed (json_parse_root (some (c ∷ s)))

-- one round of agent_replay_events
unfoldable pub replay_line : Bytes → Option DisplayMessage
unfolding cut_line_end replay_text
replay_line line = replay_text (cut_line_end (c_string line))

-- the messages that the loop pushes
unfoldable pub replay_messages : List Bytes → List DisplayMessage
unfolding replay_line
replay_messages [] = []
replay_messages (l ∷ ls) = elim (replay_line l) [
  | none ↦ replay_messages ls
  | some m ↦ m ∷ replay_messages ls
]

unfoldable pub push_all : Log → List DisplayMessage → Log
unfolding push_display
push_all log [] = log
push_all log (m ∷ ms) = push_all (push_display log m) ms

-- the offsets of the lines that hold `"type":"user_input"`; `pos` is where the line begins and
-- `line` the bytes of it that were read
unfoldable pub turn_offsets : ℕ → Bytes → Bytes → List ℕ
turn_offsets at line [] = if contains (c_string line) user_mark then at ∷ [] else []
turn_offsets at line (c ∷ s) =
    let go = turn_offsets at (line ++ c ∷ []) s in
    let here = turn_offsets (at + length line + 1) [] s in
    if c == b'\n' then (if contains (c_string line) user_mark then at ∷ here else here) else go

-- the array of the last offsets, and how many were seen
pub record Ring : Type 0 where
  pub offsets : List ℕ
  pub seen : ℕ

-- offsets[seen % max_turns] = pos; seen++
unfoldable pub ring_add : ℕ → Ring → ℕ → Ring
ring_add max_turns r at = record {
  offsets = set r.offsets (r.seen % max_turns) at;
  seen = r.seen + 1;
}

unfoldable pub ring_fill : ℕ → Ring → List ℕ → Ring
unfolding ring_add
ring_fill max_turns r [] = r
ring_fill max_turns r (at ∷ more) = ring_fill max_turns (ring_add max_turns r at) more

-- where the last turns begin
unfoldable pub ring_start : ℕ → Ring → ℕ
ring_start max_turns r =
    if r.seen == 0
    then 0
    else if leb max_turns r.seen
    then get_or r.offsets (r.seen % max_turns) 0
    else get_or r.offsets 0 0

-- find_recent_turn_start_offset on the contents of the file; a bound of 0 stands for one that is
-- not positive
unfoldable pub find_recent_turn_start_offset : Bytes → ℕ → ℕ
unfolding turn_offsets ring_fill ring_start
find_recent_turn_start_offset file max_turns =
    let bound = if max_turns == 0 then 10 else max_turns in
    ring_start bound
      (ring_fill bound (record { offsets = replicate bound 0; seen = 0 }) (turn_offsets 0 [] file))

-- agent_replay_events; `none` is a file that cannot be opened
unfoldable pub agent_replay_events : Log → Option Bytes → ℕ → Log × Bool
unfolding find_recent_turn_start_offset replay_messages push_all
agent_replay_events log none max_turns = (log, false)
agent_replay_events log (some file) max_turns =
    let messages =
      replay_messages (split_from [] (drop (find_recent_turn_start_offset file max_turns) file)) in
    (push_all log messages, not (length messages == 0))
