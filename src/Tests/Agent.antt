-- ===== src/Tests/Agent.antt =====
-- Runs of the modelled parts of c/agent.c on concrete inputs.
use bash_agent.Agent.Events.{Log, display_msg_to_event}
use bash_agent.Agent.Replay.{
  find_recent_turn_start_offset, replay_messages, ring_fill, ring_start, turn_offsets,
}
use bash_agent.Agent.Replay.Calls.{call_lem}
use bash_agent.Agent.Replay.Recent.{find_recent_turn_start_offset_lem, turn_starts}
use bash_agent.Agent.Results.{
  State, agent_drain_sub_results, agent_process_sub_result, only_add, task_record,
}
use bash_agent.Agent.Results.Drained.{add_records, agent_drain_sub_results_lem, contexts_of}
use bash_agent.Agent.Results.Recorded.{agent_process_sub_result-twice}
use bash_agent.Agent.Stream.{stream_all}
use bash_agent.Agent.Stream.Collected.{HasNoRetry, show_all, stream_all_lem, with_error}
use bash_agent.Agent.Summary.{agent_tool_display_summary}
use bash_agent.Base.{
  All, Bytes, IsText, List, [], arith, codes, false, get_or, length, none, pos, refl, some, strstr,
  true, ◌++◌, ◌+◌, ◌-◌, ◌∷◌, ◌≡◌,
}
use bash_agent.Json.Printed.{IsElement, printed-IsValue}
use bash_agent.Json.Printed.Objects.{object_text, object_text-IsPrinted}
use bash_agent.Json.Value.{Val, object, string, text as view_text}
use bash_agent.Protocol.{
  DisplayMessage, InputMessage, display_msg_tool_call, display_msg_tool_result,
}
use bash_agent.Store.Conversation.{jsonl_append, user_turn_count}
use bash_agent.Store.Conversation.Lines.{IsComplete, IsOneLine}
use bash_agent.Store.Conversation.Records.{string-IsMember}
use bash_agent.Tools.Files.{split_from}
use bash_agent.Transport.Events.{Event, accum_init, accumulate_all, failure, retry, text_delta}
use bash_agent.Util.Escape.{escape_byte, escaped, json_string}
use bash_agent.Util.FileSystem.{in_full}

abbrev hello_message : DisplayMessage
hello_message = display_msg_tool_result (some (codes "2 lines\nread")) (pos 1)

abbrev path_input : Bytes
path_input = object_text (codes "path") (json_string (some (codes "a.c"))) []

path_input-IsElement : IsElement object path_input
path_input-IsElement = record {
  no_space = refl;
  not_empty = omega arith;
  printed = printed-IsValue object path_input (
      object_text-IsPrinted (codes "path") (json_string (some (codes "a.c"))) []
        (string, string-IsMember (codes "path") (codes "a.c") (ground arith)) tt);
}

path_input-IsText : IsText path_input
unfolding json_string escaped escape_byte
path_input-IsText = omega arith

path_input-IsOneLine : IsOneLine path_input
unfolding json_string escaped escape_byte
path_input-IsOneLine = ground arith

abbrev read_call : DisplayMessage
read_call = display_msg_tool_call (some (codes "t1")) (some (codes "Read")) (some path_input)

call_example :
    (input : Val) × (line : Bytes) × (view_text input ≡ path_input)
    × (display_msg_to_event read_call ≡ some line)
    × IsOneLine line
    × (replay_messages (split_from [] (line ++ b'\n' ∷ []))
        ≡ record (display_msg_tool_call
            (some (codes "t1"))
            (some (codes "Read"))
            (some (agent_tool_display_summary (codes "Read") input (some path_input)))) {
              tool_input = some path_input;
            }
          ∷ [])
call_example =
    call_lem read_call path_input refl refl (omega arith) (omega arith) path_input-IsText
      path_input-IsOneLine path_input-IsElement

abbrev two_turns : Bytes
two_turns = codes "{\"type\":\"user_input\"}\n{\"type\":\"text\"}\n{\"type\":\"user_input\"}\n"

find_recent_turn_start_offset_example :
    let starts = turn_starts 0 (split_from [] two_turns) in
    find_recent_turn_start_offset two_turns 1 ≡ get_or starts (length starts - 1) 0
find_recent_turn_start_offset_example = find_recent_turn_start_offset_lem two_turns 1

second_turn : find_recent_turn_start_offset two_turns 1 ≡ 38
unfolding find_recent_turn_start_offset turn_offsets ring_fill ring_start strstr
second_turn = refl

abbrev empty_log : Log
empty_log = record {
  events = some [];
  stdout = [];
  shown = [];
  has_queue = true;
  stream_json = false;
}

abbrev failed_stream : List Event
failed_stream = failure none ∷ retry ∷ text_delta (some (codes "hi")) ∷ []

stream_all_example :
    (stream_all (accum_init, empty_log) failed_stream ≡ (
      with_error none (accumulate_all accum_init failed_stream),
      show_all empty_log failed_stream,
    ))
    × (HasNoRetry failed_stream
        → stream_all (accum_init, empty_log) failed_stream
          ≡ (accumulate_all accum_init failed_stream, show_all empty_log failed_stream))
stream_all_example = stream_all_lem accum_init empty_log failed_stream

abbrev two_results : State
two_results = record {
  log = empty_log;
  conversation = some [];
  world = record { files = λ p. none; writable = λ p. in_full };
  active_task_count = pos 1;
  sub_results =
      InputMessage.user_notify (some (codes "stop"))
      ∷ InputMessage.notify_pending
      ∷ InputMessage.async_task_result (codes "task_1") (pos 0) none
      ∷ [];
}

agent_drain_sub_results_example :
    let (st', drained) = agent_drain_sub_results (codes "s") (codes "now") two_results in
    (st'.sub_results ≡ [])
    × (st'.conversation ≡ some (add_records [] (contexts_of two_results.sub_results)))
    × (drained ≡ length (contexts_of two_results.sub_results))
    × (IsComplete []
        → All IsText (contexts_of two_results.sub_results)
        → user_turn_count st'.conversation ≡ user_turn_count (some []) + drained)
agent_drain_sub_results_example =
    agent_drain_sub_results_lem (codes "s") (codes "now") [] two_results refl

agent_process_sub_result-twice_example :
    let line = task_record (codes "task_1") (pos 2) (some (codes "out")) in
    let (st', handled) =
      agent_process_sub_result
        (codes "s")
        (codes "now")
        only_add
        two_results
        (InputMessage.async_task_result (codes "task_1") (pos 2) (some (codes "out"))) in
    st'.log.events ≡ some (jsonl_append (jsonl_append [] line) line)
agent_process_sub_result-twice_example =
    agent_process_sub_result-twice (codes "s") (codes "now") [] two_results (codes "task_1") (pos 2)
      (some (codes "out")) refl (ground arith)
