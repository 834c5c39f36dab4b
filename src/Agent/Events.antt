-- ===== src/Agent/Events.antt =====
-- c/agent.c: the records of events.jsonl, and the display queue beside them.
use mathlib.Core.Option
use bash_agent.Base.{
  Bool, Bytes, List, Option, [], codes, if◌then◌else◌, none, not, pos, some, zero, ℤ, ◌&&◌, ◌++◌,
  ◌∷◌,
}
use bash_agent.Json.Numbers.{int_text}
use bash_agent.Protocol.{DisplayMessage, DisplayType}
use bash_agent.Store.Conversation.{jsonl_append, or_empty}
use bash_agent.Transport.Events.{or_else}
use bash_agent.Util.Escape.{json_string}

-- the status of a sub-agent
abbrev pub status_of : ℤ → Bytes
status_of (pos zero) = codes "ok"
status_of _ = codes "failed"

-- the cases of display_msg_to_event; `none` is NULL
unfoldable pub display_event : DisplayType → DisplayMessage → Option Bytes
unfolding json_string int_text
display_event DisplayType.text m =
    some
      (codes "{\"type\":\"text\",\"content\":" ++ (json_string (or_empty m.content) ++ codes "}"))
display_event DisplayType.thinking m =
    some (
      codes "{\"type\":\"thinking\",\"content\":"
      ++ (json_string (or_empty m.content) ++ codes "}"))
display_event DisplayType.tool_call m = some (
    codes "{\"type\":\"tool_call\",\"name\":"
    ++ (json_string (or_empty m.tool_name)
        ++ (codes ",\"id\":"
            ++ (json_string (or_empty m.tool_id)
                ++ (codes ",\"input\":" ++ (or_else m.tool_input (codes "{}") ++ codes "}"))))))
display_event DisplayType.tool_result m = some (
    codes "{\"type\":\"tool_result\",\"tool_use_id\":"
    ++ (json_string (or_empty m.tool_id)
        ++ (codes ",\"name\":"
            ++ (json_string (or_empty m.tool_name)
                ++ (codes ",\"content\":" ++ (json_string (or_empty m.content) ++ codes "}"))))))
display_event DisplayType.usage m = some (
    codes "{\"type\":\"usage\",\"input_tokens\":"
    ++ (int_text m.in_tokens
        ++ (codes ",\"output_tokens\":"
            ++ (int_text m.out_tokens
                ++ (codes ",\"cache_read_input_tokens\":"
                    ++ (int_text m.cache_read_tokens
                        ++ (codes ",\"cache_creation_input_tokens\":"
                            ++ (int_text m.cache_creation_tokens
                                ++ codes ",\"kind\":\"agent\"}"))))))))
display_event DisplayType.stop m =
    some (codes "{\"type\":\"stop\",\"reason\":" ++ (json_string (or_empty m.content) ++ codes "}"))
display_event DisplayType.failure m =
    some
      (codes "{\"type\":\"error\",\"message\":" ++ (json_string (or_empty m.content) ++ codes "}"))
display_event DisplayType.sub_agent_start m = some (
    codes "{\"type\":\"sub_agent_start\",\"session_id\":"
    ++ (json_string (or_empty m.session_id) ++ codes "}"))
display_event DisplayType.sub_agent_result m = some (
    codes "{\"type\":\"sub_agent_result\",\"session_id\":"
    ++ (json_string (or_empty m.session_id)
        ++ (codes ",\"status\":"
            ++ (json_string (some (status_of m.tool_exit_code))
                ++ (codes ",\"input_tokens\":"
                    ++ (int_text m.in_tokens
                        ++ (codes ",\"output_tokens\":"
                            ++ (int_text m.out_tokens
                                ++ (codes ",\"thinking\":"
                                    ++ (json_string (or_empty m.tool_name)
                                        ++ (codes ",\"text\":"
                                            ++ (json_string (or_empty m.content)
                                                ++ codes "}"))))))))))))
display_event DisplayType.async_task_result m = some (
    codes "{\"type\":\"async_task_result\",\"task_id\":"
    ++ (json_string (or_empty m.session_id)
        ++ (codes ",\"exit_code\":"
            ++ (int_text m.tool_exit_code
                ++ (codes ",\"output\":" ++ (json_string (or_empty m.content) ++ codes "}"))))))
display_event DisplayType.context_update m = none
display_event DisplayType.flush m = none
display_event DisplayType.user_notify m = none

-- display_msg_to_event
unfoldable pub display_msg_to_event : DisplayMessage → Option Bytes
unfolding display_event
display_msg_to_event m = display_event m.type m

-- What the functions that record and show work on. `events` is none where events.jsonl cannot be
-- opened; `shown` is what was pushed to the display queue, which `has_queue` says to be there.
pub record Log : Type 0 where
  pub events : Option Bytes
  pub stdout : Bytes
  pub shown : List DisplayMessage
  pub has_queue : Bool
  pub stream_json : Bool

-- store_event_append
unfoldable pub store_event_append : Log → Bytes → Log
unfolding jsonl_append
store_event_append log line = record log {
  stdout = if log.stream_json then jsonl_append log.stdout line else log.stdout;
  events = Option.map (λ file. jsonl_append file line) log.events;
}

-- display_only_push
unfoldable pub display_only_push : Log → DisplayMessage → Log
display_only_push log m =
    if log.has_queue && not log.stream_json then record log { shown = log.shown ++ m ∷ [] } else log

-- push_display
unfoldable pub push_display : Log → DisplayMessage → Log
push_display log m = if log.has_queue then record log { shown = log.shown ++ m ∷ [] } else log

-- the record of an event, where there is one
unfoldable pub record_event : Log → Option Bytes → Log
unfolding store_event_append
record_event log none = log
record_event log (some line) = store_event_append log line

-- push_display_event
unfoldable pub push_display_event : Log → DisplayMessage → Log
unfolding record_event display_msg_to_event display_only_push
push_display_event log m = display_only_push (record_event log (display_msg_to_event m)) m
