-- ===== src/Agent/Stream.antt =====
-- c/agent.c: stream_display_callback, which collects the events of a stream and shows its texts
-- as they come.
pub mod Collected
use bash_agent.Agent.Events.{Log, push_display_event}
use bash_agent.Base.{List, [], codes, false, none, some, true, ◌++◌, ◌∷◌}
use bash_agent.Protocol.{display_msg_error, display_msg_text, display_msg_thinking}
use bash_agent.Transport.Events.{
  Accumulator, Event, added, failure, if_positive, input_delta, or_else, retry, stop, text_delta,
  thinking_delta, tool_call, tool_call_start, tool_input_delta, usage,
}

-- stream_display_callback
unfoldable pub stream_display_callback : Accumulator × Log → Event → Accumulator × Log
unfolding push_display_event
stream_display_callback (acc, log) (text_delta s) =
    (record acc { content = added acc.content s }, push_display_event log (display_msg_text s))
stream_display_callback (acc, log) (thinking_delta s) = (
  record acc { thinking = added acc.thinking s },
  push_display_event log (display_msg_thinking s),
)
stream_display_callback (acc, log) (stop none) = (record acc { stopped = true }, log)
stream_display_callback (acc, log) (stop (some s)) =
    (record acc { stopped = true; stop_reason = some s }, log)
stream_display_callback (acc, log) (failure s) =
    let message = some (or_else s (codes "unknown error")) in
    (record acc { error = message }, push_display_event log (display_msg_error message))
stream_display_callback (acc, log) (usage u) = (
  record acc {
    in_tokens = if_positive u.in_tokens acc.in_tokens;
    out_tokens = if_positive u.out_tokens acc.out_tokens;
    cache_read_tokens = if_positive u.cache_read_tokens acc.cache_read_tokens;
    cache_creation_tokens = if_positive u.cache_creation_tokens acc.cache_creation_tokens;
    start_ms = u.start_ms;
    end_ms = u.end_ms;
    speed_ready = u.speed_ready;
  },
  log,
)
stream_display_callback (acc, log) (tool_call_start id name) =
    (record acc { tools = acc.tools ++ record { id = id; name = name; input_json = [] } ∷ [] }, log)
stream_display_callback (acc, log) (tool_input_delta s) =
    (record acc { tools = input_delta acc.tools s }, log)
stream_display_callback (acc, log) (tool_call id name input) = (
  record acc {
    tools =
        acc.tools
        ++ record {
          id = some (or_else id []);
          name = some (or_else name []);
          input_json = or_else input (codes "{}");
        }
          ∷ [];
  },
  log,
)
stream_display_callback (acc, log) retry = (
  record acc {
    content = [];
    thinking = [];
    tools = [];
    stopped = false;
    speed_ready = false;
    stop_reason = none;
    error = none;
    in_tokens = 0;
    out_tokens = 0;
    cache_read_tokens = 0;
    cache_creation_tokens = 0;
  },
  log,
)

-- the calls of the callback, one after the other
unfoldable pub stream_all : Accumulator × Log → List Event → Accumulator × Log
unfolding stream_display_callback
stream_all st [] = st
stream_all st (e ∷ es) = stream_all (stream_display_callback st e) es
