-- ===== src/Transport/Claude.antt =====
-- c/transport.c: sse_parse_event on the events of the Claude protocol. The events that it passes to
-- its callback are a list.
pub mod Deltas
use bash_agent.Base.{
  Bool, Bytes, List, Option, [], codes, false, if◌then◌else◌, length, none, some, str_eq, text_is,
  true, ℕ, ◌++◌, ◌==◌, ◌∷◌,
}
use bash_agent.Json.Parse.{json_parse}
use bash_agent.Json.Query.{json_get, json_get_string, result}
use bash_agent.Json.Value.{Kind, Parse, Val, err, null, ok, overrun, stuck}
use bash_agent.Tools.Files.{json_get_positive}
use bash_agent.Transport.Events.{
  Event, failure, or_else, stop, text_delta, thinking_delta, tool_call_start, tool_input_delta,
  usage,
}

-- an event for a text, and none for NULL
abbrev pub event_of : (Option Bytes → Event) → Option Bytes → List Event
event_of make none = []
event_of make (some s) = make (some s) ∷ []

-- content_block_delta
unfoldable pub delta_events : Val → List Event
delta_events v =
    let delta = result (json_get v (codes "delta")) in
    let type = json_get_string delta (codes "type") in
    if text_is type (codes "text_delta")
    then event_of text_delta (json_get_string delta (codes "text"))
    else if text_is type (codes "thinking_delta")
    then event_of thinking_delta (json_get_string delta (codes "thinking"))
    else if text_is type (codes "input_json_delta")
    then event_of tool_input_delta (json_get_string delta (codes "partial_json"))
    else []

-- content_block_start
unfoldable pub start_events : Val → List Event
start_events v =
    let block = result (json_get v (codes "content_block")) in
    if text_is (json_get_string block (codes "type")) (codes "tool_use")
    then tool_call_start (json_get_string block (codes "id")) (json_get_string block (codes "name"))
      ∷ []
    else []

abbrev pub is_null : Kind → Bool
is_null null = true
is_null _ = false

-- the usage of a message_delta and a message_start; `out` says whether output_tokens is read
abbrev pub usage_event : Bool → Val → ℕ → ℕ → List Event
usage_event out u start_ms now_ms =
    if is_null u.kind
    then []
    else usage (record {
      in_tokens = json_get_positive u (codes "input_tokens");
      out_tokens = if out then json_get_positive u (codes "output_tokens") else 0;
      cache_read_tokens = json_get_positive u (codes "cache_read_input_tokens");
      cache_creation_tokens = json_get_positive u (codes "cache_creation_input_tokens");
      start_ms = start_ms;
      end_ms = now_ms;
      speed_ready = false;
    })
      ∷ []

-- message_delta
unfoldable pub message_delta_events : Val → ℕ → ℕ → List Event
message_delta_events v start_ms now_ms =
    event_of stop (json_get_string (result (json_get v (codes "delta"))) (codes "stop_reason"))
    ++ usage_event true (result (json_get v (codes "usage"))) start_ms now_ms

-- message_start
unfoldable pub message_start_events : Val → ℕ → ℕ → List Event
message_start_events v start_ms now_ms =
    usage_event false (result (json_get (result (json_get v (codes "message"))) (codes "usage")))
      start_ms now_ms

-- s ? s : t
abbrev pub first_of : Option Bytes → Option Bytes → Option Bytes
first_of none t = t
first_of (some s) t = some s

-- error
unfoldable pub error_events : Val → List Event
error_events v =
    let message =
      first_of (json_get_string v (codes "error")) (json_get_string v (codes "message")) in
    failure (some (or_else message (codes "unknown error"))) ∷ []

-- the chain of tests of the type
unfoldable pub typed_events : Bytes → Val → ℕ → ℕ → List Event
unfolding delta_events start_events message_delta_events message_start_events error_events
typed_events type v start_ms now_ms =
    if str_eq type (codes "content_block_delta")
    then delta_events v
    else if str_eq type (codes "content_block_start")
    then start_events v
    else if str_eq type (codes "content_block_stop")
    then []
    else if str_eq type (codes "message_delta")
    then message_delta_events v start_ms now_ms
    else if str_eq type (codes "message_start")
    then message_start_events v start_ms now_ms
    else if str_eq type (codes "error")
    then error_events v
    else []

abbrev pub type_events : Option Bytes → Val → ℕ → ℕ → List Event
type_events none v start_ms now_ms = []
type_events (some type) v start_ms now_ms = typed_events type v start_ms now_ms

-- behind json_parse; `none` is a read past the terminator
abbrev pub parsed_events : Parse → (Val → List Event) → Option (List Event)
parsed_events (ok v r) go = some (go v)
parsed_events (err e) go = some []
parsed_events overrun go = none
parsed_events stuck go = none

-- sse_parse_event for the provider claude
unfoldable pub claude_events : Bytes → ℕ → ℕ → Option (List Event)
unfolding typed_events
claude_events payload start_ms now_ms =
    let parsed =
      parsed_events (json_parse payload)
        (λ v. type_events (json_get_string v (codes "type")) v start_ms now_ms) in
    if length payload == 0
    then some []
    else if str_eq payload (codes "[DONE]")
    then some (stop (some (codes "end_turn")) ∷ [])
    else parsed
