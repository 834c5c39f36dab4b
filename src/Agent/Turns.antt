-- ===== src/Agent/Turns.antt =====
-- c/agent.c: agent_loop, the rounds of one turn. What a request to the model and what a tool give
-- are parameters, as is the summary of a compaction; the arithmetic of `double` is one too.
-- Integers are taken not to overflow, and the time to stay the same during one turn.
pub mod Recorded
pub mod Loop
pub mod Whole
use mathlib.Core.Option
use bash_agent.Agent.Context.{Session}
use bash_agent.Agent.Events.{Log, push_display_event}
use bash_agent.Agent.Results.{State, add_stat}
use bash_agent.Agent.Summary.{agent_tool_display_summary}
use bash_agent.Base.{
  Bool, Bytes, List, Option, [], codes, if◌then◌else◌, is_some, length, ltb, map, negsuc, none, not,
  pos, some, str_eq, text_is, ℕ, ℤ, ◌&&◌, ◌*◌, ◌+ℤ◌, ◌+◌, ◌-◌, ◌/◌, ◌==◌, ◌||◌, ◌∷◌,
}
use bash_agent.Json.Parse.{json_parse_root}
use bash_agent.Json.Value.{Parse, ok}
use bash_agent.Protocol.{
  DisplayMessage, display_msg_error, display_msg_stop, display_msg_tool_call, display_msg_usage,
}
use bash_agent.Store.Conversation.{ToolUse, assistant_record, jsonl_append, results_record}
use bash_agent.Store.Stats.{store_stats_set_int_file}
use bash_agent.Transport.Events.{Accumulator, ToolCall, or_else}
use bash_agent.Util.FileSystem.{Access, World}

-- What the loop works on: the state of Agent/Results, and the other files of a session.
pub record LoopState : Type 0 where
  pub state : State
  pub archive : Option Bytes
  pub writable : Access
  pub interrupted : Bool

-- the session of a compaction
abbrev pub session_of : LoopState → Session
session_of st = record {
  files = record {
    conversation = st.state.conversation;
    archive = st.archive;
    writable = st.writable;
  };
  world = st.state.world;
  log = st.state.log;
}

-- the state after a compaction
abbrev pub with_session : LoopState → Session → LoopState
with_session st s = record st {
  state = record st.state { conversation = s.files.conversation; world = s.world; log = s.log };
  archive = s.files.archive;
}

abbrev pub push : LoopState → DisplayMessage → LoopState
push st m = record st { state = record st.state { log = push_display_event st.state.log m } }

-- an error, and the stop that follows it
unfoldable pub push_failure : LoopState → Bytes → LoopState
unfolding push_display_event
push_failure st message =
    push (push st (display_msg_error (some message))) (display_msg_stop (some (codes "error")))

-- the summary of a call on what json_parse_root returns
abbrev pub call_summary_at : Parse → ToolCall → Bytes
call_summary_at (ok v r) t = agent_tool_display_summary (or_else t.name []) v (some t.input_json)
call_summary_at _ t = []

unfoldable pub call_summary : ToolCall → Bytes
unfolding agent_tool_display_summary
call_summary t =
    if length t.input_json == 0 then [] else call_summary_at (json_parse_root (some t.input_json)) t

-- the loop that shows the calls
unfoldable pub show_calls : LoopState → List ToolCall → LoopState
unfolding call_summary push_display_event
show_calls st [] = st
show_calls st (t ∷ ts) =
    show_calls
      (push st (record (display_msg_tool_call t.id t.name (some (call_summary t))) {
        tool_input = some t.input_json;
      }))
      ts

-- last_context_tokens
abbrev pub context_tokens : Accumulator → ℕ
context_tokens acc =
    acc.in_tokens + acc.out_tokens + acc.cache_read_tokens + acc.cache_creation_tokens

-- the sums of stats.json that a round changes
unfoldable pub round_stats : Bytes → Bytes → World → Accumulator → World
unfolding add_stat store_stats_set_int_file
round_stats stats now w acc =
    let w1 = add_stat stats now w (codes "agent_request_count") (pos 1) in
    let w2 = add_stat stats now w1 (codes "total_input_tokens") (pos acc.in_tokens) in
    let w3 = add_stat stats now w2 (codes "total_output_tokens") (pos acc.out_tokens) in
    let w4 = add_stat stats now w3 (codes "total_cache_read_tokens") (pos acc.cache_read_tokens) in
    let w5 =
      add_stat stats now w4 (codes "total_cache_creation_tokens") (pos acc.cache_creation_tokens) in
    if ltb 0 (context_tokens acc)
    then store_stats_set_int_file w5 stats (codes "current_context_tokens")
        (pos (context_tokens acc)) now
    else w5

-- the usage that is shown and counted
unfoldable pub record_usage : Bytes → Bytes → LoopState → Accumulator → LoopState
unfolding round_stats push_display_event
record_usage stats now st acc =
    if ltb 0 acc.in_tokens || ltb 0 acc.out_tokens
    then (let shown = push st (
          display_msg_usage (pos acc.in_tokens) (pos acc.out_tokens) (pos acc.cache_read_tokens)
            (pos acc.cache_creation_tokens)) in
        record shown {
          state = record shown.state { world = round_stats stats now shown.state.world acc };
        })
    else st

-- the speed of a stream that was completed
unfoldable pub record_speed : Bytes → Bytes → LoopState → Accumulator → LoopState
unfolding store_stats_set_int_file
record_speed stats now st acc =
    let time = acc.end_ms - acc.start_ms in
    let speed = if ltb 0 time then acc.out_tokens * 1000 / time else 0 in
    if acc.speed_ready && (not (is_some acc.error) && not st.interrupted)
    then record st {
      state = record st.state {
        world =
            store_stats_set_int_file st.state.world stats (codes "last_call_speed_tok_per_sec")
              (pos speed) now;
      };
    }
    else st

-- the stop reasons after which the loop goes on
abbrev pub wants_tools : Accumulator → Bool
wants_tools acc =
    text_is acc.stop_reason (codes "tool_use") || text_is acc.stop_reason (codes "tool_calls")

-- the condition on which the calls are executed
abbrev pub runs_tools : Accumulator → Bool
runs_tools acc = not (length acc.tools == 0) && wants_tools acc

-- what the execution of a call gives: the files, the conversation, which is one of the files that a
-- tool may write, what it recorded and showed itself, the number of tasks it started, the message of its result that is shown then, and the text for the model
pub record RanTool : Type 0 where
  pub world : World
  pub conversation : Option Bytes
  pub log : Log
  pub started : ℕ
  pub shown : DisplayMessage
  pub content : Bytes

-- the loop over the calls: `run` executes one
unfoldable pub run_tool_calls :
    (World → Option Bytes → Log → ToolCall → RanTool)
    → LoopState
    → List ToolCall
    → LoopState × List (Option Bytes × Option Bytes)
unfolding push_display_event
run_tool_calls run st [] = (st, [])
run_tool_calls run st (t ∷ ts) =
    let ran = run st.state.world st.state.conversation st.state.log t in
    let done = record st {
      state = record st.state {
        world = ran.world;
        conversation = ran.conversation;
        active_task_count = st.state.active_task_count +ℤ pos ran.started;
        log = push_display_event ran.log ran.shown;
      };
    } in
    let (after, results) = run_tool_calls run done ts in (after, (t.id, some ran.content) ∷ results)

-- the elements of the arrays for store_conv_add_assistant
abbrev pub tool_use_of : ToolCall → ToolUse
tool_use_of t = record { id = t.id; name = t.name; input = t.input_json }

-- a record that is appended to the conversation
abbrev pub append_record : LoopState → Bytes → LoopState
append_record st line = record st {
  state = record st.state {
    conversation = Option.map (λ file. jsonl_append file line) st.state.conversation;
  };
}

-- the answer of the model as a record
unfoldable pub answer_record : Accumulator → Bytes
unfolding assistant_record
answer_record acc =
    assistant_record (some acc.thinking) (some acc.content) (map tool_use_of acc.tools)

-- the records of a round
unfoldable pub save_round : LoopState → Accumulator → List (Option Bytes × Option Bytes) → LoopState
unfolding answer_record results_record jsonl_append
save_round st acc results =
    let answered = append_record st (answer_record acc) in
    if runs_tools acc then append_record answered (results_record results) else answered

-- how a round ends
pub data Ending : Type 0 where
  returned : ℤ → Ending
  goes_on : Ending
  stopped_here : Ending

-- the stop reasons: the fatal ones, and the others
abbrev pub with_reason : LoopState → Accumulator → Option Bytes → LoopState × Ending
with_reason st acc none = (st, stopped_here)
with_reason st acc (some reason) =
    if str_eq reason (codes "error")
    then (st, returned (negsuc 0))
    else if str_eq reason (codes "max_tokens") || str_eq reason (codes "length")
    then (
      push st (display_msg_error (some (codes "Response truncated (max_tokens reached)"))),
      returned (negsuc 0),
    )
    else (
      push st (display_msg_stop (some reason)),
      if wants_tools acc then goes_on else stopped_here,
    )

unfoldable pub end_round : LoopState → Accumulator → LoopState × Ending
unfolding push_display_event
end_round st acc = with_reason st acc acc.stop_reason
