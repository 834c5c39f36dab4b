-- ===== src/Agent/Results.antt =====
-- c/agent.c: the results of sub-agents and background tasks, and the notes of the user, which
-- become messages of the conversation. Integers are taken not to overflow, and the time `now` to
-- stay the same during one call.
pub mod Drained
pub mod Recorded
use mathlib.Core.Option
use bash_agent.Agent.Events.{Log, display_only_push, push_display_event, store_event_append}
use bash_agent.Base.{
  Bool, Bytes, List, Option, [], codes, false, if◌then◌else◌, is_positive, negsuc, pos, some, true,
  ℕ, ℤ, ◌++◌, ◌+ℤ◌, ◌+◌, ◌∷◌,
}
use bash_agent.Json.Numbers.{int_text}
use bash_agent.Protocol.{
  AgentResult, InputMessage, display_msg_async_task_result, display_msg_sub_agent_result,
  display_msg_user_notify,
}
use bash_agent.Store.Conversation.{jsonl_append, or_empty, user_record}
use bash_agent.Store.Stats.{store_stats_get_file_int, store_stats_set_int_file}
use bash_agent.Transport.Events.{or_else}
use bash_agent.Util.Escape.{json_string}
use bash_agent.Util.FileSystem.{World}

-- What the functions below work on. `conversation` is none where the file cannot be opened.
pub record State : Type 0 where
  pub log : Log
  pub conversation : Option Bytes
  pub world : World
  pub active_task_count : ℤ
  pub sub_results : List InputMessage

-- store_conv_add_user
unfoldable pub add_user : State → Bytes → State
unfolding jsonl_append user_record
add_user st message = record st {
  conversation =
      Option.map (λ file. jsonl_append file (user_record (some message))) st.conversation;
}

-- store_event_append on the state
abbrev pub append_event : State → Bytes → State
append_event st line = record st { log = store_event_append st.log line }

-- store_stats_set_int_file of the old amount plus `delta`
unfoldable pub add_stat : Bytes → Bytes → World → Bytes → ℤ → World
unfolding store_stats_set_int_file store_stats_get_file_int
add_stat stats now w key delta =
    store_stats_set_int_file w stats key (store_stats_get_file_int w stats key +ℤ delta) now

-- the counts of a usage record
abbrev pub usage_text : ℤ → ℤ → ℤ → ℤ → Bytes
usage_text in_tokens out_tokens cache_read cache_creation =
    codes "{\"type\":\"usage\",\"input_tokens\":"
    ++ (int_text in_tokens
        ++ (codes ",\"output_tokens\":"
            ++ (int_text out_tokens
                ++ (codes ",\"cache_read_input_tokens\":"
                    ++ (int_text cache_read
                        ++ (codes ",\"cache_creation_input_tokens\":"
                            ++ int_text cache_creation))))))

-- the record of the usage of a sub-agent
unfoldable pub sub_agent_usage : AgentResult → Bytes
unfolding json_string int_text
sub_agent_usage r =
    usage_text r.in_tokens r.out_tokens r.cache_read_tokens r.cache_creation_tokens
    ++ (codes ",\"kind\":\"sub_agent\",\"sub_session_id\":"
        ++ (json_string (some r.session_id) ++ codes "}"))

-- the record of its result
unfoldable pub sub_agent_record : AgentResult → Bytes
unfolding json_string int_text
sub_agent_record r =
    codes "{\"type\":\"sub_agent_result\",\"session_id\":"
    ++ (json_string (some r.session_id)
        ++ (codes ",\"status\":"
            ++ (json_string (some r.status)
                ++ (codes ",\"input_tokens\":"
                    ++ (int_text r.in_tokens
                        ++ (codes ",\"output_tokens\":"
                            ++ (int_text r.out_tokens
                                ++ (codes ",\"thinking\":"
                                    ++ (json_string (or_empty r.thinking)
                                        ++ (codes ",\"text\":"
                                            ++ (json_string (or_empty r.reply)
                                                ++ codes "}")))))))))))

-- the record of its end
unfoldable pub sub_agent_end : AgentResult → Bytes → Bytes
unfolding json_string
sub_agent_end r now =
    codes "{\"type\":\"sub_agent_end\",\"session_id\":"
    ++ (json_string (some r.session_id)
        ++ (codes ",\"timestamp\":\""
            ++ (now ++ (codes "\",\"status\":" ++ (json_string (some r.status) ++ codes "}")))))

-- the sums that the result of a sub-agent changes
unfoldable pub sub_agent_stats : Bytes → Bytes → World → AgentResult → World
unfolding add_stat
sub_agent_stats stats now w r =
    let w1 = add_stat stats now w (codes "total_input_tokens") r.in_tokens in
    let w2 = add_stat stats now w1 (codes "total_output_tokens") r.out_tokens in
    let w3 = add_stat stats now w2 (codes "total_cache_read_tokens") r.cache_read_tokens in
    let w4 = add_stat stats now w3 (codes "total_cache_creation_tokens") r.cache_creation_tokens in
    let w5 = add_stat stats now w4 (codes "sub_agent_request_count") (pos 1) in
    add_stat stats now w5 (codes "agent_request_count") r.request_count

-- agent_handle_sub_agent_result, without the title of the terminal
unfoldable pub agent_handle_sub_agent_result : Bytes → Bytes → State → AgentResult → State
unfolding sub_agent_usage sub_agent_record sub_agent_end sub_agent_stats store_event_append
    display_only_push
agent_handle_sub_agent_result stats now st r =
    let l1 = store_event_append st.log (sub_agent_usage r) in
    let l2 = store_event_append l1 (sub_agent_record r) in
    let l3 = store_event_append l2 (sub_agent_end r now) in
    record st {
      world = sub_agent_stats stats now st.world r;
      active_task_count = st.active_task_count +ℤ negsuc 0;
      log = display_only_push l3 (
          display_msg_sub_agent_result (some r.session_id) r.status r.thinking r.reply r.in_tokens
            r.out_tokens);
    }

-- the message to the model about a result of a sub-agent
unfoldable pub agent_context : AgentResult → Bytes
unfolding int_text
agent_context r =
    codes "[sub-agent "
    ++ (r.session_id
        ++ (codes "] "
            ++ (r.status
                ++ (codes " (in="
                    ++ (int_text r.in_tokens
                        ++ (codes ", out="
                            ++ (int_text r.out_tokens
                                ++ (codes ")\nThinking: "
                                    ++ (or_else r.thinking []
                                        ++ (codes "\nText: " ++ or_else r.reply []))))))))))

-- the record of the result of a background task, whose id is printed as it is
unfoldable pub task_record : Bytes → ℤ → Option Bytes → Bytes
unfolding json_string int_text
task_record task_id exit_code output =
    codes "{\"type\":\"async_task_result\",\"task_id\":\""
    ++ (task_id
        ++ (codes "\",\"exit_code\":"
            ++ (int_text exit_code
                ++ (codes ",\"output\":" ++ (json_string (or_empty output) ++ codes "}")))))

-- the message to the model about it
unfoldable pub task_context : Bytes → ℤ → Option Bytes → Bytes
unfolding int_text
task_context task_id exit_code output =
    codes "[bg-bash "
    ++ (task_id
        ++ (codes "] exit_code="
            ++ (int_text exit_code ++ (codes "\nOutput: " ++ or_else output []))))

-- if (agent->active_task_count > 0) agent->active_task_count--
abbrev pub task_done : ℤ → ℤ
task_done z = if is_positive z then z +ℤ negsuc 0 else z

-- agent_process_sub_result: `go` is what becomes of the message to the model, with the kind of the
-- turn; the flag is a result of 1
unfoldable pub agent_process_sub_result :
    Bytes → Bytes → (State → Bytes → Bytes → State) → State → InputMessage → State × Bool
unfolding agent_handle_sub_agent_result agent_context task_record task_context push_display_event
agent_process_sub_result stats now go st (InputMessage.agent_result r) = (
  go (agent_handle_sub_agent_result stats now st r) (agent_context r) (codes "sub_agent_result"),
  true,
)
agent_process_sub_result stats now go st (InputMessage.async_task_result task_id exit_code output) =
    let recorded = store_event_append st.log (task_record task_id exit_code output) in
    let shown =
      push_display_event recorded
        (display_msg_async_task_result (some task_id) exit_code (some (or_else output []))) in
    (
      go (record st { log = shown; active_task_count = task_done st.active_task_count })
          (task_context task_id exit_code output) (codes "async_task_result"),
      true,
    )
agent_process_sub_result stats now go st (InputMessage.user_notify s) =
    let message = or_else s [] in
    (
      go (record st { log = push_display_event st.log (display_msg_user_notify (some message)) })
          message (codes "user_notify"),
      true,
    )
agent_process_sub_result stats now go st (InputMessage.user_input s) = (st, false)
agent_process_sub_result stats now go st InputMessage.notify_pending = (st, false)

-- without a run of the loop the message is added to the conversation
abbrev pub only_add : State → Bytes → Bytes → State
only_add st message kind = add_user st message

-- the loop of agent_drain_sub_results over the messages that are in the queue, and how many it
-- handled
unfoldable pub drain_from : Bytes → Bytes → State → ℕ → List InputMessage → State × ℕ
unfolding agent_process_sub_result add_user
drain_from stats now st drained [] = (st, drained)
drain_from stats now st drained (m ∷ ms) =
    let (st', handled) = agent_process_sub_result stats now only_add st m in
    drain_from stats now st' (drained + (if handled then 1 else 0)) ms

-- agent_drain_sub_results
unfoldable pub agent_drain_sub_results : Bytes → Bytes → State → State × ℕ
unfolding drain_from
agent_drain_sub_results stats now st =
    drain_from stats now (record st { sub_results = [] }) 0 st.sub_results
