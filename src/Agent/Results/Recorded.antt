-- ===== src/Agent/Results/Recorded.antt =====
-- agent_process_sub_result: what it records of a background task.
use mathlib.Core.Option
use bash_agent.Agent.Events.{
  Log, display_msg_to_event, display_only_push, push_display_event, record_event,
  store_event_append,
}
use bash_agent.Agent.Results.{State, add_user, agent_process_sub_result, only_add, task_record}
use bash_agent.Base.{
  All, Bool-cases, Bytes, Option, [], ap, append_assoc, arith, false, inl, inr, none, not, refl,
  some, ℕ, ℤ, ◌&&◌, ◌<◌, ◌==◌, ◌∙◌, ◌∷◌, ◌≡◌,
}
use bash_agent.Protocol.{DisplayMessage, InputMessage, display_msg_async_task_result}
use bash_agent.Store.Conversation.{jsonl_append}
use bash_agent.Transport.Events.{or_else}
use bash_agent.Util.Escape.{backslash, escape_byte, escaped, json_string, quote}

-- a text that is printed as it is
abbrev pub IsPlain : Bytes → Type 0
IsPlain = All (λ c. (31 < c) × ((c == quote) ≡ false) × ((c == backslash) ≡ false))

escape_byte-plain :
    (c : ℕ) → 31 < c → (c == quote) ≡ false → (c == backslash) ≡ false → escape_byte c ≡ c ∷ []
unfolding escape_byte
escape_byte-plain c h q b = ground arith

escaped-plain : (s : Bytes) → IsPlain s → escaped s ≡ s
unfolding escaped
escaped-plain [] h = refl
escaped-plain (c ∷ s) ((lt, q, b), h) = rw (escape_byte-plain c lt q b, escaped-plain s h) refl

-- both records of a task are the same text
task_event :
    (task_id : Bytes) (exit_code : ℤ) (output : Option Bytes)
    → IsPlain task_id
    → display_msg_to_event
        (display_msg_async_task_result (some task_id) exit_code (some (or_else output [])))
      ≡ some (task_record task_id exit_code output)
unfolding display_msg_to_event task_record json_string
task_event task_id exit_code none h = simp (append_assoc, escaped-plain task_id h)
task_event task_id exit_code (some s) h = simp (append_assoc, escaped-plain task_id h)

display_only_push-events :
    (log : Log) (m : DisplayMessage) → (display_only_push log m).events ≡ log.events
unfolding display_only_push
display_only_push-events log m = elim (Bool-cases (log.has_queue && not log.stream_json)) [
  | inl e ↦ rw e refl
  | inr e ↦ rw e refl
]

push_display_event-events :
    (log : Log) (m : DisplayMessage) (line : Bytes) (file : Bytes)
    → display_msg_to_event m ≡ some line
    → log.events ≡ some file
    → (push_display_event log m).events ≡ some (jsonl_append file line)
unfolding push_display_event record_event store_event_append
push_display_event-events log m line file h e =
    display_only_push-events (record_event log (display_msg_to_event m)) m
    ∙ ap (λ l. (record_event log l).events) h
    ∙ ap (Option.map (λ f. jsonl_append f line)) e

store_event_append-events :
    (log : Log) (line file : Bytes)
    → log.events ≡ some file
    → (store_event_append log line).events ≡ some (jsonl_append file line)
unfolding store_event_append
store_event_append-events log line file e = ap (Option.map (λ f. jsonl_append f line)) e

-- The result of a background task is recorded twice: agent_process_sub_result appends its record
-- to events.jsonl, and appends the same record again when it shows the result. The id is one that
-- is printed as it is, as the ids that the program makes are.
pub agent_process_sub_result-twice :
    (stats now file : Bytes) (st : State) (task_id : Bytes) (exit_code : ℤ) (output : Option Bytes)
    → st.log.events ≡ some file
    → IsPlain task_id
    → let line = task_record task_id exit_code output in
      let (st', handled) =
        agent_process_sub_result stats now only_add st
          (InputMessage.async_task_result task_id exit_code output) in
      st'.log.events ≡ some (jsonl_append (jsonl_append file line) line)
unfolding agent_process_sub_result add_user
agent_process_sub_result-twice stats now file st task_id exit_code output h plain =
    let line = task_record task_id exit_code output in
    push_display_event-events (store_event_append st.log line)
      (display_msg_async_task_result (some task_id) exit_code (some (or_else output []))) line
      (jsonl_append file line) (task_event task_id exit_code output plain)
      (store_event_append-events st.log line file h)
