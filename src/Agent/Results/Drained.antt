-- ===== src/Agent/Results/Drained.antt =====
-- agent_drain_sub_results: what it adds to the conversation.
use bash_agent.Agent.Results.{
  State, add_user, agent_context, agent_drain_sub_results, agent_handle_sub_agent_result,
  agent_process_sub_result, drain_from, only_add, task_context,
}
use bash_agent.Base.{
  All, Bytes, IsText, List, Option, [], ap, arith, if◌then◌else◌, is_some, length, none, refl, some,
  ℕ, ◌+◌, ◌∙◌, ◌∷◌, ◌≡◌,
}
use bash_agent.Protocol.{InputMessage}
use bash_agent.Store.Conversation.{jsonl_append, user_record, user_turn_count}
use bash_agent.Store.Conversation.Count.{user_record-IsOneLine, user_turn_count-jsonl_append}
use bash_agent.Store.Conversation.Lines.{IsComplete, jsonl_append_lem}
use bash_agent.Store.Conversation.Records.{user_record_lem}
use bash_agent.Transport.Events.{or_else}

-- the message to the model that a message of the queue becomes, if it is handled
abbrev pub context_of : InputMessage → Option Bytes
context_of (InputMessage.agent_result r) = some (agent_context r)
context_of (InputMessage.async_task_result task_id exit_code output) =
    some (task_context task_id exit_code output)
context_of (InputMessage.user_notify s) = some (or_else s [])
context_of (InputMessage.user_input s) = none
context_of InputMessage.notify_pending = none

-- a message in front of others, if there is one
abbrev pub in_front : Option Bytes → List Bytes → List Bytes
in_front none cs = cs
in_front (some c) cs = c ∷ cs

abbrev pub contexts_of : List InputMessage → List Bytes
contexts_of [] = []
contexts_of (m ∷ ms) = in_front (context_of m) (contexts_of ms)

-- a conversation with one record more for each message
abbrev pub add_records : Bytes → List Bytes → Bytes
add_records file [] = file
add_records file (c ∷ cs) = add_records (jsonl_append file (user_record (some c))) cs

-- one message: the conversation, whether it was handled, and the queue
process_lem :
    (stats now file : Bytes) (st : State) (m : InputMessage)
    → st.conversation ≡ some file
    → let (st', handled) = agent_process_sub_result stats now only_add st m in
      (st'.conversation ≡ some (add_records file (in_front (context_of m) [])))
      × (handled ≡ is_some (context_of m))
      × (st'.sub_results ≡ st.sub_results)
unfolding agent_process_sub_result add_user agent_handle_sub_agent_result
process_lem stats now file st (InputMessage.agent_result r) h = (rw h refl, refl, refl)
process_lem stats now file st (InputMessage.async_task_result task_id exit_code output) h =
    (rw h refl, refl, refl)
process_lem stats now file st (InputMessage.user_notify s) h = (rw h refl, refl, refl)
process_lem stats now file st (InputMessage.user_input s) h = (h, refl, refl)
process_lem stats now file st InputMessage.notify_pending h = (h, refl, refl)

in_front-records :
    (file : Bytes) (c : Option Bytes) (cs : List Bytes)
    → add_records (add_records file (in_front c [])) cs ≡ add_records file (in_front c cs)
in_front-records file none cs = refl
in_front-records file (some c) cs = refl

length-in_front :
    (c : Option Bytes) (cs : List Bytes)
    → length (in_front c cs) ≡ (if is_some c then 1 else 0) + length cs
length-in_front none cs = omega arith
length-in_front (some c) cs = omega arith

drain_from_lem :
    (stats now file : Bytes) (st : State) (drained : ℕ) (ms : List InputMessage)
    → st.conversation ≡ some file
    → let (st', n) = drain_from stats now st drained ms in
      (st'.conversation ≡ some (add_records file (contexts_of ms)))
      × (n ≡ drained + length (contexts_of ms))
      × (st'.sub_results ≡ st.sub_results)
unfolding drain_from
drain_from_lem stats now file st drained [] h = (h, omega arith, refl)
drain_from_lem stats now file st drained (m ∷ ms) h =
    let (added, handled, queue) = process_lem stats now file st m h in
    let (st', flag) = agent_process_sub_result stats now only_add st m in
    let (all, n, rest) =
      drain_from_lem stats now (add_records file (in_front (context_of m) [])) st'
        (drained + (if flag then 1 else 0)) ms added in
    (
      all ∙ ap some (in_front-records file (context_of m) (contexts_of ms)),
      n ∙ rw handled (omega (arith, length-in_front (context_of m) (contexts_of ms))),
      rest ∙ queue,
    )

-- the records of user messages raise the count of turns
user_turn_count-records :
    (cs : List Bytes) {file : Bytes}
    → IsComplete file
    → All IsText cs
    → user_turn_count (some (add_records file cs)) ≡ user_turn_count (some file) + length cs
user_turn_count-records [] c h = omega arith
user_turn_count-records (m ∷ ms) {file} c (t, h) =
    let line = user_record-IsOneLine (some m) in
    let (v, _, _, _, counts) = user_record_lem m t in
    user_turn_count-records ms (jsonl_append_lem (user_record (some m)) c line).1 h
    ∙ rw (user_turn_count-jsonl_append (user_record (some m)) c line, counts) (omega arith)

-- agent_drain_sub_results empties the queue and adds one user record to the conversation for each
-- result of a sub-agent, result of a background task and note of the user, in their order, and
-- returns how many these were; if the conversation has whole lines and the messages hold no zero
-- byte, store_conv_user_turn_count grows by that number.
pub agent_drain_sub_results_lem :
    (stats now file : Bytes) (st : State)
    → st.conversation ≡ some file
    → let (st', drained) = agent_drain_sub_results stats now st in
      (st'.sub_results ≡ [])
      × (st'.conversation ≡ some (add_records file (contexts_of st.sub_results)))
      × (drained ≡ length (contexts_of st.sub_results))
      × (IsComplete file
          → All IsText (contexts_of st.sub_results)
          → user_turn_count st'.conversation ≡ user_turn_count (some file) + drained)
unfolding agent_drain_sub_results
agent_drain_sub_results_lem stats now file st h =
    let (added, n, queue) =
      drain_from_lem stats now file (record st { sub_results = [] }) 0 st.sub_results h in
    (
      queue,
      added,
      n ∙ omega arith,
      λ c t.
          ap user_turn_count added
          ∙ user_turn_count-records (contexts_of st.sub_results) c t
          ∙ omega (arith, n),
    )
