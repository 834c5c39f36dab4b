-- ===== src/Agent/Turns/Whole.antt =====
-- c/agent.c: agent_loop as a whole, and agent_wait_for_sub_agents. The text of the user is empty
-- where it is NULL.
pub mod Last
use bash_agent.Agent.Compact.{Double}
use bash_agent.Agent.Events.{push_display_event, store_event_append}
use bash_agent.Agent.Goal.{Verdict, agent_goal_judge, crashes, goal_done, no_verdict, says}
use bash_agent.Agent.Results.{State, add_stat, add_user, agent_drain_sub_results, append_event}
use bash_agent.Agent.Turns.{LoopState, push}
use bash_agent.Agent.Turns.Loop.{LoopConfig, Outside, drain, rounds}
use bash_agent.Base.{
  Bool, Bytes, List, Option, [], codes, contains, false, if◌then◌else◌, length, ltb, negsuc, none,
  not, pos, some, str_eq, text_is, true, ℕ, ℤ, ◌&&◌, ◌++◌, ◌==◌, ◌∷◌,
}
use bash_agent.Protocol.{display_msg_error, display_msg_stop, display_msg_user_notify}
use bash_agent.Store.Conversation.{file_lines, or_empty}
use bash_agent.Util.Decimal.{decimal}
use bash_agent.Util.Escape.{json_string}

abbrev pub is_notify : Option Bytes → Bool
is_notify kind = text_is kind (codes "notify")

-- turn_kind is NULL or "user_input"
abbrev pub is_input : Option Bytes → Bool
is_input none = true
is_input (some kind) = str_eq kind (codes "user_input")

abbrev pub log_event : LoopState → Bytes → LoopState
log_event st line = record st { state = append_event st.state line }

-- the record of an input
unfoldable pub input_event : Bytes → Bytes
unfolding json_string
input_event message =
    codes "{\"type\":\"user_input\",\"content\":" ++ (json_string (some message) ++ codes "}")

unfoldable pub session_start : Option Bytes → Bytes
unfolding json_string
session_start id =
    codes "{\"type\":\"session_start\",\"session_id\":" ++ (json_string (or_empty id) ++ codes "}")

-- event_count; a file that cannot be opened has none
abbrev pub event_count : Option Bytes → ℕ
event_count none = 0
event_count (some file) = length (file_lines file)

module _ {D : Type 0} (cfg : LoopConfig D) (expand : Bytes → Bytes) where
  -- the message as the model gets it
  abbrev pub expanded : Option Bytes → Bytes → Bytes
  expanded kind message =
      if is_input kind && contains message (codes "[Image #") then expand message else message

  -- the record of the input; the flag is is_input
  abbrev pub logged_input : LoopState → Bytes → Bool → LoopState
  logged_input st message true = log_event st (input_event message)
  logged_input st message false = st

  -- the message in the conversation; the flag is is_notify
  abbrev pub said_input : State → Bytes → Bool → State
  said_input st message true = st
  said_input st message false = add_user st message

  -- the record of a new session; the flag is that there are no records
  abbrev pub started_session : LoopState → Bool → LoopState
  started_session st true = log_event st (session_start cfg.session_id)
  started_session st false = st

  -- the count of the turns
  abbrev pub counted_turn : LoopState → State → LoopState
  counted_turn st said = record st {
    interrupted = false;
    state = record said {
      world =
          add_stat cfg.compaction.stats cfg.compaction.now said.world (codes "current_turn_count")
            (pos 1);
    };
  }

  -- what is recorded before the first round
  unfoldable pub record_input : Option Bytes → Bytes → LoopState → LoopState
  unfolding input_event session_start store_event_append add_user add_stat file_lines
  record_input kind message st =
      let logged = logged_input st message (is_input kind) in
      let said = said_input logged.state (expanded kind message) (is_notify kind) in
      let counted = counted_turn st said in
      started_session counted (event_count counted.state.log.events == 0)

  -- the flag is that there is nothing to do
  abbrev pub begin_unless : Option Bytes → Bytes → LoopState → Bool → LoopState × Bool
  begin_unless kind message st true = (st, false)
  begin_unless kind message st false = (record_input kind message st, true)

  -- the flag is is_notify
  abbrev pub begin_by : Option Bytes → Bytes → LoopState → Bool → LoopState × Bool
  begin_by kind message st true =
      let (drained, count) = drain cfg.compaction.stats cfg.compaction.now st in
      begin_unless kind message drained (count == 0)
  begin_by kind message st false = begin_unless kind message st (length message == 0)

  -- the start of agent_loop; the flag of the result is that it goes on
  unfoldable pub begin_turn : Option Bytes → Bytes → LoopState → LoopState × Bool
  unfolding record_input agent_drain_sub_results
  begin_turn kind message st = begin_by kind message st (is_notify kind)

-- the message of the bound on the rounds
unfoldable pub max_turns_reached : ℕ → Bytes
max_turns_reached n = codes "Max turns (" ++ (decimal n ++ codes ") reached")

-- The end of a turn: its result, the state, and the messages that are put into the input queue;
-- none is that the program crashed.
abbrev pub Turn : Type 0
Turn = Option (ℤ × LoopState × List Bytes)

-- what is done with the verdict
abbrev pub with_verdict : LoopState → Verdict → Turn
with_verdict st crashes = none
with_verdict st no_verdict =
    some (negsuc 0, push st (display_msg_error (some (codes "goal check failed"))), [])
with_verdict st (says verdict) = some (
    if str_eq verdict goal_done
    then (pos 0, push st (display_msg_stop (some (codes "goal_done"))), [])
    else (
      pos 0,
      push st (display_msg_user_notify (some (codes "[goal] " ++ verdict))),
      verdict ∷ [],
    ))

module _ (f : Double) (cfg : LoopConfig f.D) (out : Outside) where
  -- the judge of the goal, where it is asked
  abbrev pub judge_goal : LoopState → Turn
  judge_goal st =
      let (verdict, log) = agent_goal_judge cfg.goal out.judge st.state.conversation st.state.log in
      with_verdict (record st { state = record st.state { log = log } }) verdict

  -- the error of the bound; the flag is that it was reached
  abbrev pub told_bound : LoopState → Bool → LoopState
  told_bound st true = push st (display_msg_error (some (max_turns_reached cfg.max_turns)))
  told_bound st false = st

  -- the flag is that the goal is judged
  abbrev pub judged_if : LoopState → Bool → Turn
  judged_if st true = judge_goal st
  judged_if st false = some (pos 0, st, [])

  -- the end of agent_loop, behind the loop
  unfoldable pub end_turn : LoopState × Option ℤ × ℕ → Turn
  unfolding max_turns_reached agent_goal_judge push_display_event
  end_turn (st, some code, left) = some (code, st, [])
  end_turn (st, none, left) =
      judged_if (told_bound st (left == 0))
        (not (length cfg.goal == 0) && (not st.interrupted && ltb 0 left))

  abbrev pub run_turn : LoopState × Bool → Turn
  run_turn (st, false) = some (pos 0, st, [])
  run_turn (st, true) = end_turn (rounds f cfg out cfg.max_turns st)

  -- agent_loop: its result, the state, and what it puts into the input queue
  unfoldable pub agent_loop : Option Bytes → Bytes → LoopState → Turn
  unfolding begin_turn end_turn rounds
  agent_loop kind message st = run_turn (begin_turn cfg out.expand kind message st)
