-- ===== src/Agent/Turns/Loop.antt =====
-- c/agent.c: agent_loop, its rounds put together.
pub mod Failed
use mathlib.Core.Option
use bash_agent.Agent.Compact.{Double}
use bash_agent.Agent.Context.{CompactConfig, Reply, agent_compact_context}
use bash_agent.Agent.Events.{Log, push_display_event}
use bash_agent.Agent.Results.{agent_drain_sub_results}
use bash_agent.Agent.Stream.{stream_all}
use bash_agent.Agent.Turns.{
  Ending, LoopState, RanTool, end_round, goes_on, push, push_failure, record_speed, record_usage,
  returned, run_tool_calls, runs_tools, save_round, session_of, show_calls, stopped_here,
  with_session,
}
use bash_agent.Base.{
  Bool, Bytes, List, Option, [], codes, false, if◌then◌else◌, length, ltb, negsuc, next, none, not,
  pos, some, suc, text_is, true, zero, ℕ, ℤ, ◌&&◌, ◌==◌, ◌∷◌,
}
use bash_agent.Protocol.{display_msg_stop}
use bash_agent.Store.Conversation.{file_lines}
use bash_agent.Transport.Events.{Accumulator, Event, ToolCall, accum_init, or_else}
use bash_agent.Util.FileSystem.{World, read_file, write_file}

-- what a request to the model gives: the events of the stream, the result of http_post_sse, and
-- whether the user interrupted it
pub record Streamed : Type 0 where
  pub events : List Event
  pub rc : ℤ
  pub interrupted : Bool

-- What is outside of the loop. `request` is none where build_claude_request returns NULL, and
-- `expand` is agent_image_expand_placeholders.
pub record Outside : Type 0 where
  pub request : List Bytes → Option Streamed
  pub summary : List Bytes → Reply
  pub judge : List Bytes → Reply
  pub run : World → Option Bytes → Log → ToolCall → RanTool
  pub expand : Bytes → Bytes

-- the members of Agent that the loop reads; no goal is an empty one
pub record LoopConfig (D : Type 0) : Type 0 where
  pub compaction : CompactConfig D
  pub plan : Bytes
  pub plan_draft : Bytes
  pub session_id : Option Bytes
  pub max_turns : ℕ
  pub goal : Bytes

abbrev pub drain : Bytes → Bytes → LoopState → LoopState × ℕ
drain stats now st =
    let (state, count) = agent_drain_sub_results stats now st.state in
    (record st { state = state }, count)

-- a write whose result is ignored
abbrev pub write_to : LoopState → Bytes → Bytes → LoopState
write_to st path content = record st {
  state = record st.state { world = (write_file st.state.world path content).1 };
}

-- the draft becomes the plan
abbrev pub confirm_plan : Bytes → Bytes → LoopState → Option Bytes → LoopState
confirm_plan plan plan_draft st none = st
confirm_plan plan plan_draft st (some draft) =
    if length draft == 0 then st else write_to (write_to st plan draft) plan_draft []

module _ (f : Double) (cfg : LoopConfig f.D) (out : Outside) where
  abbrev pub compact : LoopState → Bytes → LoopState
  compact st trigger =
      with_session st (agent_compact_context f cfg.compaction out.summary (session_of st) trigger).1

  -- the loop over the calls that looks for a plan tool
  unfoldable pub after_plan : LoopState → List ToolCall → LoopState
  unfolding agent_compact_context write_file
  after_plan st [] = st
  after_plan st (t ∷ ts) =
      let later = after_plan st ts in
      let confirmed = compact st (codes "plan_confirm") in
      if text_is t.name (codes "PlanConfirm")
      then confirm_plan cfg.plan cfg.plan_draft confirmed
          (read_file confirmed.state.world cfg.plan_draft)
      else if text_is t.name (codes "PlanClear")
      then write_to (compact st (codes "plan_clear")) cfg.plan []
      else later

  -- the execution of the calls
  abbrev pub run_tools : LoopState → Accumulator → LoopState × List (Option Bytes × Option Bytes)
  run_tools st acc =
      let (ran, results) = run_tool_calls out.run st acc.tools in
      if runs_tools acc then (after_plan ran acc.tools, results) else (st, [])

  -- what is done with an answer
  unfoldable pub handle_answer : LoopState → Accumulator → LoopState × Ending
  unfolding show_calls record_usage record_speed run_tool_calls after_plan save_round end_round
  handle_answer st acc =
      let stats = cfg.compaction.stats in
      let now = cfg.compaction.now in
      let shown = show_calls st acc.tools in
      let counted = record_speed stats now (record_usage stats now shown acc) acc in
      let (ran, results) = run_tools counted acc in end_round (save_round ran acc results) acc

  -- the test on the error of the stream
  abbrev pub checked_stream : LoopState → Accumulator → Option Bytes → LoopState × Ending
  checked_stream st acc none = handle_answer st acc
  checked_stream st acc (some e) = (push_failure st e, returned (negsuc 0))

  -- the tests on the result of the request
  unfoldable pub checked_answer : LoopState → ℤ → Accumulator → LoopState × Ending
  unfolding handle_answer push_failure push_display_event
  checked_answer st (pos zero) acc = checked_stream st acc acc.error
  checked_answer st _ acc =
      if st.interrupted
      then (push st (display_msg_stop (some (codes "interrupted"))), returned (pos 0))
      else (push_failure st (or_else acc.error (codes "HTTP request failed")), returned (negsuc 0))

  -- the request, its stream, and the answer
  abbrev pub answered : LoopState → Option Streamed → LoopState × Ending
  answered st none = (push_failure st (codes "Failed to build messages"), returned (negsuc 0))
  answered st (some s) =
      let (acc, log) = stream_all (accum_init, st.state.log) s.events in
      checked_answer
        (record st { state = record st.state { log = log }; interrupted = s.interrupted }) s.rc acc

  -- a round whose conversation was read
  abbrev pub asked : LoopState → Option Bytes → LoopState × Ending
  asked st none = (st, returned (negsuc 0))
  asked st (some file) = answered st (out.request (file_lines file))

  -- the body of the loop
  unfoldable pub run_round : LoopState → LoopState × Ending
  unfolding agent_drain_sub_results agent_compact_context stream_all checked_answer file_lines
      push_failure
  run_round st =
      let (drained, count) =
        drain cfg.compaction.stats cfg.compaction.now (record st { interrupted = false }) in
      let compacted = compact drained (codes "auto") in asked compacted compacted.state.conversation

  -- the rounds that are left, unless the loop is left; `n` is their number
  abbrev pub next_unless :
      (LoopState → LoopState × Option ℤ × ℕ) → ℕ → LoopState → Bool → LoopState × Option ℤ × ℕ
  next_unless next n st true = (st, none, n)
  next_unless next n st false = next st

  -- what follows a round: `next` are the rounds that are left
  unfoldable pub after_round :
      (LoopState → LoopState × Option ℤ × ℕ) → ℕ → LoopState → Ending → LoopState × Option ℤ × ℕ
  unfolding agent_drain_sub_results
  after_round next n after (returned code) = (after, some code, n)
  after_round next n after goes_on = next_unless next n after after.interrupted
  after_round next n after stopped_here =
      let (drained, count) = drain cfg.compaction.stats cfg.compaction.now after in
      next_unless next n drained (not (ltb 0 count && not drained.interrupted))

  -- the loop, with the number of rounds that are left: the state, the result of a return, and the
  -- rounds that were left
  unfoldable pub rounds : ℕ → LoopState → LoopState × Option ℤ × ℕ
  unfolding run_round after_round
  rounds zero st = (st, none, 0)
  rounds (suc n) st =
      let (after, ending) = run_round st in after_round (λ s. rounds n s) n after ending
