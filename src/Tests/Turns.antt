-- ===== src/Tests/Turns.antt =====
-- Runs of the loop of c/agent.c on concrete inputs.
use bash_agent.Agent.Context.{summary_reply}
use bash_agent.Agent.Events.{Log}
use bash_agent.Agent.Goal.{
  agent_goal_judge, crashes, goal_done, judge_lines, judged, no_verdict, norm_of,
}
use bash_agent.Agent.Goal.Judged.{Judges, agent_goal_judge_lem}
use bash_agent.Agent.Turns.{LoopState, RanTool, push, stopped_here}
use bash_agent.Agent.Turns.Loop.{LoopConfig, Outside, Streamed, rounds, run_round}
use bash_agent.Agent.Turns.Whole.{end_turn, max_turns_reached}
use bash_agent.Agent.Turns.Whole.Last.{last_round_told}
use bash_agent.Base.{
  Bytes, Option, [], codes, false, none, pos, refl, some, str_eq, true, ℕ, ◌∷◌, ◌≡◌,
}
use bash_agent.Protocol.{display_msg_error, display_msg_tool_result}
use bash_agent.Tests.Compact.{answer_briefly, quiet_log, sample_setup, thousandths, writable_world}
use bash_agent.Transport.Events.{Accumulator, ToolCall, accum_init, stop, text_delta}
use bash_agent.Util.FileSystem.{World, in_full}

abbrev read_call : ToolCall
read_call = record {
  id = some (codes "t1");
  name = some (codes "Read");
  input_json = codes "{\"path\":\"a.c\"}";
}

abbrev with_call : Accumulator
with_call = record accum_init {
  content = codes "I look.";
  tools = read_call ∷ [];
  stopped = true;
  stop_reason = some (codes "tool_use");
}

abbrev ran_read : World → Option Bytes → Log → ToolCall → RanTool
ran_read w c log t = record {
  world = w;
  conversation = c;
  log = log;
  started = 0;
  shown = display_msg_tool_result (some (codes "Read(a.c)")) (pos 0);
  content = codes "int x;";
}

abbrev fresh : LoopState
fresh = record {
  state = record {
    log = quiet_log;
    conversation = some [];
    world = writable_world;
    active_task_count = pos 0;
    sub_results = [];
  };
  archive = some [];
  writable = in_full;
  interrupted = false;
}

abbrev finishing : Streamed
finishing = record {
  events = text_delta (some (codes "Done.")) ∷ stop (some (codes "end_turn")) ∷ [];
  rc = pos 0;
  interrupted = false;
}

abbrev outside : Outside
outside = record {
  request = λ ls. some finishing;
  summary = answer_briefly;
  judge = answer_briefly;
  run = ran_read;
  expand = λ s. s;
}

abbrev one_turn : LoopConfig ℕ
one_turn = record {
  compaction = sample_setup;
  plan = codes "plan.md";
  plan_draft = codes "plan_draft.md";
  session_id = some (codes "s1");
  max_turns = 1;
  goal = [];
}

goal_judge_example :
    ((s : Bytes) → str_eq (norm_of s) goal_done ≡ false)
    × ((agent_goal_judge (codes "tests pass") answer_briefly none quiet_log).0 ≡ no_verdict)
    × ((file : Bytes)
        → Judges
            (summary_reply (answer_briefly (judge_lines (codes "tests pass") file)))
            (agent_goal_judge (codes "tests pass") answer_briefly (some file) quiet_log).0)
goal_judge_example = agent_goal_judge_lem (codes "tests pass") answer_briefly quiet_log

-- a reply of punctuation marks
crash_run : judged (codes "...") ≡ crashes
unfolding judged norm_of
crash_run = refl

abbrev finished : LoopState
finished = (run_round thousandths one_turn outside fresh).0

finished_round : run_round thousandths one_turn outside fresh ≡ (finished, stopped_here)
unfolding run_round
finished_round = refl

nothing_left : finished.state.sub_results ≡ []
unfolding run_round
nothing_left = refl

last_round_example :
    end_turn thousandths one_turn outside (rounds thousandths one_turn outside 1 fresh)
    ≡ some (pos 0, push finished (display_msg_error (some (max_turns_reached 1))), [])
last_round_example =
    last_round_told thousandths one_turn outside fresh finished finished_round nothing_left
