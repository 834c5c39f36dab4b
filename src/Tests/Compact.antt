-- ===== src/Tests/Compact.antt =====
-- Runs of the compaction of c/agent.c on concrete inputs. `double` is taken in thousandths here,
-- and its differences stop at 0.
use bash_agent.Agent.Compact.{
  Double, DpConfig, aligned, benefit, compact_dp_decision, compact_turn_keep, power_from, rounded,
  search_best,
}
use bash_agent.Agent.Compact.Cut.{IsCut, compact_dp_decision_lem}
use bash_agent.Agent.Compact.Turns.{compact_turn_keep_lem, count_users}
use bash_agent.Agent.Context.{CompactConfig, Reply, agent_compact_context}
use bash_agent.Agent.Context.Compacted.{Outcome, agent_compact_context_lem, before}
use bash_agent.Agent.Context.Completed.{IsCompleted, agent_compact_context-completes}
use bash_agent.Agent.Events.{Log}
use bash_agent.Agent.UserLines.{
  back_to_user, is_real_user_line, is_user_at, sum_tokens, user_indices,
}
use bash_agent.Base.{
  Bytes, IsText, List, [], arith, codes, drop, false, length, ltb, max, min, none, pos, pos_part,
  refl, some, true, ℕ, ◌*◌, ◌++◌, ◌+ℤ◌, ◌+◌, ◌-◌, ◌/◌, ◌<◌, ◌^◌, ◌∷◌, ◌≡◌, ◌≤◌, ◌⊎◌,
}
use bash_agent.Store.Conversation.{file_lines, lines_from}
use bash_agent.Transport.Events.{Accumulator, accum_init}
use bash_agent.Util.FileSystem.{World, in_full}

abbrev pub thousandths : Double
thousandths = record {
  D = ℕ;
  literal = λ n k. n * 1000 / 10 ^ k;
  of_int = λ z. pos_part z * 1000;
  add = λ a b. a + b;
  sub = λ a b. a - b;
  mul = λ a b. a * b / 1000;
  div = λ a b. a * 1000 / b;
  less = ltb;
  truncated = λ a. pos (a / 1000);
  low_not_positive = refl;
}

abbrev cheap_output : DpConfig ℕ
cheap_output = record {
  baseline_e = pos 0;
  e_fixed = pos 0;
  l_fixed = 5000;
  v = 0;
  p_input = 1000000000;
  p_cache = 1000000000;
  p_out = 0;
  s = 0;
  min_keep_ratio = 250;
  r = 1000;
  beta = 0;
  quality_penalty = 0;
  max_context = pos 200000;
}

abbrev question : Bytes
question = codes "{\"role\":\"user\",\"content\":\"hi\"}"

abbrev answer_line : Bytes
answer_line = codes "{\"role\":\"assistant\",\"content\":[]}"

abbrev eight_lines : List Bytes
eight_lines =
    question ∷ answer_line ∷ question ∷ answer_line ∷ question ∷ answer_line ∷ question
    ∷ answer_line ∷ []

question_run : is_real_user_line question ≡ true
unfolding is_real_user_line bash_agent.Json.Parse.json_parse_root bash_agent.Json.Parse.json_parse
    bash_agent.Json.Parse.value bash_agent.Json.Parse.parse_at bash_agent.Json.Value.skip_ws
    bash_agent.Json.Value.parse_string bash_agent.Json.Parse.after_key
    bash_agent.Json.Parse.after_member bash_agent.Json.Query.json_get_string
    bash_agent.Json.Decode.json_string_val bash_agent.Json.Query.json_get
    bash_agent.Json.Query.get_loop bash_agent.Json.Query.get_value
question_run = refl

answer_run : is_real_user_line answer_line ≡ false
unfolding is_real_user_line bash_agent.Json.Parse.json_parse_root bash_agent.Json.Parse.json_parse
    bash_agent.Json.Parse.value bash_agent.Json.Parse.parse_at bash_agent.Json.Value.skip_ws
    bash_agent.Json.Value.parse_string bash_agent.Json.Parse.after_key
    bash_agent.Json.Parse.after_member bash_agent.Json.Query.json_get_string
    bash_agent.Json.Decode.json_string_val bash_agent.Json.Query.json_get
    bash_agent.Json.Query.get_loop bash_agent.Json.Query.get_value
answer_run = refl

decision_run :
    compact_dp_decision thousandths cheap_output eight_lines (pos 1) (pos 1) (pos 1) (pos 1) ≡ 4
unfolding compact_dp_decision search_best aligned benefit sum_tokens back_to_user power_from ◌+ℤ◌
decision_run = rw (question_run, answer_run) refl

turn_keep_run : compact_turn_keep thousandths eight_lines 250 ≡ 2
unfolding compact_turn_keep user_indices
turn_keep_run = rw (question_run, answer_run) refl

decision_example :
    (compact_dp_decision thousandths cheap_output eight_lines (pos 1) (pos 1) (pos 1) (pos 1) ≡ 0)
    ⊎ IsCut thousandths cheap_output eight_lines
        (compact_dp_decision thousandths cheap_output eight_lines (pos 1) (pos 1) (pos 1) (pos 1))
decision_example =
    compact_dp_decision_lem thousandths cheap_output eight_lines (pos 1) (pos 1) (pos 1) (pos 1)

turn_keep_example :
    ((count_users eight_lines ≡ 0) × (compact_turn_keep thousandths eight_lines 250 ≡ 0))
    ⊎ ((0 < compact_turn_keep thousandths eight_lines 250)
        × (compact_turn_keep thousandths eight_lines 250 ≤ 8)
        × (is_user_at eight_lines (8 - compact_turn_keep thousandths eight_lines 250) ≡ true)
        × (count_users (drop (8 - compact_turn_keep thousandths eight_lines 250) eight_lines)
            ≡ min
                (max (rounded thousandths (count_users eight_lines * 1000 * 250 / 1000)) 1)
                (count_users eight_lines)))
turn_keep_example = compact_turn_keep_lem thousandths eight_lines 250

-- eight records in a file
abbrev eight_records : Bytes
eight_records = let two = question ++ b'\n' ∷ answer_line ++ b'\n' ∷ [] in two ++ two ++ two ++ two

abbrev pub writable_world : World
writable_world = record { files = λ p. none; writable = λ p. in_full }

abbrev pub quiet_log : Log
quiet_log = record {
  events = some [];
  stdout = [];
  shown = [];
  has_queue = true;
  stream_json = false;
}

abbrev pub sample_setup : CompactConfig ℕ
sample_setup = record {
  stats = codes "stats.json";
  summary = codes "summary.txt";
  now = codes "2026-01-01T00:00:00Z";
  max_context_tokens = pos 200000;
  dp_cfg = cheap_output;
}

abbrev pub brief_answer : Accumulator
brief_answer = record accum_init { content = codes "Title: greetings"; in_tokens = 7 }

abbrev pub answer_briefly : List Bytes → Reply
answer_briefly request = some (pos 0, brief_answer)

eight_records-long : 4 < length (file_lines eight_records)
unfolding file_lines lines_from
eight_records-long = omega arith

eight_records-IsText : IsText eight_records
eight_records-IsText = omega arith

context_example :
    Outcome thousandths sample_setup answer_briefly eight_records [] writable_world quiet_log
      (codes "plan_clear")
      (agent_compact_context thousandths sample_setup answer_briefly
        (before eight_records (some []) writable_world quiet_log)
        (codes "plan_clear"))
context_example =
    agent_compact_context_lem thousandths sample_setup answer_briefly eight_records []
      writable_world quiet_log (codes "plan_clear") eight_records-IsText

completes_example : IsCompleted thousandths sample_setup answer_briefly (
    agent_compact_context thousandths sample_setup answer_briefly
      (before eight_records (some []) writable_world quiet_log)
      (codes "plan_clear"))
completes_example =
    agent_compact_context-completes thousandths sample_setup answer_briefly eight_records (some [])
      writable_world quiet_log (codes "plan_clear") refl eight_records-long
      (λ request. (brief_answer, refl)) refl refl
