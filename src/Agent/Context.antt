-- ===== src/Agent/Context.antt =====
-- c/agent.c: agent_compact_context, which replaces the start of the conversation by a summary.
-- The call of the model is a parameter, and so is the arithmetic of `double`. Integers are taken
-- not to overflow, and the time to stay the same during one call.
pub mod Chosen
pub mod Compacted
pub mod Completed
use bash_agent.Agent.Compact.{Double, DpConfig, compact_dp_decision, compact_turn_keep}
use bash_agent.Agent.Events.{Log, push_display_event, store_event_append}
use bash_agent.Agent.Instruction.{instruction_line, summary_text}
use bash_agent.Agent.Results.{add_stat, usage_text}
use bash_agent.Base.{
  Bool, Bytes, List, Option, [], c_string, codes, if◌then◌else◌, is_positive, leb, length, ltb,
  negsuc, none, not, pos, pos_part, some, str_eq, take, zero, ℕ, ℤ, ◌&&◌, ◌*◌, ◌++◌, ◌-◌, ◌/◌, ◌==◌,
  ◌||◌, ◌∷◌,
}
use bash_agent.Protocol.{display_msg_context_update}
use bash_agent.Store.Conversation.{Files, file_lines, trim_tail}
use bash_agent.Store.Stats.{stats_int}
use bash_agent.Transport.Events.{Accumulator}
use bash_agent.Util.FileSystem.{World, read_file, write_file}

-- What the function works on.
pub record Session : Type 0 where
  pub files : Files
  pub world : World
  pub log : Log

-- the members of Agent that it reads; `now` is the time
pub record CompactConfig (D : Type 0) : Type 0 where
  pub stats : Bytes
  pub summary : Bytes
  pub now : Bytes
  pub max_context_tokens : ℤ
  pub dp_cfg : DpConfig D

-- the triggers that always compact
abbrev pub is_forced : Bytes → Bool
is_forced trigger = str_eq trigger (codes "plan_clear") || str_eq trigger (codes "plan_confirm")

-- an integer of stats.json
abbrev pub stat_of : {D : Type 0} → CompactConfig D → World → Bytes → ℤ
stat_of setup w key = stats_int (read_file w setup.stats) key

-- the context holds more than 90 % of its limit
unfoldable pub near_limit : {D : Type 0} → CompactConfig D → World → Bool
unfolding stats_int
near_limit setup w =
    let ct = stat_of setup w (codes "current_context_tokens") in
    is_positive ct && ltb (pos_part setup.max_context_tokens * 90 / 100) (pos_part ct)

-- the usage record of the summary
unfoldable pub compact_usage : Accumulator → Bytes
compact_usage acc =
    usage_text (pos acc.in_tokens) (pos acc.out_tokens) (pos acc.cache_read_tokens)
      (pos acc.cache_creation_tokens)
    ++ codes ",\"kind\":\"compact\"}"

-- whether the model told any tokens
abbrev pub has_usage : Accumulator → Bool
has_usage acc =
    ltb 0 acc.in_tokens
    || (ltb 0 acc.out_tokens || (ltb 0 acc.cache_read_tokens || ltb 0 acc.cache_creation_tokens))

-- the sums that the summary changes
unfoldable pub compact_stats : Bytes → Bytes → World → Accumulator → World
unfolding add_stat
compact_stats stats now w acc =
    let w1 = add_stat stats now w (codes "compact_request_count") (pos 1) in
    let w2 = add_stat stats now w1 (codes "total_input_tokens") (pos acc.in_tokens) in
    let w3 = add_stat stats now w2 (codes "total_output_tokens") (pos acc.out_tokens) in
    let w4 = add_stat stats now w3 (codes "total_cache_read_tokens") (pos acc.cache_read_tokens) in
    add_stat stats now w4 (codes "total_cache_creation_tokens") (pos acc.cache_creation_tokens)

-- the stats and the usage record
unfoldable pub record_compact : Bytes → Bytes → Session → Accumulator → Session
unfolding compact_stats compact_usage store_event_append
record_compact stats now st acc =
    if has_usage acc
    then record st {
      world = compact_stats stats now st.world acc;
      log = store_event_append st.log (compact_usage acc);
    }
    else st

-- what the call of the model gives: the result of http_post_sse and what was collected; none is
-- that build_claude_request returned NULL
abbrev pub Reply : Type 0
Reply = Option (ℤ × Accumulator)

-- a reply with which a summary can be made
abbrev pub summary_reply : Reply → Option Accumulator
summary_reply (some (pos zero, acc)) = if length acc.content == 0 then none else some acc
summary_reply _ = none

module _ (f : Double) where
  open f use {D}

  -- compact_dp_decision on the counts of stats.json
  abbrev pub decision : CompactConfig D → World → List Bytes → ℕ
  decision setup w ls =
      compact_dp_decision f setup.dp_cfg ls (stat_of setup w (codes "current_turn_count"))
        (stat_of setup w (codes "agent_request_count"))
        (stat_of setup w (codes "compact_request_count"))
        (stat_of setup w (codes "total_input_tokens"))

  -- need_compact; the flag is that the trigger forces it
  unfoldable pub need_compact : CompactConfig D → World → List Bytes → Bool → Bool
  unfolding near_limit
  need_compact setup w ls forced =
      forced || (ltb 4 (length ls) && (ltb 0 (decision setup w ls) || near_limit setup w))

  abbrev pub turn_keep : CompactConfig D → List Bytes → ℕ
  turn_keep setup ls = compact_turn_keep f ls setup.dp_cfg.min_keep_ratio

  -- the number of lines where the decision is not used; `none` is a return of 0
  abbrev pub fallback_keep : CompactConfig D → World → List Bytes → Bool → Option ℕ
  fallback_keep setup w ls forced =
      if forced || near_limit setup w then some (turn_keep setup ls) else none

  -- the last tests on the number of lines
  abbrev pub checked_keep : CompactConfig D → List Bytes → Bool → Option ℕ → Option ℕ
  checked_keep setup ls forced none = none
  checked_keep setup ls forced (some k) =
      let keep = if k == 0 then turn_keep setup ls else k in
      if leb (length ls) keep && not forced then none else some keep

  -- keep; `none` is a return of 0
  unfoldable pub chosen_keep : CompactConfig D → World → List Bytes → Bool → Option ℕ
  unfolding near_limit compact_turn_keep compact_dp_decision
  chosen_keep setup w ls forced =
      let k = decision setup w ls in
      checked_keep setup ls forced
        (if (k == 0) || leb (length ls) k then fallback_keep setup w ls forced else some k)

  -- the summary saved and the conversation trimmed
  unfoldable pub with_summary : CompactConfig D → Session → ℕ → ℕ → Accumulator → Session
  unfolding trim_tail
  with_summary setup st n keep acc = record st {
    world = (write_file st.world setup.summary (c_string acc.content)).1;
    files = if ltb keep n then (trim_tail st.files keep).1 else st.files;
  }

  -- what is done with a summary
  unfoldable pub compacted : CompactConfig D → Session → Bytes → ℕ → ℕ → Accumulator → Session
  unfolding record_compact with_summary push_display_event
  compacted setup st trigger n keep acc =
      let recorded = record_compact setup.stats setup.now (with_summary setup st n keep acc) acc in
      record recorded {
        log = push_display_event recorded.log (display_msg_context_update (some trigger));
      }

  abbrev pub finish : CompactConfig D → Session → Bytes → ℕ → ℕ → Option Accumulator → ℤ × Session
  finish setup st trigger n keep none = (negsuc 0, st)
  finish setup st trigger n keep (some acc) = (pos 0, compacted setup st trigger n keep acc)

  -- the request for a summary, and what follows; `ask` calls the model with these lines
  abbrev pub summarize :
      CompactConfig D → (List Bytes → Reply) → Session → Bytes → List Bytes → Option ℕ → ℤ × Session
  summarize setup ask st trigger ls none = (pos 0, st)
  summarize setup ask st trigger ls (some keep) =
      let previous = summary_text (read_file st.world setup.summary) in
      finish setup st trigger (length ls) keep
        (summary_reply (ask (take (length ls - keep) ls ++ instruction_line previous ∷ [])))

  -- agent_compact_context where the conversation can be read
  unfoldable pub compact_lines :
      CompactConfig D → (List Bytes → Reply) → Session → Bytes → List Bytes → ℤ × Session
  unfolding need_compact chosen_keep compacted summary_text instruction_line
  compact_lines setup ask st trigger ls =
      let forced = is_forced trigger in
      if need_compact setup st.world ls forced
      then (if leb (length ls) 4
          then (pos 0, st)
          else summarize setup ask st trigger ls (chosen_keep setup st.world ls forced))
      else (pos 0, st)

  -- agent_compact_context, without the title of the terminal
  unfoldable pub agent_compact_context :
      CompactConfig D → (List Bytes → Reply) → Session → Bytes → ℤ × Session
  unfolding compact_lines file_lines
  agent_compact_context setup ask st trigger = elim st.files.conversation [
    | none ↦ (if is_forced trigger then negsuc 0 else pos 0, st)
    | some file ↦ compact_lines setup ask st trigger (file_lines file)
  ]
