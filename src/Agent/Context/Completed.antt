-- ===== src/Agent/Context/Completed.antt =====
-- agent_compact_context: what a forced compaction does when the model answers.
use bash_agent.Agent.Compact.{Double}
use bash_agent.Agent.Context.{
  CompactConfig, Reply, Session, agent_compact_context, checked_keep, chosen_keep, compact_lines,
  compact_stats, compacted, decision, has_usage, is_forced, need_compact, record_compact,
  summary_reply, turn_keep, with_summary,
}
use bash_agent.Agent.Context.Compacted.{before}
use bash_agent.Agent.Events.{Log}
use bash_agent.Agent.Instruction.{instruction_line, summary_text}
use bash_agent.Agent.Results.{add_stat}
use bash_agent.Base.{
  Bool-cases, Bytes, List, Option, [], arith, c_string, false, if◌then◌else◌, inl, inr, leb, length,
  pos, refl, some, str_eq, str_eq_refl, take, true, ℕ, ℤ, ◌++◌, ◌-◌, ◌<◌, ◌==◌, ◌||◌, ◌∙◌, ◌∷◌, ◌≡◌,
}
use bash_agent.Store.Conversation.{file_lines}
use bash_agent.Store.Stats.{store_stats_set_int_file}
use bash_agent.Transport.Events.{Accumulator}
use bash_agent.Util.FileSystem.{World, in_full, read_file, write_file, write_file-other}

-- the other files after a call of store_stats_set_int_file
add_stat-other :
    (stats now : Bytes) (w : World) (key : Bytes) (delta : ℤ) (p : Bytes)
    → str_eq p stats ≡ false
    → (add_stat stats now w key delta).files p ≡ w.files p
unfolding add_stat store_stats_set_int_file
add_stat-other stats now w key delta p other = write_file-other w stats _ p other

compact_stats-other :
    (stats now : Bytes) (w : World) (acc : Accumulator) (p : Bytes)
    → str_eq p stats ≡ false
    → (compact_stats stats now w acc).files p ≡ w.files p
unfolding compact_stats
compact_stats-other stats now w acc p other = simp (add_stat-other, other)

record_compact-other :
    (stats now : Bytes) (st : Session) (acc : Accumulator) (p : Bytes)
    → str_eq p stats ≡ false
    → (record_compact stats now st acc).world.files p ≡ st.world.files p
unfolding record_compact
record_compact-other stats now st acc p other = elim (Bool-cases (has_usage acc)) [
  | inl e ↦ rw e (compact_stats-other stats now st.world acc p other)
  | inr e ↦ rw e refl
]

module _ (f : Double) (setup : CompactConfig f.D) where
  checked_keep-forced :
      (ls : List Bytes) (k : ℕ) → (keep : ℕ) × (checked_keep f setup ls true (some k) ≡ some keep)
  checked_keep-forced ls k =
      let keep = if k == 0 then turn_keep f setup ls else k in
      elim (Bool-cases (leb (length ls) keep)) [
        | inl e ↦ (keep, rw e refl)
        | inr e ↦ (keep, rw e refl)
      ]

  chosen_keep-forced :
      (w : World) (ls : List Bytes) → (keep : ℕ) × (chosen_keep f setup w ls true ≡ some keep)
  unfolding chosen_keep
  chosen_keep-forced w ls =
      let k = decision f setup w ls in
      elim (Bool-cases ((k == 0) || leb (length ls) k)) [
        | inl e ↦ rw e (checked_keep-forced ls (turn_keep f setup ls))
        | inr e ↦ rw e (checked_keep-forced ls k)
      ]

  saved_summary :
      (st : Session) (trigger : Bytes) (n keep : ℕ) (acc : Accumulator)
      → str_eq setup.summary setup.stats ≡ false
      → st.world.writable setup.summary ≡ in_full
      → (compacted f setup st trigger n keep acc).world.files setup.summary
        ≡ some (c_string acc.content)
  unfolding compacted with_summary write_file
  saved_summary st trigger n keep acc other writable =
      record_compact-other setup.stats setup.now (with_summary f setup st n keep acc) acc
        setup.summary other
      ∙ rw (writable, str_eq_refl setup.summary) refl

  module _ (ask : List Bytes → Reply) where
    -- what a completed call tells
    abbrev pub IsCompleted : ℤ × Session → Type 0
    IsCompleted (code, after) =
        (request : List Bytes) × (acc : Accumulator) × (summary_reply (ask request) ≡ some acc)
        × (code ≡ pos 0)
        × (after.world.files setup.summary ≡ some (c_string acc.content))

    compact_lines-completes :
        (st : Session) (trigger : Bytes) (ls : List Bytes)
        → is_forced trigger ≡ true
        → 4 < length ls
        → ((request : List Bytes) → (acc : Accumulator) × (summary_reply (ask request) ≡ some acc))
        → str_eq setup.summary setup.stats ≡ false
        → st.world.writable setup.summary ≡ in_full
        → IsCompleted (compact_lines f setup ask st trigger ls)
    unfolding compact_lines need_compact
    compact_lines-completes st trigger ls forced long answers other writable =
        let (keep, chosen) = chosen_keep-forced st.world ls in
        let previous = summary_text (read_file st.world setup.summary) in
        let request = take (length ls - keep) ls ++ instruction_line previous ∷ [] in
        let (acc, answer) = answers request in
        let short : leb (length ls) 4 ≡ false = ground arith in
        rw (forced, short, chosen, answer)
          (request, acc, answer, refl, saved_summary st trigger (length ls) keep acc other writable)

    -- A compaction that the trigger forces, on a conversation of more than four records and a
    -- summary file that can be written and is not stats.json, where the model answers every
    -- request with some text: the call returns 0, and the summary file holds the answer to a
    -- request, as the C string that was saved.
    pub agent_compact_context-completes :
        (file : Bytes) (archive : Option Bytes) (w : World) (log : Log) (trigger : Bytes)
        → is_forced trigger ≡ true
        → 4 < length (file_lines file)
        → ((request : List Bytes) → (acc : Accumulator) × (summary_reply (ask request) ≡ some acc))
        → str_eq setup.summary setup.stats ≡ false
        → w.writable setup.summary ≡ in_full
        → IsCompleted (agent_compact_context f setup ask (before file archive w log) trigger)
    unfolding agent_compact_context
    agent_compact_context-completes file archive w log trigger =
        compact_lines-completes (before file archive w log) trigger (file_lines file)
