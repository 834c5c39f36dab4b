-- ===== src/Agent/Goal.antt =====
-- c/agent.c: agent_goal_judge, which asks the model whether the goal has been reached. The call
-- of the model is a parameter. Characters are classified as in the C locale.
pub mod Judged
use bash_agent.Agent.Context.{Reply, has_usage, summary_reply}
use bash_agent.Agent.Events.{Log, store_event_append}
use bash_agent.Agent.Results.{usage_text}
use bash_agent.Base.{
  Bool, Bytes, List, Option, [], c_string, codes, if◌then◌else◌, leb, length, none, pos, some,
  str_eq, ℕ, ◌&&◌, ◌++◌, ◌-◌, ◌==◌, ◌||◌, ◌∷◌,
}
use bash_agent.Store.Conversation.{file_lines, user_record}
use bash_agent.Transport.Events.{Accumulator}

-- isspace or ispunct
abbrev pub is_skipped : ℕ → Bool
is_skipped c =
    (leb 9 c && leb c 13)
    || ((leb 32 c && leb c 47)
        || ((leb 58 c && leb c 64) || ((leb 91 c && leb c 96) || (leb 123 c && leb c 126))))

-- toupper
abbrev pub upper : ℕ → ℕ
upper c = if leb b'a' c && leb c b'z' then c - 32 else c

-- the loop that makes norm
unfoldable pub norm_of : Bytes → Bytes
norm_of [] = []
norm_of (c ∷ s) = let rest = norm_of s in if is_skipped c then rest else upper c ∷ rest

abbrev pub goal_done : Bytes
goal_done = codes "GOAL_DONE"

-- the instruction for the judge
unfoldable pub judge_instruction : Bytes → Bytes
judge_instruction goal =
    codes
      "You are the goal-completion judge. Review the conversation above against the goal below. If the goal has been fully achieved, reply with the single literal token GOAL_DONE "
    ++ (226
        ∷ 128
        ∷ 148
        ∷ codes
            " exactly as written (uppercase, with the underscore).. If the goal has NOT been fully achieved, reply instead with one short actionable instruction for what remains (it will be sent to the agent as its next task). Goal: ")
    ++ goal

-- judge_lines
unfoldable pub judge_lines : Bytes → Bytes → List Bytes
unfolding judge_instruction user_record
judge_lines goal file = file_lines file ++ user_record (some (judge_instruction goal)) ∷ []

-- the usage record of the judge
unfoldable pub goal_usage : Accumulator → Bytes
goal_usage acc =
    usage_text (pos acc.in_tokens) (pos acc.out_tokens) (pos acc.cache_read_tokens)
      (pos acc.cache_creation_tokens)
    ++ codes ",\"kind\":\"goal\"}"

-- the reply as the next instruction
abbrev pub next_instruction : Bytes → Bytes
next_instruction content =
    if length content == 0 then codes "Continue working toward the goal." else content

-- what agent_goal_judge ends as: NULL, a text, or a crash of the program, which is a call of strcmp
-- on NULL: the data of a StrBuf that nothing was appended to
pub data Verdict : Type 0 where
  no_verdict : Verdict
  says : Bytes → Verdict
  crashes : Verdict

-- what is made of the text of the reply
unfoldable pub judged : Bytes → Verdict
unfolding norm_of
judged content =
    let norm = norm_of content in
    if length norm == 0
    then crashes
    else says (if str_eq norm goal_done then goal_done else next_instruction content)

-- a reply that was received
unfoldable pub judge_reply : Log → Option Accumulator → Verdict × Log
unfolding judged goal_usage store_event_append
judge_reply log none = (no_verdict, log)
judge_reply log (some acc) = (
  judged (c_string acc.content),
  if has_usage acc then store_event_append log (goal_usage acc) else log,
)

-- agent_goal_judge; a conversation of `none` cannot be opened
unfoldable pub agent_goal_judge : Bytes → (List Bytes → Reply) → Option Bytes → Log → Verdict × Log
unfolding judge_reply judge_lines
agent_goal_judge goal ask none log = (no_verdict, log)
agent_goal_judge goal ask (some file) log =
    judge_reply log (summary_reply (ask (judge_lines goal file)))
