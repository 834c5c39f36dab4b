-- ===== src/Agent/Instruction.antt =====
-- c/agent.c: the instruction for a summary of agent_compact_context, and store_summary_get.
use bash_agent.Base.{
  Bool, Bytes, Option, [], codes, drop, if◌then◌else◌, length, none, peek, some, starts_with, true,
  ◌&&◌, ◌++◌, ◌==◌, ◌||◌, ◌∷◌,
}
use bash_agent.Store.Conversation.{user_record}

-- a text without the line feeds and carriage returns at its end
unfoldable pub without_feeds : Bytes → Bytes
without_feeds [] = []
without_feeds (c ∷ s) =
    let rest = without_feeds s in
    if (length rest == 0) && ((c == b'\n') || (c == b'\r')) then [] else c ∷ rest

-- store_summary_get on what util_read_file returns
unfoldable pub summary_text : Option Bytes → Option Bytes
unfolding without_feeds
summary_text none = none
summary_text (some s) = if length (without_feeds s) == 0 then none else some (without_feeds s)

-- up to the end of the line
unfoldable pub rest_of_line : Bytes → Bytes
rest_of_line [] = []
rest_of_line (c ∷ s) = let rest = rest_of_line s in if c == b'\n' then [] else c ∷ rest

-- behind "Title:" and a blank
abbrev pub behind_title : Bytes → Bytes
behind_title line = let s = drop 6 line in if peek s == b' ' then drop 1 s else s

-- the loop over the lines of the summary; the flag is that a line starts here
unfoldable pub title_from : Bool → Bytes → Bytes
unfolding rest_of_line
title_from at_start [] = []
title_from at_start (c ∷ s) =
    let more = title_from (c == b'\n') s in
    if at_start && starts_with (c ∷ s) (codes "Title:")
    then rest_of_line (behind_title (c ∷ s))
    else more

unfoldable pub title_of : Option Bytes → Bytes
unfolding title_from
title_of none = []
title_of (some s) = title_from true s

-- summary_instruction
unfoldable pub summary_instruction : Option Bytes → Bytes
unfolding title_of
summary_instruction previous =
    codes
      "The conversation context above needs to be compacted. IMPORTANT: Do NOT use any tools. Do NOT think. Just output the summary directly as plain text. Summarize the key information from the messages above into a concise context summary. Update the existing summary snapshot using the messages above. Use exactly these fields:\nTitle: "
    ++ (title_of previous
        ++ (codes
              "\nTask focus:\nLatest request:\nKey technical concepts:\nFiles and code:\nProgress:\nTool evidence:\nErrors and fixes:\nReflections:\nNext step:\nCritical context:"
            ++ codes
                "\n\nThe Title line is the session title: keep it EXACTLY as written above when present; otherwise write one short line (at most 60 characters, no surrounding quotes) describing this conversation."))

-- instr_line
unfoldable pub instruction_line : Option Bytes → Bytes
unfolding user_record summary_instruction
instruction_line previous = user_record (some (summary_instruction previous))
