-- ===== src/Store/Conversation.antt =====
-- c/store.c: the records of conversation.jsonl.
pub mod Lines
pub mod Records
pub mod Blocks
pub mod Count
pub mod Trim
use mathlib.Core.Option
use bash_agent.Base.{
  Bool, Bytes, List, Option, [], c_string, codes, drop, false, if◌then◌else◌, leb, length, none,
  some, suc, take, text_is, true, zero, ℕ, ◌&&◌, ◌++◌, ◌+◌, ◌-◌, ◌==◌, ◌∷◌,
}
use bash_agent.Json.Parse.{json_parse_root, parsed_and}
use bash_agent.Json.Query.{json_get, json_get_string, result}
use bash_agent.Json.Value.{Val, is_string}
use bash_agent.Util.Escape.{json_string}
use bash_agent.Util.FileSystem.{Access, cut_off, in_full, no_access}

-- store_conv_add_user: the record that it appends
unfoldable pub user_record : Option Bytes → Bytes
unfolding json_string
user_record content = codes "{\"role\":\"user\",\"content\":" ++ (json_string content ++ codes "}")

-- an element of the three arrays that store_conv_add_assistant is given
pub record ToolUse : Type 0 where
  pub id : Option Bytes
  pub name : Option Bytes
  pub input : Bytes

-- `s ? s : ""`
abbrev pub or_empty : Option Bytes → Option Bytes
or_empty none = some []
or_empty (some s) = some s

unfoldable pub tool_use_block : ToolUse → Bytes
unfolding json_string
tool_use_block t =
    codes "{\"type\":\"tool_use\",\"id\":"
    ++ (json_string t.id
        ++ (codes ",\"name\":"
            ++ (json_string t.name ++ (codes ",\"input\":" ++ (t.input ++ codes "}")))))

-- the loop over the tool_use blocks
unfoldable pub tool_use_blocks : List ToolUse → Bytes
unfolding tool_use_block
tool_use_blocks [] = []
tool_use_blocks (t ∷ ts) = codes "," ++ (tool_use_block t ++ tool_use_blocks ts)

-- store_conv_add_assistant: the record that it appends
unfoldable pub assistant_record : Option Bytes → Option Bytes → List ToolUse → Bytes
unfolding json_string tool_use_blocks
assistant_record thinking reply tools =
    codes "{\"role\":\"assistant\",\"content\":["
    ++ (codes "{\"type\":\"thinking\",\"thinking\":"
        ++ (json_string (or_empty thinking)
            ++ (codes "}"
                ++ (codes ",{\"type\":\"text\",\"text\":"
                    ++ (json_string (or_empty reply)
                        ++ (codes "}" ++ (tool_use_blocks tools ++ codes "]}")))))))

-- one element of store_conv_add_tool_results: an id and its contents
unfoldable pub result_block : Option Bytes → Option Bytes → Bytes
unfolding json_string
result_block id body =
    codes "{\"type\":\"tool_result\",\"tool_use_id\":"
    ++ (json_string id ++ (codes ",\"content\":" ++ (json_string body ++ codes "}")))

-- its loop; the flag is `i > 0`
unfoldable pub result_blocks : Bool → List (Option Bytes × Option Bytes) → Bytes
unfolding result_block
result_blocks later [] = []
result_blocks later ((id, body) ∷ rs) =
    (if later then codes "," else []) ++ (result_block id body ++ result_blocks true rs)

-- store_conv_add_tool_results: the record that it appends
unfoldable pub results_record : List (Option Bytes × Option Bytes) → Bytes
unfolding result_blocks
results_record rs =
    codes "{\"role\":\"user\",\"content\":[" ++ (result_blocks false rs ++ codes "]}")

-- jsonl_append, on the contents of a file that can be opened
unfoldable pub jsonl_append : Bytes → Bytes → Bytes
jsonl_append file line = file ++ (line ++ b'\n' ∷ [])

-- the loop of store_conv_line_count, with the bytes of the line that is being read; a line
-- without a line feed is not a record
unfoldable pub lines_from : Bytes → Bytes → List Bytes
lines_from line [] = []
lines_from line (c ∷ s) = elim (c == b'\n') [
  | true ↦ line ∷ lines_from [] s
  | false ↦ lines_from (line ++ c ∷ []) s
]

-- store_conv_line_count, which store_event_lines calls on events.jsonl
unfoldable pub file_lines : Bytes → List Bytes
unfolding lines_from
file_lines = lines_from []

-- what store_conv_user_turn_count asks of a parsed line
unfoldable pub is_user_val : Val → Bool
is_user_val v =
    text_is (json_get_string v (codes "role")) (codes "user")
    && is_string (result (json_get v (codes "content"))).kind

-- one round of store_conv_user_turn_count
unfoldable pub is_user_turn : Bytes → Bool
unfolding is_user_val
is_user_turn line = parsed_and (json_parse_root (some line)) is_user_val

-- store_conv_user_turn_count over the lines
unfoldable pub count_turns : List Bytes → ℕ
count_turns [] = 0
count_turns (l ∷ ls) = (if is_user_turn l then 1 else 0) + count_turns ls

-- store_conv_user_turn_count; `none` is a file that cannot be opened
unfoldable pub user_turn_count : Option Bytes → ℕ
unfolding count_turns file_lines
user_turn_count none = 0
user_turn_count (some file) = count_turns (file_lines file)

-- the number of line feeds, as store_conv_trim_tail counts them
unfoldable pub count_feeds : Bytes → ℕ
count_feeds [] = 0
count_feeds (c ∷ s) = (if c == b'\n' then 1 else 0) + count_feeds s

-- the loop of conv_line_end_offset: the bytes up to the end of line number `n`
unfoldable pub end_offset : ℕ → Bytes → ℕ
end_offset zero s = 0
end_offset (suc n) [] = 0
end_offset (suc n) (c ∷ s) = suc (end_offset (if c == b'\n' then n else suc n) s)

-- What store_conv_trim_tail works on. `archive` is none where conversation-archive.jsonl cannot
-- be opened; what is appended to it is taken to be written in full. `writable` says how a write to
-- the conversation ends.
pub record Files : Type 0 where
  pub conversation : Option Bytes
  pub archive : Option Bytes
  pub writable : Access

-- the conversation rewritten
abbrev pub write_kept : Access → Files → Bytes → Bool × Files
write_kept in_full fs kept = (true, record fs { conversation = some kept })
write_kept (cut_off n) fs kept =
    (leb (length kept) n, record fs { conversation = some (take n kept) })
write_kept no_access fs kept = (false, fs)

-- the writes of store_conv_trim_tail
unfoldable pub write_split : Files → Bytes → ℕ → Bool × Files
write_split fs content at =
    write_kept fs.writable
      (record fs { archive = Option.map (λ a. a ++ take at content) fs.archive }) (drop at content)

-- store_conv_trim_tail; the flag is a return of 0
unfoldable pub trim_tail : Files → ℕ → Bool × Files
unfolding count_feeds end_offset write_split
trim_tail fs keep = elim fs.conversation [
  | none ↦ (false, fs)
  | some file ↦
      let content = c_string file in
      if leb (count_feeds content) keep
      then (true, fs)
      else write_split fs content (end_offset (count_feeds content - keep) content)
]
