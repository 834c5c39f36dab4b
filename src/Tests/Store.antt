-- ===== src/Tests/Store.antt =====
-- Runs of the modelled conversation store of c/store.c on concrete inputs.
use bash_agent.Base.{
  Bytes, [], arith, codes, false, length, none, pos, refl, some, str_eq, true, ◌++◌, ◌+◌, ◌<◌, ◌∷◌,
  ◌≡◌, ◌≤◌,
}
use bash_agent.Json.Printed.Objects.{object_text}
use bash_agent.Store.Conversation.{
  Files, ToolUse, file_lines, jsonl_append, results_record, trim_tail, user_record, user_turn_count,
}
use bash_agent.Store.Conversation.Count.{user_turn_count_lem}
use bash_agent.Store.Conversation.Lines.{IsComplete, no_lines, whole_line}
use bash_agent.Store.Conversation.Trim.{trim_tail_divides, trim_tail_unchanged}
use bash_agent.Store.Stats.{Stats, no_stats, store_stats_get_file_int, store_stats_set_int_file}
use bash_agent.Store.Stats.Kept.{AllInts}
use bash_agent.Store.Stats.Updated.{
  StandsFor, StatKey, agent_request_count_key, field, key_text, no_file, put_field, store_stats_lem,
}
use bash_agent.Util.Escape.{json_string}
use bash_agent.Util.FileSystem.{World, in_full, no_access, read_file}

abbrev hello_file : Bytes
hello_file = codes "a\nb\nc\n"

hello_file-IsComplete : IsComplete hello_file
hello_file-IsComplete =
    whole_line (codes "a") (ground arith)
      (whole_line (codes "b") (ground arith) (whole_line (codes "c") (ground arith) no_lines))

abbrev read_use : ToolUse
read_use = record {
  id = some (codes "t1");
  name = some (codes "read");
  input = object_text (codes "type") (json_string (some (codes "file"))) [];
}

user_turn_count_example :
    (user_turn_count (some (jsonl_append hello_file (user_record (some (codes "hi")))))
      ≡ user_turn_count (some hello_file) + 1)
    × (user_turn_count (some (jsonl_append hello_file (results_record ((none, none) ∷ []))))
        ≡ user_turn_count (some hello_file))
user_turn_count_example =
    user_turn_count_lem (codes "hi") (none, none) [] hello_file-IsComplete (omega arith)

hello_file-lines : length (file_lines hello_file) ≡ 3
unfolding file_lines
hello_file-lines = refl

trim_tail_divides_example :
    (archived kept : Bytes) × (trim_tail
        (record { conversation = some hello_file; archive = some []; writable = in_full })
        2
      ≡ (true, record { conversation = some kept; archive = some archived; writable = in_full }))
    × (archived ++ kept ≡ hello_file)
    × (file_lines hello_file ≡ file_lines archived ++ file_lines kept)
    × (length (file_lines kept) ≡ 2)
trim_tail_divides_example =
    trim_tail_divides hello_file [] 2 (omega arith) (omega (arith, hello_file-lines))

trim_tail_unchanged_example :
    let fs : Files = record {
      conversation = some hello_file;
      archive = some [];
      writable = no_access;
    } in
    (length (file_lines hello_file) ≤ 2 → trim_tail fs 2 ≡ (true, fs))
    × (2 < length (file_lines hello_file)
        → no_access ≡ no_access
        → (grown : Bytes) × (trim_tail fs 2 ≡ (false, record fs { archive = some grown }))
          × (0 < length grown))
trim_tail_unchanged_example = trim_tail_unchanged hello_file [] no_access 2 (omega arith)

-- no stats.json yet
abbrev fresh_world : World
fresh_world = record { files = λ p. none; writable = λ p. in_full }

stats_path : Bytes
stats_path = codes "stats.json"

abbrev one_request : Stats
one_request = put_field agent_request_count_key (pos 3) no_stats

set_fresh_ints : AllInts one_request
set_fresh_ints = omega arith

abbrev fresh_after : World
fresh_after =
    store_stats_set_int_file fresh_world stats_path (codes "agent_request_count") (pos 3)
      (codes "2026-01-01T00:00:00Z")

store_stats_example :
    StandsFor (read_file fresh_after stats_path) one_request
    × ((k : StatKey)
        → store_stats_get_file_int fresh_after stats_path (key_text k) ≡ field k one_request)
    × ((p : Bytes) → str_eq p stats_path ≡ false → fresh_after.files p ≡ none)
store_stats_example =
    store_stats_lem fresh_world stats_path agent_request_count_key (pos 3)
      (codes "2026-01-01T00:00:00Z") no_stats refl (omega arith) no_file set_fresh_ints
