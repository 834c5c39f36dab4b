-- ===== src/Store/Stats.antt =====
-- c/store.c: stats.json, and the integers that the program keeps in it.
pub mod Kept
pub mod Updated
use bash_agent.Base.{
  Bytes, Option, codes, if◌then◌else◌, none, peek, pos, some, str_eq, ℤ, ◌++◌, ◌==◌,
}
use bash_agent.Json.Numbers.{int_text, json_get_int}
use bash_agent.Json.Parse.{json_parse_root}
use bash_agent.Json.Value.{Parse, Val, err, ok, overrun, stuck}
use bash_agent.Util.Escape.{json_string}
use bash_agent.Util.FileSystem.{World, read_file, write_file}

-- the integers of stats.json
pub record Stats : Type 0 where
  pub current_turn_count : ℤ
  pub agent_request_count : ℤ
  pub compact_request_count : ℤ
  pub sub_agent_request_count : ℤ
  pub total_input_tokens : ℤ
  pub total_output_tokens : ℤ
  pub total_cache_read_tokens : ℤ
  pub total_cache_creation_tokens : ℤ
  pub current_context_tokens : ℤ
  pub last_call_speed_tok_per_sec : ℤ

abbrev pub no_stats : Stats
no_stats = record {
  current_turn_count = pos 0;
  agent_request_count = pos 0;
  compact_request_count = pos 0;
  sub_agent_request_count = pos 0;
  total_input_tokens = pos 0;
  total_output_tokens = pos 0;
  total_cache_read_tokens = pos 0;
  total_cache_creation_tokens = pos 0;
  current_context_tokens = pos 0;
  last_call_speed_tok_per_sec = pos 0;
}

-- the fields of a parsed stats.json; a missing field counts as 0
abbrev pub stats_of : Val → Stats
stats_of v = record {
  current_turn_count = json_get_int v (codes "current_turn_count");
  agent_request_count = json_get_int v (codes "agent_request_count");
  compact_request_count = json_get_int v (codes "compact_request_count");
  sub_agent_request_count = json_get_int v (codes "sub_agent_request_count");
  total_input_tokens = json_get_int v (codes "total_input_tokens");
  total_output_tokens = json_get_int v (codes "total_output_tokens");
  total_cache_read_tokens = json_get_int v (codes "total_cache_read_tokens");
  total_cache_creation_tokens = json_get_int v (codes "total_cache_creation_tokens");
  current_context_tokens = json_get_int v (codes "current_context_tokens");
  last_call_speed_tok_per_sec = json_get_int v (codes "last_call_speed_tok_per_sec");
}

-- the fields of what json_parse_root returns
abbrev pub stats_at : Parse → Stats
stats_at (ok v r) = stats_of v
stats_at (err e) = no_stats
stats_at overrun = no_stats
stats_at stuck = no_stats

-- what store_stats_set_int_file takes from the file; `none` is a file that cannot be read
unfoldable pub read_stats : Option Bytes → Stats
read_stats none = no_stats
read_stats (some content) =
    if peek content == 0 then no_stats else stats_at (json_parse_root (some content))

-- the chain of strcmp in store_stats_set_int_file; another key changes nothing
unfoldable pub set_field : Bytes → ℤ → Stats → Stats
set_field key amount s =
    if str_eq key (codes "current_turn_count")
    then record s { current_turn_count = amount }
    else if str_eq key (codes "agent_request_count")
    then record s { agent_request_count = amount }
    else if str_eq key (codes "compact_request_count")
    then record s { compact_request_count = amount }
    else if str_eq key (codes "sub_agent_request_count")
    then record s { sub_agent_request_count = amount }
    else if str_eq key (codes "total_input_tokens")
    then record s { total_input_tokens = amount }
    else if str_eq key (codes "total_output_tokens")
    then record s { total_output_tokens = amount }
    else if str_eq key (codes "total_cache_read_tokens")
    then record s { total_cache_read_tokens = amount }
    else if str_eq key (codes "total_cache_creation_tokens")
    then record s { total_cache_creation_tokens = amount }
    else if str_eq key (codes "current_context_tokens")
    then record s { current_context_tokens = amount }
    else if str_eq key (codes "last_call_speed_tok_per_sec")
    then record s { last_call_speed_tok_per_sec = amount }
    else s

-- the buffer of stats_write_canonical; `updated` is the time
unfoldable pub stats_text : Stats → Bytes → Bytes
unfolding json_string
stats_text s updated =
    codes "{\"current_turn_count\":"
    ++ (int_text s.current_turn_count
        ++ (codes ",\"agent_request_count\":"
            ++ (int_text s.agent_request_count
                ++ (codes ",\"compact_request_count\":"
                    ++ (int_text s.compact_request_count
                        ++ (codes ",\"sub_agent_request_count\":"
                            ++ (int_text s.sub_agent_request_count
                                ++ (codes ",\"total_input_tokens\":"
                                    ++ (int_text s.total_input_tokens
                                        ++ (codes ",\"total_output_tokens\":"
                                            ++ (int_text s.total_output_tokens
                                                ++ (codes ",\"total_cache_read_tokens\":"
                                                    ++ (int_text s.total_cache_read_tokens
                                                        ++ (codes
                                                            ",\"total_cache_creation_tokens\":"
                                                            ++ (int_text
                                                            s.total_cache_creation_tokens
                                                            ++ (codes ",\"current_context_tokens\":"
                                                            ++ (int_text s.current_context_tokens
                                                            ++ (codes
                                                            ",\"last_call_speed_tok_per_sec\":"
                                                            ++ (int_text
                                                            s.last_call_speed_tok_per_sec
                                                            ++ (codes ",\"last_updated\":"
                                                            ++ (json_string (some updated)
                                                            ++ codes "}\n")))))))))))))))))))))

-- store_stats_set_int_file at the time `now`
unfoldable pub store_stats_set_int_file : World → Bytes → Bytes → ℤ → Bytes → World
unfolding read_stats set_field stats_text
store_stats_set_int_file w path key amount now =
    let s = set_field key amount (read_stats (read_file w path)) in
    (write_file w path (stats_text s now)).1

-- one integer of what json_parse_root returns
abbrev pub int_at : Parse → Bytes → ℤ
int_at (ok v r) key = json_get_int v key
int_at (err e) key = pos 0
int_at overrun key = pos 0
int_at stuck key = pos 0

-- store_stats_get_file_int on what store_stats_read returns
unfoldable pub stats_int : Option Bytes → Bytes → ℤ
stats_int none key = pos 0
stats_int (some content) key = int_at (json_parse_root (some content)) key

-- store_stats_get_file_int
unfoldable pub store_stats_get_file_int : World → Bytes → Bytes → ℤ
unfolding stats_int
store_stats_get_file_int w path key = stats_int (read_file w path) key
