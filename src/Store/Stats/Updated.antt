-- ===== src/Store/Stats/Updated.antt =====
-- stats.json: what store_stats_set_int_file does to what is read of the file.
use mathlib.Core.Path.{subst}
use bash_agent.Agent.Context.Compacted.{before}
use bash_agent.Base.{
  Bytes, IsText, Option, ap, arith, c_string_text, codes, false, none, peek, refl, some, str_eq,
  str_eq_refl, true, ℤ, ◌++◌, ◌==◌, ◌∙◌, ◌∷◌, ◌≡◌,
}
use bash_agent.Json.Numbers.{int_text}
use bash_agent.Json.Numbers.Printed.{IsInt, int_text-IsText}
use bash_agent.Json.Parse.{json_parse_root}
use bash_agent.Json.Query.Members.{find_text}
use bash_agent.Json.Value.{Error, Val, err, ok}
use bash_agent.Store.Stats.{
  Stats, int_at, no_stats, read_stats, set_field, stats_int, stats_of, stats_text,
  store_stats_get_file_int, store_stats_set_int_file,
}
use bash_agent.Store.Stats.Kept.{
  AllInts, field_lem, json_parse_root-stats, members_of, stats_of-printed,
}
use bash_agent.Util.Escape.{json_string}
use bash_agent.Util.FileSystem.{World, in_full, put, read_file, write_as, write_file}
use bash_agent.Util.Printable.{IsText-append, json_string-IsText}

printed-IsText :
    (k : Bytes) → IsText k → (z : ℤ) (t : Bytes) → IsText t → IsText (k ++ (int_text z ++ t))
printed-IsText k hk z t ht =
    IsText-append k (int_text z ++ t) hk (IsText-append (int_text z) t (int_text-IsText z) ht)

-- the printed file is a C string
stats_text-IsText : (s : Stats) (now : Bytes) → IsText now → IsText (stats_text s now)
unfolding stats_text json_string
stats_text-IsText s now h =
    printed-IsText (codes "{\"current_turn_count\":") (omega arith) s.current_turn_count _ (
      printed-IsText (codes ",\"agent_request_count\":") (omega arith) s.agent_request_count _ (
        printed-IsText (codes ",\"compact_request_count\":") (omega arith) s.compact_request_count _
          (printed-IsText (codes ",\"sub_agent_request_count\":") (omega arith)
            s.sub_agent_request_count _
            (printed-IsText (codes ",\"total_input_tokens\":") (omega arith) s.total_input_tokens _
              (printed-IsText (codes ",\"total_output_tokens\":") (omega arith)
                s.total_output_tokens _
                (printed-IsText (codes ",\"total_cache_read_tokens\":") (omega arith)
                  s.total_cache_read_tokens _
                  (printed-IsText (codes ",\"total_cache_creation_tokens\":") (omega arith)
                    s.total_cache_creation_tokens _
                    (printed-IsText (codes ",\"current_context_tokens\":") (omega arith)
                      s.current_context_tokens _
                      (printed-IsText (codes ",\"last_call_speed_tok_per_sec\":") (omega arith)
                        s.last_call_speed_tok_per_sec _
                        (IsText-append (codes ",\"last_updated\":")
                          (json_string (some now) ++ codes "}\n") (omega arith)
                          (IsText-append (json_string (some now)) (codes "}\n")
                            (json_string-IsText now h) (omega arith))))))))))))

-- the keys of stats.json
pub data StatKey : Type 0 where
  current_turn_count_key : StatKey
  agent_request_count_key : StatKey
  compact_request_count_key : StatKey
  sub_agent_request_count_key : StatKey
  total_input_tokens_key : StatKey
  total_output_tokens_key : StatKey
  total_cache_read_tokens_key : StatKey
  total_cache_creation_tokens_key : StatKey
  current_context_tokens_key : StatKey
  last_call_speed_tok_per_sec_key : StatKey

abbrev pub key_text : StatKey → Bytes
key_text current_turn_count_key = codes "current_turn_count"
key_text agent_request_count_key = codes "agent_request_count"
key_text compact_request_count_key = codes "compact_request_count"
key_text sub_agent_request_count_key = codes "sub_agent_request_count"
key_text total_input_tokens_key = codes "total_input_tokens"
key_text total_output_tokens_key = codes "total_output_tokens"
key_text total_cache_read_tokens_key = codes "total_cache_read_tokens"
key_text total_cache_creation_tokens_key = codes "total_cache_creation_tokens"
key_text current_context_tokens_key = codes "current_context_tokens"
key_text last_call_speed_tok_per_sec_key = codes "last_call_speed_tok_per_sec"

abbrev pub field : StatKey → Stats → ℤ
field current_turn_count_key s = s.current_turn_count
field agent_request_count_key s = s.agent_request_count
field compact_request_count_key s = s.compact_request_count
field sub_agent_request_count_key s = s.sub_agent_request_count
field total_input_tokens_key s = s.total_input_tokens
field total_output_tokens_key s = s.total_output_tokens
field total_cache_read_tokens_key s = s.total_cache_read_tokens
field total_cache_creation_tokens_key s = s.total_cache_creation_tokens
field current_context_tokens_key s = s.current_context_tokens
field last_call_speed_tok_per_sec_key s = s.last_call_speed_tok_per_sec

field-IsInt : (k : StatKey) {s : Stats} → AllInts s → IsInt (field k s)
field-IsInt current_turn_count_key h = h.current_turn_count-IsInt
field-IsInt agent_request_count_key h = h.agent_request_count-IsInt
field-IsInt compact_request_count_key h = h.compact_request_count-IsInt
field-IsInt sub_agent_request_count_key h = h.sub_agent_request_count-IsInt
field-IsInt total_input_tokens_key h = h.total_input_tokens-IsInt
field-IsInt total_output_tokens_key h = h.total_output_tokens-IsInt
field-IsInt total_cache_read_tokens_key h = h.total_cache_read_tokens-IsInt
field-IsInt total_cache_creation_tokens_key h = h.total_cache_creation_tokens-IsInt
field-IsInt current_context_tokens_key h = h.current_context_tokens-IsInt
field-IsInt last_call_speed_tok_per_sec_key h = h.last_call_speed_tok_per_sec-IsInt

-- each key finds its member
find_key :
    (k : StatKey) (s : Stats) (now : Bytes)
    → find_text
        (key_text k)
        ((codes "current_turn_count", int_text s.current_turn_count) ∷ members_of s now)
      ≡ some (int_text (field k s))
find_key current_turn_count_key s now = refl
find_key agent_request_count_key s now = refl
find_key compact_request_count_key s now = refl
find_key sub_agent_request_count_key s now = refl
find_key total_input_tokens_key s now = refl
find_key total_output_tokens_key s now = refl
find_key total_cache_read_tokens_key s now = refl
find_key total_cache_creation_tokens_key s now = refl
find_key current_context_tokens_key s now = refl
find_key last_call_speed_tok_per_sec_key s now = refl

stats_text-full : (s : Stats) (now : Bytes) → (peek (stats_text s now) == 0) ≡ false
unfolding stats_text
stats_text-full s now = refl

stats_int-printed :
    (k : StatKey) (s : Stats) (now : Bytes)
    → AllInts s
    → stats_int (some (stats_text s now)) (key_text k) ≡ field k s
unfolding stats_int
stats_int-printed k s now ints =
    ap (λ p. int_at p (key_text k)) (json_parse_root-stats s now)
    ∙ (field_lem s now ints (key_text k) (field k s) (find_key k s now) (field-IsInt k ints))

-- the file that a write leaves
written : (w : World) (path t : Bytes) → IsText t → read_file (put w path t) path ≡ some t
written w path t h = rw (str_eq_refl path, c_string_text t h) refl

store_stats-written :
    (w : World) (path key : Bytes) (amount : ℤ) (now : Bytes)
    → w.writable path ≡ in_full
    → store_stats_set_int_file w path key amount now
      ≡ put w path (stats_text (set_field key amount (read_stats (read_file w path))) now)
unfolding store_stats_set_int_file write_file
store_stats-written w path key amount now h =
    ap
      (λ a.
        (write_as a w path
          (stats_text (set_field key amount (read_stats (read_file w path))) now)).1)
      h

-- the integers with another value for the one of a key
abbrev pub put_field : StatKey → ℤ → Stats → Stats
put_field current_turn_count_key z s = record s { current_turn_count = z }
put_field agent_request_count_key z s = record s { agent_request_count = z }
put_field compact_request_count_key z s = record s { compact_request_count = z }
put_field sub_agent_request_count_key z s = record s { sub_agent_request_count = z }
put_field total_input_tokens_key z s = record s { total_input_tokens = z }
put_field total_output_tokens_key z s = record s { total_output_tokens = z }
put_field total_cache_read_tokens_key z s = record s { total_cache_read_tokens = z }
put_field total_cache_creation_tokens_key z s = record s { total_cache_creation_tokens = z }
put_field current_context_tokens_key z s = record s { current_context_tokens = z }
put_field last_call_speed_tok_per_sec_key z s = record s { last_call_speed_tok_per_sec = z }

set_field-put_field :
    (k : StatKey) (z : ℤ) (s : Stats) → set_field (key_text k) z s ≡ put_field k z s
unfolding set_field
set_field-put_field current_turn_count_key z s = refl
set_field-put_field agent_request_count_key z s = refl
set_field-put_field compact_request_count_key z s = refl
set_field-put_field sub_agent_request_count_key z s = refl
set_field-put_field total_input_tokens_key z s = refl
set_field-put_field total_output_tokens_key z s = refl
set_field-put_field total_cache_read_tokens_key z s = refl
set_field-put_field total_cache_creation_tokens_key z s = refl
set_field-put_field current_context_tokens_key z s = refl
set_field-put_field last_call_speed_tok_per_sec_key z s = refl

-- The integers that a file stands for: a missing or empty file, and one that is no JSON, stand for
-- zeros. A text on which json_parse runs past its end stands for none.
pub data StandsFor : Option Bytes → Stats → Type 0 where
  no_file : StandsFor none no_stats
  empty : {s : Bytes} → (peek s == 0) ≡ true → StandsFor (some s) no_stats
  no_json :
      {s : Bytes} {e : Error}
      → (peek s == 0) ≡ false
      → json_parse_root (some s) ≡ err e
      → StandsFor (some s) no_stats
  parsed :
      {s : Bytes} {v : Val} {r : Bytes}
      → (peek s == 0) ≡ false
      → json_parse_root (some s) ≡ ok v r
      → StandsFor (some s) (stats_of v)

StandsFor-read : {o : Option Bytes} {s : Stats} → StandsFor o s → read_stats o ≡ s
unfolding read_stats
StandsFor-read no_file = refl
StandsFor-read (empty h) = rw h refl
StandsFor-read (no_json h e) = rw (h, e) refl
StandsFor-read (parsed h e) = rw (h, e) refl

stats_text-StandsFor : (s : Stats) (now : Bytes) → AllInts s → StandsFor (some (stats_text s now)) s
stats_text-StandsFor s now ints =
    subst (StandsFor (some (stats_text s now))) (stats_of-printed s now ints)
      (parsed (stats_text-full s now) (json_parse_root-stats s now))

-- Where the file can be written in full, and what it stands for and the new value fit into ints:
-- after store_stats_set_int_file with one of the ten keys, the file stands for the same integers
-- except the one of that key, which is the new value; store_stats_get_file_int gives each of
-- them; and every other file is as it was. Before, the file may be missing, empty, no JSON, or
-- any JSON.
pub store_stats_lem :
    (w : World) (path : Bytes) (key : StatKey) (amount : ℤ) (now : Bytes) (old : Stats)
    → w.writable path ≡ in_full
    → IsText now
    → StandsFor (read_file w path) old
    → AllInts (put_field key amount old)
    → let after = store_stats_set_int_file w path (key_text key) amount now in
      StandsFor (read_file after path) (put_field key amount old)
      × ((k : StatKey)
          → store_stats_get_file_int after path (key_text k) ≡ field k (put_field key amount old))
      × ((p : Bytes) → str_eq p path ≡ false → after.files p ≡ w.files p)
unfolding store_stats_get_file_int
store_stats_lem w path key amount now old writable clock before ints =
    let s = put_field key amount old in
    let same : set_field (key_text key) amount (read_stats (read_file w path)) ≡ s =
      ap (set_field (key_text key) amount) (StandsFor-read before)
      ∙ set_field-put_field key amount old in
    let shown = written w path (stats_text s now) (stats_text-IsText s now clock) in
    rw (store_stats-written w path (key_text key) amount now writable, same)
      (
        rw shown (stats_text-StandsFor s now ints),
        λ k. ap (λ f. stats_int f (key_text k)) shown ∙ stats_int-printed k s now ints,
        λ p other. rw other,
      )
