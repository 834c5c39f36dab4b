-- ===== src/Store/Stats/Kept.antt =====
-- stats.json: what store_stats_set_int_file writes is what is read back.
use bash_agent.Base.{
  Bytes, List, [], ap, append_assoc, arith, codes, refl, some, ℤ, ◌++◌, ◌∙◌, ◌∷◌, ◌≡◌,
}
use bash_agent.Json.Numbers.{int_text, json_get_int}
use bash_agent.Json.Numbers.Printed.{IsInt, int_text-IsElement}
use bash_agent.Json.Parse.{json_parse_root}
use bash_agent.Json.Printed.Objects.{AllMembers, IsKey, IsMember, object_text}
use bash_agent.Json.Query.Fields.{get_int, json_parse_root-object}
use bash_agent.Json.Query.Members.{find_text, object_val}
use bash_agent.Json.Value.{Kind, Val, number, ok, skip_ws, string}
use bash_agent.Store.Conversation.Records.{string-IsMember}
use bash_agent.Store.Stats.{Stats, stats_of, stats_text}
use bash_agent.Util.Escape.{json_string}

-- the members behind the first
abbrev pub members_of : Stats → Bytes → List (Bytes × Bytes)
members_of s updated =
    (codes "agent_request_count", int_text s.agent_request_count)
    ∷ (codes "compact_request_count", int_text s.compact_request_count)
    ∷ (codes "sub_agent_request_count", int_text s.sub_agent_request_count)
    ∷ (codes "total_input_tokens", int_text s.total_input_tokens)
    ∷ (codes "total_output_tokens", int_text s.total_output_tokens)
    ∷ (codes "total_cache_read_tokens", int_text s.total_cache_read_tokens)
    ∷ (codes "total_cache_creation_tokens", int_text s.total_cache_creation_tokens)
    ∷ (codes "current_context_tokens", int_text s.current_context_tokens)
    ∷ (codes "last_call_speed_tok_per_sec", int_text s.last_call_speed_tok_per_sec)
    ∷ (codes "last_updated", json_string (some updated))
    ∷ []

abbrev pub stats_object : Stats → Bytes → Bytes
stats_object s updated =
    object_text (codes "current_turn_count") (int_text s.current_turn_count) (members_of s updated)

stats_text-object : (s : Stats) (now : Bytes) → stats_text s now ≡ stats_object s now ++ codes "\n"
unfolding stats_text json_string
stats_text-object s now = simp append_assoc

int-IsMember : (k : Bytes) (z : ℤ) → IsKey k → (kind : Kind) × IsMember kind k (int_text z)
int-IsMember k z h = (number, record { plain_key = h; element = int_text-IsElement z })

text-IsMember : (k t : Bytes) → IsKey k → (kind : Kind) × IsMember kind k (json_string (some t))
text-IsMember k t h = (string, string-IsMember k t h)

-- each integer is one that `int` holds
pub record AllInts (s : Stats) : Type 0 where
  pub current_turn_count-IsInt : IsInt s.current_turn_count
  pub agent_request_count-IsInt : IsInt s.agent_request_count
  pub compact_request_count-IsInt : IsInt s.compact_request_count
  pub sub_agent_request_count-IsInt : IsInt s.sub_agent_request_count
  pub total_input_tokens-IsInt : IsInt s.total_input_tokens
  pub total_output_tokens-IsInt : IsInt s.total_output_tokens
  pub total_cache_read_tokens-IsInt : IsInt s.total_cache_read_tokens
  pub total_cache_creation_tokens-IsInt : IsInt s.total_cache_creation_tokens
  pub current_context_tokens-IsInt : IsInt s.current_context_tokens
  pub last_call_speed_tok_per_sec-IsInt : IsInt s.last_call_speed_tok_per_sec

members-AllMembers : (s : Stats) (now : Bytes) → AllMembers (members_of s now)
members-AllMembers s now = (
  int-IsMember (codes "agent_request_count") s.agent_request_count (ground arith),
  (
    int-IsMember (codes "compact_request_count") s.compact_request_count (ground arith),
    (
      int-IsMember (codes "sub_agent_request_count") s.sub_agent_request_count (ground arith),
      (
        int-IsMember (codes "total_input_tokens") s.total_input_tokens (ground arith),
        (
          int-IsMember (codes "total_output_tokens") s.total_output_tokens (ground arith),
          (
            int-IsMember (codes "total_cache_read_tokens") s.total_cache_read_tokens (ground arith),
            (
              int-IsMember (codes "total_cache_creation_tokens") s.total_cache_creation_tokens
                  (ground arith),
              (
                int-IsMember (codes "current_context_tokens") s.current_context_tokens
                    (ground arith),
                (
                  int-IsMember (codes "last_call_speed_tok_per_sec") s.last_call_speed_tok_per_sec
                      (ground arith),
                  (text-IsMember (codes "last_updated") now (ground arith), tt),
                ),
              ),
            ),
          ),
        ),
      ),
    ),
  ),
)

first-IsMember :
    (s : Stats)
    → (kind : Kind) × IsMember kind (codes "current_turn_count") (int_text s.current_turn_count)
first-IsMember s = int-IsMember (codes "current_turn_count") s.current_turn_count (ground arith)

-- the view of the file
abbrev pub stats_val : Stats → Bytes → Val
stats_val s now =
    object_val (codes "current_turn_count") (int_text s.current_turn_count) (members_of s now)
      (codes "\n")

pub json_parse_root-stats :
    (s : Stats) (now : Bytes)
    → json_parse_root (some (stats_text s now)) ≡ ok (stats_val s now) (codes "\n")
unfolding skip_ws
json_parse_root-stats s now =
    ap (λ t. json_parse_root (some t)) (stats_text-object s now)
    ∙ json_parse_root-object (codes "current_turn_count") (int_text s.current_turn_count)
        (members_of s now) (first-IsMember s) (members-AllMembers s now) (codes "\n") refl

module _ (s : Stats) (now : Bytes) (ints : AllInts s) where
  pub field_lem :
      (key : Bytes) (z : ℤ)
      → find_text key
          ((codes "current_turn_count", int_text s.current_turn_count) ∷ members_of s now)
        ≡ some (int_text z)
      → IsInt z
      → json_get_int (stats_val s now) key ≡ z
  field_lem key z e h =
      get_int (codes "current_turn_count") (int_text s.current_turn_count) (members_of s now)
        (first-IsMember s) (members-AllMembers s now) key z (codes "\n") e h

  pub stats_of-printed : stats_of (stats_val s now) ≡ s
  stats_of-printed i = record {
    current_turn_count =
        field_lem (codes "current_turn_count") s.current_turn_count refl
          ints.current_turn_count-IsInt i;
    agent_request_count =
        field_lem (codes "agent_request_count") s.agent_request_count refl
          ints.agent_request_count-IsInt i;
    compact_request_count =
        field_lem (codes "compact_request_count") s.compact_request_count refl
          ints.compact_request_count-IsInt i;
    sub_agent_request_count =
        field_lem (codes "sub_agent_request_count") s.sub_agent_request_count refl
          ints.sub_agent_request_count-IsInt i;
    total_input_tokens =
        field_lem (codes "total_input_tokens") s.total_input_tokens refl
          ints.total_input_tokens-IsInt i;
    total_output_tokens =
        field_lem (codes "total_output_tokens") s.total_output_tokens refl
          ints.total_output_tokens-IsInt i;
    total_cache_read_tokens =
        field_lem (codes "total_cache_read_tokens") s.total_cache_read_tokens refl
          ints.total_cache_read_tokens-IsInt i;
    total_cache_creation_tokens =
        field_lem (codes "total_cache_creation_tokens") s.total_cache_creation_tokens refl
          ints.total_cache_creation_tokens-IsInt i;
    current_context_tokens =
        field_lem (codes "current_context_tokens") s.current_context_tokens refl
          ints.current_context_tokens-IsInt i;
    last_call_speed_tok_per_sec =
        field_lem (codes "last_call_speed_tok_per_sec") s.last_call_speed_tok_per_sec refl
          ints.last_call_speed_tok_per_sec-IsInt i;
  }
