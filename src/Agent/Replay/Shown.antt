-- ===== src/Agent/Replay/Shown.antt =====
-- What agent_replay_events shows of each record that display_msg_to_event writes.
use bash_agent.Agent.Events.{display_event, status_of}
use bash_agent.Agent.Replay.{replay_line, replay_typed, unless_blank}
use bash_agent.Agent.Replay.Recorded.{
  AllTexts, event_object, event_text, event_val, replay_line-event, type_key,
}
use bash_agent.Base.{
  Bytes, IsText, List, Option, [], ap, append_assoc, arith, codes, none, pos, refl, some, take, ℤ,
  ◌∙◌, ◌∷◌, ◌≡◌,
}
use bash_agent.Json.Numbers.{int_text}
use bash_agent.Json.Numbers.Printed.{IsInt, int_text-IsElement, int_text-IsText}
use bash_agent.Json.Printed.Objects.{AllMembers, IsKey}
use bash_agent.Json.Query.{json_get_string}
use bash_agent.Json.Query.Members.{find_text}
use bash_agent.Json.Value.{number, string}
use bash_agent.Protocol.{
  DisplayMessage, DisplayType, display_msg_error, display_msg_sub_agent_result, display_msg_text,
  display_msg_thinking, display_msg_tool_result,
}
use bash_agent.Store.Conversation.{or_empty}
use bash_agent.Store.Conversation.Records.{string-IsMember}
use bash_agent.Transport.Events.{or_else}
use bash_agent.Util.Escape.{escape_byte, escaped, json_string}
use bash_agent.Util.Printable.{json_string-IsText}
use bash_agent.Util.Utf8.{truncate_len, truncate_str}

-- the text of a field, where NULL is printed as ""
abbrev pub text_of : Option Bytes → Bytes
text_of s = or_else s []

-- a field that is a C string
abbrev pub IsField : Option Bytes → Type 0
IsField s = IsText (text_of s)

-- what the printed fields of a message hold
pub record IsPrintable (m : DisplayMessage) : Type 0 where
  pub content_text : IsField m.content
  pub name_text : IsField m.tool_name
  pub id_text : IsField m.tool_id
  pub session_text : IsField m.session_id
  pub exit_int : IsInt m.tool_exit_code
  pub in_int : IsInt m.in_tokens
  pub out_int : IsInt m.out_tokens
  pub read_int : IsInt m.cache_read_tokens
  pub creation_int : IsInt m.cache_creation_tokens

-- what is shown of the record of a message that is no tool call
abbrev pub replayed : DisplayType → DisplayMessage → Option DisplayMessage
replayed DisplayType.text m =
    unless_blank (some (text_of m.content)) (λ s. display_msg_text (some s))
replayed DisplayType.thinking m =
    unless_blank (some (text_of m.content)) (λ s. display_msg_thinking (some s))
replayed DisplayType.tool_result m =
    some (record (display_msg_tool_result (some (truncate_str (text_of m.content) 200)) (pos 0)) {
      tool_id = some (text_of m.tool_id);
      tool_name = some (text_of m.tool_name);
    })
replayed DisplayType.sub_agent_result m = some (
    display_msg_sub_agent_result (some (text_of m.session_id)) (status_of m.tool_exit_code)
      (some (take (truncate_len (text_of m.tool_name) 120) (text_of m.tool_name)))
      (some (truncate_str (text_of m.content) 200)) m.in_tokens m.out_tokens)
replayed DisplayType.failure m = some (display_msg_error (some (text_of m.content)))
replayed _ m = none

abbrev pub replay_event : Option Bytes → Option DisplayMessage
replay_event none = none
replay_event (some line) = replay_line line

pub or_empty_lem : (s : Option Bytes) → or_empty s ≡ some (text_of s)
or_empty_lem none = refl
or_empty_lem (some s) = refl

-- a record that the loop reads
pub record IsRecord (type : Bytes) (ms : List (Bytes × Bytes)) : Type 0 where
  pub type_text : IsText type
  pub members : AllMembers ms
  pub texts : AllTexts ms

-- a record is shown by its type
pub event-typed :
    (e : Option Bytes) {type : Bytes} {ms : List (Bytes × Bytes)}
    → IsRecord type ms
    → e ≡ some (event_object type ms)
    → replay_event e ≡ replay_typed type (event_val type ms)
event-typed e {type} {ms} r h =
    ap replay_event h ∙ replay_line-event type ms r.type_text r.members r.texts

pub event-get :
    {type : Bytes} {ms : List (Bytes × Bytes)} (r : IsRecord type ms) (key s : Bytes)
    → find_text key ((type_key, json_string (some type)) ∷ ms) ≡ some (json_string (some s))
    → IsText s
    → json_get_string (event_val type ms) key ≡ some s
event-get {type} {ms} r key s e h = event_text type ms r.type_text r.members r.texts key s e h

-- one more text, and one more integer, in front of the other members
pub with_text :
    {type : Bytes} {ms : List (Bytes × Bytes)} (key s : Bytes)
    → IsKey key
    → IsText key
    → IsText s
    → IsRecord type ms
    → IsRecord type ((key, json_string (some s)) ∷ ms)
with_text key s hk ht hs r = record {
  type_text = r.type_text;
  members = ((string, string-IsMember key s hk), r.members);
  texts = ((ht, json_string-IsText s hs), r.texts);
}

pub with_int :
    {type : Bytes} {ms : List (Bytes × Bytes)} (key : Bytes) (z : ℤ)
    → IsKey key
    → IsText key
    → IsRecord type ms
    → IsRecord type ((key, int_text z) ∷ ms)
with_int key z hk ht r = record {
  type_text = r.type_text;
  members = ((number, record { plain_key = hk; element = int_text-IsElement z }), r.members);
  texts = ((ht, int_text-IsText z), r.texts);
}

pub no_members : (type : Bytes) → IsText type → IsRecord type []
no_members type h = record { type_text = h; members = tt; texts = tt }

text_event :
    (m : DisplayMessage)
    → display_event DisplayType.text m
      ≡ some (
          event_object
            (codes "text")
            ((codes "content", json_string (some (text_of m.content))) ∷ []))
unfolding display_event json_string escaped escape_byte
text_event m = simp (append_assoc, or_empty_lem)

text-IsRecord :
    (m : DisplayMessage)
    → IsPrintable m
    → IsRecord (codes "text") ((codes "content", json_string (some (text_of m.content))) ∷ [])
text-IsRecord m p =
    with_text (codes "content") (text_of m.content) (ground arith) (omega arith) p.content_text
      (no_members (codes "text") (omega arith))

pub text-replayed :
    (m : DisplayMessage)
    → IsPrintable m
    → replay_event (display_event DisplayType.text m) ≡ replayed DisplayType.text m
unfolding replay_typed
text-replayed m p =
    event-typed _ (text-IsRecord m p) (text_event m)
    ∙ ap (λ c. unless_blank c (λ s. display_msg_text (some s)))
        (event-get (text-IsRecord m p) (codes "content") (text_of m.content) refl p.content_text)

thinking_event :
    (m : DisplayMessage)
    → display_event DisplayType.thinking m
      ≡ some (
          event_object
            (codes "thinking")
            ((codes "content", json_string (some (text_of m.content))) ∷ []))
unfolding display_event json_string escaped escape_byte
thinking_event m = simp (append_assoc, or_empty_lem)

thinking-IsRecord :
    (m : DisplayMessage)
    → IsPrintable m
    → IsRecord (codes "thinking") ((codes "content", json_string (some (text_of m.content))) ∷ [])
thinking-IsRecord m p =
    with_text (codes "content") (text_of m.content) (ground arith) (omega arith) p.content_text
      (no_members (codes "thinking") (omega arith))

pub thinking-replayed :
    (m : DisplayMessage)
    → IsPrintable m
    → replay_event (display_event DisplayType.thinking m) ≡ replayed DisplayType.thinking m
unfolding replay_typed
thinking-replayed m p =
    event-typed _ (thinking-IsRecord m p) (thinking_event m)
    ∙ ap (λ c. unless_blank c (λ s. display_msg_thinking (some s)))
        (event-get (thinking-IsRecord m p) (codes "content") (text_of m.content) refl
          p.content_text)

failure_event :
    (m : DisplayMessage)
    → display_event DisplayType.failure m
      ≡ some (
          event_object
            (codes "error")
            ((codes "message", json_string (some (text_of m.content))) ∷ []))
unfolding display_event json_string escaped escape_byte
failure_event m = simp (append_assoc, or_empty_lem)

failure-IsRecord :
    (m : DisplayMessage)
    → IsPrintable m
    → IsRecord (codes "error") ((codes "message", json_string (some (text_of m.content))) ∷ [])
failure-IsRecord m p =
    with_text (codes "message") (text_of m.content) (ground arith) (omega arith) p.content_text
      (no_members (codes "error") (omega arith))

pub failure-replayed :
    (m : DisplayMessage)
    → IsPrintable m
    → replay_event (display_event DisplayType.failure m) ≡ replayed DisplayType.failure m
unfolding replay_typed
failure-replayed m p =
    event-typed _ (failure-IsRecord m p) (failure_event m)
    ∙ ap (λ c. some (display_msg_error (some (or_else c (codes "unknown")))))
        (event-get (failure-IsRecord m p) (codes "message") (text_of m.content) refl p.content_text)

stop_event :
    (m : DisplayMessage)
    → display_event DisplayType.stop m
      ≡ some (
          event_object
            (codes "stop")
            ((codes "reason", json_string (some (text_of m.content))) ∷ []))
unfolding display_event json_string escaped escape_byte
stop_event m = simp (append_assoc, or_empty_lem)

stop-IsRecord :
    (m : DisplayMessage)
    → IsPrintable m
    → IsRecord (codes "stop") ((codes "reason", json_string (some (text_of m.content))) ∷ [])
stop-IsRecord m p =
    with_text (codes "reason") (text_of m.content) (ground arith) (omega arith) p.content_text
      (no_members (codes "stop") (omega arith))

pub stop-replayed :
    (m : DisplayMessage)
    → IsPrintable m
    → replay_event (display_event DisplayType.stop m) ≡ replayed DisplayType.stop m
unfolding replay_typed
stop-replayed m p = event-typed _ (stop-IsRecord m p) (stop_event m)

sub_agent_start_event :
    (m : DisplayMessage)
    → display_event DisplayType.sub_agent_start m
      ≡ some (
          event_object
            (codes "sub_agent_start")
            ((codes "session_id", json_string (some (text_of m.session_id))) ∷ []))
unfolding display_event json_string escaped escape_byte
sub_agent_start_event m = simp (append_assoc, or_empty_lem)

sub_agent_start-IsRecord :
    (m : DisplayMessage)
    → IsPrintable m
    → IsRecord
        (codes "sub_agent_start")
        ((codes "session_id", json_string (some (text_of m.session_id))) ∷ [])
sub_agent_start-IsRecord m p =
    with_text (codes "session_id") (text_of m.session_id) (ground arith) (omega arith)
      p.session_text (no_members (codes "sub_agent_start") (omega arith))

pub sub_agent_start-replayed :
    (m : DisplayMessage)
    → IsPrintable m
    → replay_event (display_event DisplayType.sub_agent_start m)
      ≡ replayed DisplayType.sub_agent_start m
unfolding replay_typed
sub_agent_start-replayed m p =
    event-typed _ (sub_agent_start-IsRecord m p) (sub_agent_start_event m)
