-- ===== src/Agent/Replay/Counted.antt =====
-- What agent_replay_events shows of the records with several members.
use bash_agent.Agent.Events.{display_event, status_of}
use bash_agent.Agent.Replay.{replay_typed}
use bash_agent.Agent.Replay.Recorded.{event_object, event_val, type-IsMember, type_key}
use bash_agent.Agent.Replay.Shown.{
  IsPrintable, IsRecord, event-get, event-typed, no_members, or_empty_lem, replay_event, replayed,
  text_of, with_int, with_text,
}
use bash_agent.Base.{
  Bytes, IsText, List, [], append_assoc, arith, codes, negsuc, pos, refl, some, suc, zero, ℤ, ◌∙◌,
  ◌∷◌, ◌≡◌,
}
use bash_agent.Json.Numbers.{int_text, json_get_int}
use bash_agent.Json.Numbers.Printed.{IsInt}
use bash_agent.Json.Query.Fields.{get_int}
use bash_agent.Json.Query.Members.{find_text}
use bash_agent.Protocol.{DisplayMessage, DisplayType}
use bash_agent.Util.Escape.{escape_byte, escaped, json_string}

-- the members behind the type
abbrev tool_result_members : DisplayMessage → List (Bytes × Bytes)
tool_result_members m =
    (codes "tool_use_id", json_string (some (text_of m.tool_id)))
    ∷ (codes "name", json_string (some (text_of m.tool_name)))
    ∷ (codes "content", json_string (some (text_of m.content)))
    ∷ []

tool_result_event :
    (m : DisplayMessage)
    → display_event DisplayType.tool_result m
      ≡ some (event_object (codes "tool_result") (tool_result_members m))
unfolding display_event json_string escaped escape_byte
tool_result_event m = simp (append_assoc, or_empty_lem)

tool_result-IsRecord :
    (m : DisplayMessage) → IsPrintable m → IsRecord (codes "tool_result") (tool_result_members m)
tool_result-IsRecord m p =
    with_text (codes "tool_use_id") (text_of m.tool_id) (ground arith) (omega arith) (p.id_text) (
      with_text (codes "name") (text_of m.tool_name) (ground arith) (omega arith) (p.name_text) (
        with_text (codes "content") (text_of m.content) (ground arith) (omega arith)
          (p.content_text) (no_members (codes "tool_result") (omega arith))))

pub tool_result-replayed :
    (m : DisplayMessage)
    → IsPrintable m
    → replay_event (display_event DisplayType.tool_result m) ≡ replayed DisplayType.tool_result m
unfolding replay_typed
tool_result-replayed m p =
    event-typed _ (tool_result-IsRecord m p) (tool_result_event m)
    ∙ rw
        (
          event-get (tool_result-IsRecord m p) (codes "tool_use_id") (text_of m.tool_id) refl
              (p.id_text),
          event-get (tool_result-IsRecord m p) (codes "name") (text_of m.tool_name) refl
              (p.name_text),
          event-get (tool_result-IsRecord m p) (codes "content") (text_of m.content) refl
              (p.content_text),
        )
        refl

-- the members behind the type
abbrev usage_members : DisplayMessage → List (Bytes × Bytes)
usage_members m =
    (codes "input_tokens", int_text m.in_tokens)
    ∷ (codes "output_tokens", int_text m.out_tokens)
    ∷ (codes "cache_read_input_tokens", int_text m.cache_read_tokens)
    ∷ (codes "cache_creation_input_tokens", int_text m.cache_creation_tokens)
    ∷ (codes "kind", json_string (some (codes "agent")))
    ∷ []

usage_event :
    (m : DisplayMessage)
    → display_event DisplayType.usage m ≡ some (event_object (codes "usage") (usage_members m))
unfolding display_event json_string escaped escape_byte
usage_event m = simp append_assoc

usage-IsRecord : (m : DisplayMessage) → IsPrintable m → IsRecord (codes "usage") (usage_members m)
usage-IsRecord m p = with_int (codes "input_tokens") m.in_tokens (ground arith) (omega arith) (
    with_int (codes "output_tokens") m.out_tokens (ground arith) (omega arith) (
      with_int (codes "cache_read_input_tokens") m.cache_read_tokens (ground arith) (omega arith) (
        with_int (codes "cache_creation_input_tokens") m.cache_creation_tokens (ground arith)
          (omega arith)
          (with_text (codes "kind") (codes "agent") (ground arith) (omega arith) (omega arith)
            (no_members (codes "usage") (omega arith))))))

pub usage-replayed :
    (m : DisplayMessage)
    → IsPrintable m
    → replay_event (display_event DisplayType.usage m) ≡ replayed DisplayType.usage m
unfolding replay_typed
usage-replayed m p = event-typed _ (usage-IsRecord m p) (usage_event m)

-- the members behind the type
abbrev async_task_result_members : DisplayMessage → List (Bytes × Bytes)
async_task_result_members m =
    (codes "task_id", json_string (some (text_of m.session_id)))
    ∷ (codes "exit_code", int_text m.tool_exit_code)
    ∷ (codes "output", json_string (some (text_of m.content)))
    ∷ []

async_task_result_event :
    (m : DisplayMessage)
    → display_event DisplayType.async_task_result m
      ≡ some (event_object (codes "async_task_result") (async_task_result_members m))
unfolding display_event json_string escaped escape_byte
async_task_result_event m = simp (append_assoc, or_empty_lem)

async_task_result-IsRecord :
    (m : DisplayMessage)
    → IsPrintable m
    → IsRecord (codes "async_task_result") (async_task_result_members m)
async_task_result-IsRecord m p =
    with_text (codes "task_id") (text_of m.session_id) (ground arith) (omega arith) (p.session_text)
      (with_int (codes "exit_code") m.tool_exit_code (ground arith) (omega arith) (
        with_text (codes "output") (text_of m.content) (ground arith) (omega arith) (p.content_text)
          (no_members (codes "async_task_result") (omega arith))))

pub async_task_result-replayed :
    (m : DisplayMessage)
    → IsPrintable m
    → replay_event (display_event DisplayType.async_task_result m)
      ≡ replayed DisplayType.async_task_result m
unfolding replay_typed
async_task_result-replayed m p =
    event-typed _ (async_task_result-IsRecord m p) (async_task_result_event m)

status-IsText : (z : ℤ) → IsText (status_of z)
status-IsText (pos zero) = omega arith
status-IsText (pos (suc n)) = omega arith
status-IsText (negsuc n) = omega arith

event-int :
    {type : Bytes} {ms : List (Bytes × Bytes)} (r : IsRecord type ms) (key : Bytes) (z : ℤ)
    → find_text key ((type_key, json_string (some type)) ∷ ms) ≡ some (int_text z)
    → IsInt z
    → json_get_int (event_val type ms) key ≡ z
event-int {type} {ms} r key z e h =
    get_int type_key (json_string (some type)) ms (type-IsMember type) r.members key z [] e h

-- the members behind the type
abbrev sub_agent_result_members : DisplayMessage → List (Bytes × Bytes)
sub_agent_result_members m =
    (codes "session_id", json_string (some (text_of m.session_id)))
    ∷ (codes "status", json_string (some (status_of m.tool_exit_code)))
    ∷ (codes "input_tokens", int_text m.in_tokens)
    ∷ (codes "output_tokens", int_text m.out_tokens)
    ∷ (codes "thinking", json_string (some (text_of m.tool_name)))
    ∷ (codes "text", json_string (some (text_of m.content)))
    ∷ []

sub_agent_result_event :
    (m : DisplayMessage)
    → display_event DisplayType.sub_agent_result m
      ≡ some (event_object (codes "sub_agent_result") (sub_agent_result_members m))
unfolding display_event json_string escaped escape_byte
sub_agent_result_event m = simp (append_assoc, or_empty_lem)

sub_agent_result-IsRecord :
    (m : DisplayMessage)
    → IsPrintable m
    → IsRecord (codes "sub_agent_result") (sub_agent_result_members m)
sub_agent_result-IsRecord m p =
    with_text (codes "session_id") (text_of m.session_id) (ground arith) (omega arith)
      (p.session_text)
      (with_text (codes "status") (status_of m.tool_exit_code) (ground arith) (omega arith)
        (status-IsText m.tool_exit_code)
        (with_int (codes "input_tokens") m.in_tokens (ground arith) (omega arith) (
          with_int (codes "output_tokens") m.out_tokens (ground arith) (omega arith) (
            with_text (codes "thinking") (text_of m.tool_name) (ground arith) (omega arith)
              (p.name_text)
              (with_text (codes "text") (text_of m.content) (ground arith) (omega arith)
                (p.content_text) (no_members (codes "sub_agent_result") (omega arith)))))))

pub sub_agent_result-replayed :
    (m : DisplayMessage)
    → IsPrintable m
    → replay_event (display_event DisplayType.sub_agent_result m)
      ≡ replayed DisplayType.sub_agent_result m
unfolding replay_typed
sub_agent_result-replayed m p =
    event-typed _ (sub_agent_result-IsRecord m p) (sub_agent_result_event m)
    ∙ rw
        (
          event-get (sub_agent_result-IsRecord m p) (codes "session_id") (text_of m.session_id) refl
              (p.session_text),
          event-get (sub_agent_result-IsRecord m p) (codes "status") (status_of m.tool_exit_code)
              refl (status-IsText m.tool_exit_code),
          event-get (sub_agent_result-IsRecord m p) (codes "thinking") (text_of m.tool_name) refl
              (p.name_text),
          event-get (sub_agent_result-IsRecord m p) (codes "text") (text_of m.content) refl
              (p.content_text),
          event-int (sub_agent_result-IsRecord m p) (codes "input_tokens") m.in_tokens refl
              p.in_int,
          event-int (sub_agent_result-IsRecord m p) (codes "output_tokens") m.out_tokens refl
              p.out_int,
        )
        refl
