-- ===== src/Agent/Replay/Calls.antt =====
-- What agent_replay_events shows of the record of a tool call.
use bash_agent.Agent.Events.{display_event, display_msg_to_event}
use bash_agent.Agent.Replay.{replay_call, replay_line, replay_messages, replay_typed}
use bash_agent.Agent.Replay.Recorded.{event_object, event_val, type-IsMember, type_key}
use bash_agent.Agent.Replay.Shown.{
  IsField, IsRecord, event-get, event-typed, or_empty_lem, text_of, with_text,
}
use bash_agent.Agent.Summary.{agent_tool_display_summary}
use bash_agent.Base.{
  All, All-append, Bytes, IsText, List, [], ap, append_assoc, arith, codes, false, refl, some,
  take-append, ◌++◌, ◌==◌, ◌∙◌, ◌∷◌, ◌≡◌,
}
use bash_agent.Json.Printed.{IsElement}
use bash_agent.Json.Printed.Objects.{member_text, more_text, value_view}
use bash_agent.Json.Query.{found, json_as_string, json_get, result}
use bash_agent.Json.Query.Fields.{element_kind, get_field}
use bash_agent.Json.Value.{Val, object, text as view_text}
use bash_agent.Protocol.{DisplayMessage, DisplayType, display_msg_tool_call}
use bash_agent.Store.Conversation.Count.{json_string-IsOneLine}
use bash_agent.Store.Conversation.Lines.{IsOneLine}
use bash_agent.Tools.Files.{split_from}
use bash_agent.Tools.Files.Lines.{split_from-line}
use bash_agent.Transport.Events.{or_else}
use bash_agent.Util.Escape.{escape_byte, escaped, json_string, quote}

-- the members behind the type
abbrev call_members : Bytes → Bytes → Bytes → List (Bytes × Bytes)
call_members id name json =
    (codes "name", json_string (some name))
    ∷ (codes "id", json_string (some id))
    ∷ (codes "input", json)
    ∷ []

call_event :
    (m : DisplayMessage) (json : Bytes)
    → m.tool_input ≡ some json
    → display_event DisplayType.tool_call m
      ≡ some (
          event_object
            (codes "tool_call")
            (call_members (text_of m.tool_id) (text_of m.tool_name) json))
unfolding display_event json_string escaped escape_byte
call_event m json h = rw h (simp (append_assoc, or_empty_lem))

module _ (id name json : Bytes) (hi : IsText id) (hn : IsText name) (hj : IsText json)
    (e : IsElement object json) where
  call-IsRecord : IsRecord (codes "tool_call") (call_members id name json)
  call-IsRecord = with_text (codes "name") name (ground arith) (omega arith) hn (
      with_text (codes "id") id (ground arith) (omega arith) hi (record {
        type_text = omega arith;
        members = ((object, record { plain_key = ground arith; element = e }), tt);
        texts = ((omega arith, hj), tt);
      }))

  -- what json_get finds of the input
  call_input :
      (r : Bytes) × (json_get
          (event_val (codes "tool_call") (call_members id name json))
          (codes "input")
        ≡ found (value_view object json r))
  call_input =
      let (kind, r, el, l) =
        get_field type_key (json_string (some (codes "tool_call"))) (call_members id name json)
          (type-IsMember (codes "tool_call")) call-IsRecord.members (codes "input") json [] refl in
      (r, l ∙ rw (element_kind el e) refl)

  replay_call-object :
      (r : Bytes)
      → replay_call id name (value_view object json r)
        ≡ record (display_msg_tool_call
            (some id)
            (some name)
            (some (agent_tool_display_summary name (value_view object json r) (some json)))) {
              tool_input = some json;
            }
  unfolding replay_call json_as_string
  replay_call-object r = rw (take-append json r) refl

  call-typed :
      (r : Bytes) × (replay_typed
          (codes "tool_call")
          (event_val (codes "tool_call") (call_members id name json))
        ≡ some (replay_call id name (value_view object json r)))
  unfolding replay_typed
  call-typed =
      let (r, l) = call_input in
      let id_read = event-get call-IsRecord (codes "id") id refl hi in
      let name_read = event-get call-IsRecord (codes "name") name refl hn in
      (
        r,
        λ i. some (replay_call (or_else (id_read i) []) (or_else (name_read i) []) (result (l i))),
      )

append-IsOneLine : (a b : Bytes) → IsOneLine a → IsOneLine b → IsOneLine (a ++ b)
append-IsOneLine = All-append (λ c. (c == b'\n') ≡ false)

member_text-IsOneLine : (k v : Bytes) → IsOneLine k → IsOneLine v → IsOneLine (member_text k v)
member_text-IsOneLine k v hk hv =
    (refl, append-IsOneLine k (quote ∷ b':' ∷ v) hk (refl, (refl, hv)))

more_text-IsOneLine :
    (ms : List (Bytes × Bytes))
    → All (λ (k, v). IsOneLine k × IsOneLine v) ms
    → IsOneLine (more_text ms)
more_text-IsOneLine [] h = (refl, tt)
more_text-IsOneLine ((k, v) ∷ ms) ((hk, hv), h) = (
  refl,
  append-IsOneLine (member_text k v) (more_text ms) (member_text-IsOneLine k v hk hv)
      (more_text-IsOneLine ms h),
)

call-IsOneLine :
    (id name json : Bytes)
    → IsOneLine json
    → IsOneLine (event_object (codes "tool_call") (call_members id name json))
call-IsOneLine id name json h =
    let ms = call_members id name json in
    let type = json_string (some (codes "tool_call")) in
    (
      refl,
      append-IsOneLine (member_text type_key type) (more_text ms)
          (member_text-IsOneLine type_key type (ground arith)
            (json_string-IsOneLine (some (codes "tool_call"))))
          (more_text-IsOneLine ms (
            (ground arith, json_string-IsOneLine (some name)),
            ((ground arith, json_string-IsOneLine (some id)), ((ground arith, h), tt)),
          )),
    )

replay_messages-single :
    (line : Bytes) (m : DisplayMessage)
    → replay_line line ≡ some m
    → replay_messages (line ∷ []) ≡ m ∷ []
unfolding replay_messages
replay_messages-single line m h = rw (h, replay_messages) refl

split_from-nil : split_from [] [] ≡ []
unfolding split_from
split_from-nil = refl

-- what is shown of a file of one line
replay_messages-line :
    (line : Bytes) (m : DisplayMessage)
    → IsOneLine line
    → replay_line line ≡ some m
    → replay_messages (split_from [] (line ++ b'\n' ∷ [])) ≡ m ∷ []
replay_messages-line line m no_feed h =
    ap replay_messages (split_from-line [] line [] no_feed ∙ ap (λ ls. line ∷ ls) split_from-nil)
    ∙ replay_messages-single line m h

-- The record of a tool call whose input is a JSON object without a line feed is one line, and the
-- loop of agent_replay_events, on this line, shows one message: with the id, the name and the
-- input of the call, and with the summary that agent_tool_display_summary makes of a view of that
-- input. The id and the name are any C strings.
pub call_lem :
    (m : DisplayMessage) (json : Bytes)
    → m.type ≡ DisplayType.tool_call
    → m.tool_input ≡ some json
    → IsField m.tool_id
    → IsField m.tool_name
    → IsText json
    → IsOneLine json
    → IsElement object json
    → (input : Val) × (line : Bytes) × (view_text input ≡ json)
      × (display_msg_to_event m ≡ some line)
      × IsOneLine line
      × (replay_messages (split_from [] (line ++ b'\n' ∷ []))
          ≡ record (display_msg_tool_call
              (some (text_of m.tool_id))
              (some (text_of m.tool_name))
              (some (agent_tool_display_summary (text_of m.tool_name) input (some json)))) {
                tool_input = some json;
              }
            ∷ [])
unfolding display_msg_to_event
call_lem m json t given hi hn hj no_feed e =
    let id = text_of m.tool_id in
    let name = text_of m.tool_name in
    let (r, l) = call-typed id name json hi hn hj e in
    let line = event_object (codes "tool_call") (call_members id name json) in
    let shown = event-typed (some line) (call-IsRecord id name json hi hn hj e) refl in
    (
      value_view object json r,
      line,
      take-append json r,
      ap (λ k. display_event k m) t ∙ call_event m json given,
      call-IsOneLine id name json no_feed,
      replay_messages-line line _ (call-IsOneLine id name json no_feed)
          (shown ∙ l ∙ ap some (replay_call-object id name json hi hn hj e r)),
    )
