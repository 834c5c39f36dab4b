-- ===== src/Agent/Replay/Recorded.antt =====
-- What agent_replay_events shows of a record that push_display_event wrote.
use bash_agent.Agent.Replay.{
  cut_line_end, replay_line, replay_parsed, replay_text, replay_type, replay_typed,
}
use bash_agent.Base.{
  Bytes, IsText, List, [], ap, append-nil, append_assoc, arith, c_string_text, codes, false,
  length-append, refl, some, sym, ℕ, ◌++◌, ◌==◌, ◌||◌, ◌∙◌, ◌∷◌, ◌≡◌,
}
use bash_agent.Json.Parse.{json_parse_root}
use bash_agent.Json.Printed.Objects.{AllMembers, IsMember, member_text, more_text, object_text}
use bash_agent.Json.Query.{json_get_string}
use bash_agent.Json.Query.Fields.{get_text, json_parse_root-object}
use bash_agent.Json.Query.Members.{find_text, object_val}
use bash_agent.Json.Value.{Kind, Val, ok, skip_ws, string}
use bash_agent.Store.Conversation.Records.{string-IsMember}
use bash_agent.Util.Escape.{json_string, quote}
use bash_agent.Util.Printable.{IsText-append, json_string-IsText}

abbrev pub type_key : Bytes
type_key = codes "type"

-- a record: its type, and members behind it
abbrev pub event_object : Bytes → List (Bytes × Bytes) → Bytes
event_object type ms = object_text type_key (json_string (some type)) ms

cut_line_end-keep :
    (s : Bytes) (c : ℕ)
    → (c == b'\n' || c == b'\r') ≡ false
    → cut_line_end (s ++ c ∷ []) ≡ s ++ c ∷ []
unfolding cut_line_end
cut_line_end-keep [] c h = rw h refl
cut_line_end-keep (d ∷ s) c h =
    rw (cut_line_end-keep s c h, length-append s (c ∷ [])) (ground arith)

-- an object ends with its brace
more_text-last : (ms : List (Bytes × Bytes)) → (t : Bytes) × (more_text ms ≡ t ++ b'}' ∷ [])
more_text-last [] = ([], refl)
more_text-last ((k, v) ∷ ms) =
    let (t, e) = more_text-last ms in (b',' ∷ (member_text k v ++ t), rw (e, append_assoc) refl)

cut_line_end-object :
    (k v : Bytes) (ms : List (Bytes × Bytes))
    → cut_line_end (object_text k v ms) ≡ object_text k v ms
cut_line_end-object k v ms =
    let (t, e) = more_text-last ms in
    rw (e, ← append_assoc (member_text k v) t (b'}' ∷ []))
      (cut_line_end-keep (b'{' ∷ (member_text k v ++ t)) b'}' refl)

-- members of which each is a C string
abbrev pub AllTexts : List (Bytes × Bytes) → Type 0
AllTexts [] = Unit
AllTexts ((k, v) ∷ ms) = (IsText k × IsText v) × AllTexts ms

member_text-IsText : (k v : Bytes) → IsText k → IsText v → IsText (member_text k v)
member_text-IsText k v hk hv =
    (omega arith, IsText-append k (quote ∷ b':' ∷ v) hk (omega arith, (omega arith, hv)))

more_text-IsText : (ms : List (Bytes × Bytes)) → AllTexts ms → IsText (more_text ms)
more_text-IsText [] h = omega arith
more_text-IsText ((k, v) ∷ ms) ((hk, hv), h) = (
  omega arith,
  IsText-append (member_text k v) (more_text ms) (member_text-IsText k v hk hv)
      (more_text-IsText ms h),
)

event_object-IsText :
    (type : Bytes) (ms : List (Bytes × Bytes))
    → IsText type
    → AllTexts ms
    → IsText (event_object type ms)
event_object-IsText type ms ht h = (
  omega arith,
  IsText-append (member_text type_key (json_string (some type))) (more_text ms)
      (member_text-IsText type_key (json_string (some type)) (omega arith)
        (json_string-IsText type ht))
      (more_text-IsText ms h),
)

abbrev pub event_val : Bytes → List (Bytes × Bytes) → Val
event_val type ms = object_val type_key (json_string (some type)) ms []

pub type-IsMember :
    (type : Bytes) → (kind : Kind) × IsMember kind type_key (json_string (some type))
type-IsMember type = (string, string-IsMember type_key type (ground arith))

module _ (type : Bytes) (ms : List (Bytes × Bytes)) (ht : IsText type) (hm : AllMembers ms)
    (h : AllTexts ms) where
  event_parsed : json_parse_root (some (event_object type ms)) ≡ ok (event_val type ms) []
  unfolding skip_ws
  event_parsed =
      ap (λ t. json_parse_root (some t)) (sym (append-nil (event_object type ms)))
      ∙ json_parse_root-object type_key (json_string (some type)) ms (type-IsMember type) hm [] refl

  pub event_text :
      (key s : Bytes)
      → find_text key ((type_key, json_string (some type)) ∷ ms) ≡ some (json_string (some s))
      → IsText s
      → json_get_string (event_val type ms) key ≡ some s
  event_text key s e hs =
      get_text type_key (json_string (some type)) ms (type-IsMember type) hm key s [] e hs

  replay_text-event : replay_text (event_object type ms) ≡ replay_typed type (event_val type ms)
  unfolding replay_text
  replay_text-event =
      ap replay_parsed event_parsed
      ∙ ap (λ t. replay_type t (event_val type ms)) (event_text type_key type refl ht)

  -- The loop reads the record, and goes by its type.
  pub replay_line-event : replay_line (event_object type ms) ≡ replay_typed type (event_val type ms)
  unfolding replay_line
  replay_line-event =
      ap (λ t. replay_text (cut_line_end t))
        (c_string_text (event_object type ms) (event_object-IsText type ms ht h))
      ∙ ap replay_text (cut_line_end-object type_key (json_string (some type)) ms)
      ∙ replay_text-event
