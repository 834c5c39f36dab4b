-- ===== src/Transport/Claude/Deltas.antt =====
-- A text delta as the service sends it, through c/transport.c into the accumulator.
use bash_agent.Base.{
  Bytes, IsText, List, [], ap, append-nil, arith, codes, false, length, pos, refl, some, sym, ℕ,
  ◌++◌, ◌==◌, ◌∙◌, ◌∷◌, ◌≡◌,
}
use bash_agent.Json.Decode.{json_string_val}
use bash_agent.Json.Numbers.{int_text}
use bash_agent.Json.Numbers.Printed.{int_text-IsElement}
use bash_agent.Json.Parse.{json_parse}
use bash_agent.Json.Printed.{IsElement, json_parse-IsPrinted}
use bash_agent.Json.Printed.Objects.{
  AllMembers, IsMember, more_text, object_text, object_text-IsPrinted,
}
use bash_agent.Json.Query.{found, json_get, json_get_string, result}
use bash_agent.Json.Query.Fields.{element_kind, get_field}
use bash_agent.Json.Query.Members.{json_get_first, json_get_second, object_val}
use bash_agent.Json.Quoted.{json_string_val-quoted_val}
use bash_agent.Json.Value.{Val, number, object, ok, string}
use bash_agent.Store.Conversation.Blocks.{block-IsElement}
use bash_agent.Store.Conversation.Records.{string-IsMember}
use bash_agent.Transport.Claude.{claude_events, delta_events, typed_events}
use bash_agent.Transport.Events.{text_delta}
use bash_agent.Util.Escape.{json_string}

-- {"type":…,"text":…}
abbrev pub delta_text : Bytes → Bytes
delta_text s =
    object_text (codes "type") (json_string (some (codes "text_delta")))
      ((codes "text", json_string (some s)) ∷ [])

-- {"type":"content_block_delta","index":…,"delta":…}
abbrev pub delta_data : ℕ → Bytes → Bytes
delta_data index s =
    object_text (codes "type") (json_string (some (codes "content_block_delta")))
      ((codes "index", int_text (pos index)) ∷ (codes "delta", delta_text s) ∷ [])

delta-IsElement : (s : Bytes) → IsElement object (delta_text s)
delta-IsElement s =
    block-IsElement (codes "text_delta") ((codes "text", json_string (some s)) ∷ [])
      ((string, string-IsMember (codes "text") s (ground arith)), tt)

type-IsMember : (type : Bytes) → IsMember string (codes "type") (json_string (some type))
type-IsMember type = string-IsMember (codes "type") type (ground arith)

delta-IsMember : (s : Bytes) → IsMember object (codes "delta") (delta_text s)
delta-IsMember s = record { plain_key = ground arith; element = delta-IsElement s }

index-IsMember : (n : ℕ) → IsMember number (codes "index") (int_text (pos n))
index-IsMember n = record { plain_key = ground arith; element = int_text-IsElement (pos n) }

abbrev members : ℕ → Bytes → List (Bytes × Bytes)
members n s = (codes "index", int_text (pos n)) ∷ (codes "delta", delta_text s) ∷ []

members-AllMembers : (n : ℕ) (s : Bytes) → AllMembers (members n s)
members-AllMembers n s = ((number, index-IsMember n), ((object, delta-IsMember s), tt))

data_val : ℕ → Bytes → Val
data_val n s =
    object_val (codes "type") (json_string (some (codes "content_block_delta"))) (members n s) []

json_parse-delta : (n : ℕ) (s : Bytes) → json_parse (delta_data n s) ≡ ok (data_val n s) []
unfolding data_val
json_parse-delta n s =
    json_parse-IsPrinted object (delta_data n s) (
      object_text-IsPrinted (codes "type") (json_string (some (codes "content_block_delta")))
        (members n s) (string, type-IsMember (codes "content_block_delta"))
        (members-AllMembers n s))
    ∙ ap (λ x. ok (record { kind = object; src = x; len = length (delta_data n s) }) [])
        (sym (append-nil (delta_data n s)))

type-delta :
    (n : ℕ) (s : Bytes)
    → json_get_string (data_val n s) (codes "type") ≡ some (codes "content_block_delta")
unfolding json_get_string data_val
type-delta n s =
    rw
      (json_get_first (type-IsMember (codes "content_block_delta")) (codes "type") (members n s) []
        refl)
      (json_string_val-quoted_val (codes "content_block_delta") (more_text (members n s) ++ [])
        (omega arith))

inner_val : Bytes → Bytes → Val
inner_val s r =
    object_val (codes "type") (json_string (some (codes "text_delta")))
      ((codes "text", json_string (some s)) ∷ []) r

delta-delta :
    (n : ℕ) (s : Bytes)
    → (r : Bytes) × (json_get (data_val n s) (codes "delta") ≡ found (inner_val s r))
unfolding data_val inner_val
delta-delta n s =
    let (kind, r, el, l) =
      get_field (codes "type") (json_string (some (codes "content_block_delta"))) (members n s)
        (string, type-IsMember (codes "content_block_delta")) (members-AllMembers n s)
        (codes "delta") (delta_text s) [] refl in
    (r, l ∙ rw (element_kind el (delta-IsElement s)) refl)

inner-type :
    (s r : Bytes) → json_get_string (inner_val s r) (codes "type") ≡ some (codes "text_delta")
unfolding json_get_string inner_val
inner-type s r =
    let ms : List (Bytes × Bytes) = (codes "text", json_string (some s)) ∷ [] in
    rw (json_get_first (type-IsMember (codes "text_delta")) (codes "type") ms r refl)
      (json_string_val-quoted_val (codes "text_delta") (more_text ms ++ r) (omega arith))

inner-text : (s r : Bytes) → IsText s → json_get_string (inner_val s r) (codes "text") ≡ some s
unfolding json_get_string inner_val
inner-text s r h =
    ap (λ l. json_string_val (result l))
      (json_get_second (type-IsMember (codes "text_delta"))
        (string-IsMember (codes "text") s (ground arith)) (codes "text") [] r refl refl)
    ∙ json_string_val-quoted_val s (more_text [] ++ r) h

delta_events-delta :
    (n : ℕ) (s : Bytes) → IsText s → delta_events (data_val n s) ≡ text_delta (some s) ∷ []
unfolding delta_events
delta_events-delta n s h =
    let (r, l) = delta-delta n s in rw (l, inner-type s r, inner-text s r h) refl

-- A text delta of the Claude protocol, with the index of its block, whose text is quoted as JSON:
-- sse_parse_event passes on one event with that text, whatever C string it is.
pub claude_events-delta :
    (index : ℕ) (s : Bytes) (start_ms now_ms : ℕ)
    → IsText s
    → claude_events (delta_data index s) start_ms now_ms ≡ some (text_delta (some s) ∷ [])
unfolding claude_events typed_events
claude_events-delta index s start_ms now_ms h =
    let whole : (length (delta_data index s) == 0) ≡ false = ground arith in
    rw (whole, json_parse-delta index s, type-delta index s, delta_events-delta index s h) refl
