-- ===== src/Store/Conversation/Records.antt =====
-- The records that the store_conv_add functions print, read back by json.c.
use bash_agent.Base.{
  Bytes, IsText, List, [], ap, append-nil, arith, codes, length, refl, some, str_eq, sym, true,
  ◌&&◌, ◌++◌, ◌∙◌, ◌∷◌, ◌≡◌,
}
use bash_agent.Json.Decode.{json_string_val}
use bash_agent.Json.Parse.{json_parse_root, parsed_and}
use bash_agent.Json.Printed.{IsElement, json_parse_root-IsPrinted, json_string-IsElement}
use bash_agent.Json.Printed.Objects.{
  IsKey, IsMember, more_text, object_text, object_text-IsPrinted, value_view,
}
use bash_agent.Json.Query.{found, json_get, json_get_string, result}
use bash_agent.Json.Query.Members.{json_get_first, json_get_second, object_val}
use bash_agent.Json.Quoted.{json_string_val-quoted_val}
use bash_agent.Json.Value.{Kind, Val, is_string, object, ok, string}
use bash_agent.Store.Conversation.{is_user_turn, is_user_val, user_record}
use bash_agent.Util.Escape.{escape_byte, escaped, json_string}

abbrev pub role_key : Bytes
role_key = codes "role"

abbrev pub content_key : Bytes
content_key = codes "content"

role-IsKey : IsKey role_key
role-IsKey = ground arith

content-IsKey : IsKey content_key
content-IsKey = ground arith

-- a member whose value is a quoted text
pub string-IsMember : (k s : Bytes) → IsKey k → IsMember string k (json_string (some s))
string-IsMember k s h = record { plain_key = h; element = json_string-IsElement s }

-- {"role":…,"content":…}
abbrev pub record_text : Bytes → Bytes → Bytes
record_text role content =
    object_text role_key (json_string (some role)) ((content_key, content) ∷ [])

user_record-text :
    (content : Bytes)
    → user_record (some content) ≡ record_text (codes "user") (json_string (some content))
unfolding user_record json_string escaped escape_byte
user_record-text content = refl

module _ {kind : Kind} (role content : Bytes) (e : IsElement kind content) where
  role-IsMember : IsMember string role_key (json_string (some role))
  role-IsMember = string-IsMember role_key role role-IsKey

  content-IsMember : IsMember kind content_key content
  content-IsMember = record { plain_key = content-IsKey; element = e }

  -- the view of the record that json_parse_root returns
  abbrev pub record_val : Val
  record_val = object_val role_key (json_string (some role)) ((content_key, content) ∷ []) []

  pub json_parse_root-record : json_parse_root (some (record_text role content)) ≡ ok record_val []
  json_parse_root-record =
      json_parse_root-IsPrinted object (record_text role content) (
        object_text-IsPrinted role_key (json_string (some role)) ((content_key, content) ∷ [])
          (string, role-IsMember) ((kind, content-IsMember), tt))
      ∙ ap (λ x. ok (record { kind = object; src = x; len = length (record_text role content) }) [])
          (sym (append-nil (record_text role content)))

  pub get_role : IsText role → json_get_string record_val role_key ≡ some role
  unfolding json_get_string
  get_role h =
      let ms : List (Bytes × Bytes) = (content_key, content) ∷ [] in
      rw (json_get_first role-IsMember role_key ms [] refl)
        (json_string_val-quoted_val role (more_text ms ++ []) h)

  pub get_content :
      json_get record_val content_key ≡ found (value_view kind content (more_text [] ++ []))
  get_content = json_get_second role-IsMember content-IsMember content_key [] [] refl refl

  pub is_user_turn-record :
      IsText role
      → is_user_turn (record_text role content) ≡ (str_eq role (codes "user") && is_string kind)
  unfolding is_user_turn
  is_user_turn-record h =
      ap (λ p. parsed_and p is_user_val) json_parse_root-record ∙ rw (get_role h, get_content)

pub user-IsText : IsText (codes "user")
user-IsText = omega arith

-- The record of a user message: json_parse_root accepts it, json_get_string gives back the role
-- and the message, whatever bytes the message holds, and store_conv_user_turn_count counts it.
pub user_record_lem :
    (message : Bytes)
    → IsText message
    → (v : Val) × (json_parse_root (some (user_record (some message))) ≡ ok v [])
      × (json_get_string v (codes "role") ≡ some (codes "user"))
      × (json_get_string v (codes "content") ≡ some message)
      × (is_user_turn (user_record (some message)) ≡ true)
unfolding json_get_string
user_record_lem message h =
    let content = json_string (some message) in
    let e : IsElement string content = json_string-IsElement message in
    let user = codes "user" in
    rw (user_record-text message) (
      record_val user content e,
      json_parse_root-record user content e,
      get_role user content e user-IsText,
      ap (λ l. json_string_val (result l)) (get_content user content e)
          ∙ json_string_val-quoted_val message (b'}' ∷ []) h,
      is_user_turn-record user content e user-IsText,
    )
