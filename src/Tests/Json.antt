-- ===== src/Tests/Json.antt =====
-- Runs of the modelled c/json.c on concrete inputs.
use bash_agent.Base.{Bytes, List, [], arith, codes, refl, some, ◌∷◌, ◌≡◌}
use bash_agent.Json.Decode.{json_string_val}
use bash_agent.Json.Parse.{
  after_item, items, json_parse, json_parse_root, members, parse_array, parse_at, parse_word, value,
}
use bash_agent.Json.Parse.Total.{IsView, json_parse-IsView}
use bash_agent.Json.Printed.{IsPrinted, json_string-IsElement, json_string_round_trip}
use bash_agent.Json.Printed.Arrays.{array_text, array_text-IsPrinted}
use bash_agent.Json.Printed.Objects.{AllMembers, IsMember, object_text, object_text-IsPrinted}
use bash_agent.Json.Query.{counted, json_array_len, json_get, len_loop}
use bash_agent.Json.Query.Members.{find_text, found_text, json_get-printed, object_val}
use bash_agent.Json.Value.{
  Val, array, object, ok, parse_number, parse_string, parse_string_end, scan, skip_digits, skip_ws,
  string,
}
use bash_agent.Store.Conversation.Records.{string-IsMember}
use bash_agent.Util.Escape.{json_string}

-- {"path":"a\"b","line":"7"}
abbrev members_seven : List (Bytes × Bytes)
members_seven = (codes "line", json_string (some (codes "7"))) ∷ []

abbrev path_text : Bytes
path_text = json_string (some (codes "a\"b"))

path-IsMember : IsMember string (codes "path") path_text
path-IsMember = string-IsMember (codes "path") (codes "a\"b") (ground arith)

all_members : AllMembers members_seven
all_members = ((string, string-IsMember (codes "line") (codes "7") (ground arith)), tt)

json_string_round_trip_example :
    (v : Val) × (json_parse_root (some (json_string (some (codes "a\"\n\\")))) ≡ ok v [])
    × (json_string_val v ≡ some (codes "a\"\n\\"))
json_string_round_trip_example = json_string_round_trip (codes "a\"\n\\") (omega arith)

object_text-IsPrinted_example :
    IsPrinted object (object_text (codes "path") path_text members_seven)
object_text-IsPrinted_example =
    object_text-IsPrinted (codes "path") path_text members_seven (string, path-IsMember) all_members

array_text-IsPrinted_example :
    IsPrinted array (array_text path_text (json_string (some (codes "x")) ∷ []))
unfolding json_string
array_text-IsPrinted_example =
    array_text-IsPrinted path_text (json_string (some (codes "x")) ∷ [])
      (string, json_string-IsElement (codes "a\"b")) refl
      ((string, json_string-IsElement (codes "x")), tt)

json_get-printed_example :
    found_text (json_get (object_val (codes "path") path_text members_seven []) (codes "line"))
    ≡ find_text (codes "line") ((codes "path", path_text) ∷ members_seven)
json_get-printed_example =
    json_get-printed (codes "line") (codes "path") path_text members_seven []
      (string, path-IsMember) all_members

abbrev three_items : Val
three_items = record { kind = array; src = codes "[1, true ,\"x\"]"; len = 14 }

json_parse-IsView_example : IsView (skip_ws (codes " [1,]")) (json_parse (codes " [1,]"))
json_parse-IsView_example = json_parse-IsView (codes " [1,]")

three_items-len : json_array_len three_items ≡ counted 3
unfolding json_array_len len_loop json_parse value parse_at parse_array items members parse_word
    parse_string parse_number skip_ws skip_digits scan parse_string_end after_item
three_items-len = refl
