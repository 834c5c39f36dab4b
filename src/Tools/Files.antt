-- ===== src/Tools/Files.antt =====
-- c/tools.c: the tools that read and write files, and the guard in front of them. The files are
-- a function from paths to contents; what runs another program is a parameter.
pub mod Lines
pub mod Edited
use bash_agent.Base.{
  Bool, Bytes, List, Option, [], c_string, codes, contains, drop, false, if◌then◌else◌, leb, length,
  ltb, next, none, not, peek, some, strstr, suc, take, true, within, zero, ℕ, ◌&&◌, ◌++◌, ◌+◌, ◌-◌,
  ◌==◌, ◌||◌, ◌∷◌,
}
use bash_agent.Json.Numbers.{positive_int}
use bash_agent.Json.Parse.{json_parse_root}
use bash_agent.Json.Query.{json_get, json_get_string, result}
use bash_agent.Json.Value.{Parse, Val, err, number, ok, overrun, stuck, text}
use bash_agent.Util.Decimal.{decimal}
use bash_agent.Util.FileSystem.{World, write_file}

-- ToolResult; an output of `none` is NULL
pub record ToolResult : Type 0 where
  pub output : Option Bytes
  pub exit_code : ℕ

abbrev pub fails : Bytes → ToolResult
fails message = record { output = some message; exit_code = 1 }

abbrev pub succeeds : Bytes → ToolResult
succeeds message = record { output = some message; exit_code = 0 }

-- !s || !s[0]
abbrev pub is_missing : Option Bytes → Bool
is_missing none = true
is_missing (some s) = peek s == 0

-- the text of an argument that was tested before
abbrev pub given : Option Bytes → Bytes
given none = []
given (some s) = s

-- what json_get_int gives the tools, which only ask whether it is positive
unfoldable pub json_get_positive : Val → Bytes → ℕ
unfolding positive_int
json_get_positive obj key =
    let v = result (json_get obj key) in
    elim v.kind [ number ↦ if ltb v.len 64 then positive_int (text v) else 0 | _ ↦ 0 ]

-- the last line of a text, which is none where it is empty
abbrev pub unless_empty : Bytes → List Bytes
unless_empty [] = []
unless_empty (c ∷ line) = (c ∷ line) ∷ []

-- the lines of a text, of which the last may have no line feed, with the bytes of the line that is
-- being read
unfoldable pub split_from : Bytes → Bytes → List Bytes
split_from line [] = unless_empty line
split_from line (c ∷ s) =
    let rest = split_from [] s in
    let longer = split_from (line ++ c ∷ []) s in if c == b'\n' then line ∷ rest else longer

-- the loop of tool_read from the line `n` on; a bound of `none` is 0x7FFFFFFF
unfoldable pub select_lines : ℕ → Option ℕ → ℕ → List Bytes → Bytes
select_lines start limit n [] = []
select_lines start none n (l ∷ ls) =
    (if leb start n then l ++ b'\n' ∷ [] else []) ++ select_lines start none (n + 1) ls
select_lines start (some last) n (l ∷ ls) =
    let rest = select_lines start (some last) (n + 1) ls in
    (if leb start n && leb n last then l ++ b'\n' ∷ [] else [])
    ++ (if ltb last (n + 1) then [] else rest)

-- the buffer of tool_read, which has no data where nothing was added
abbrev pub data_of : Bytes → Option Bytes
data_of [] = none
data_of (c ∷ s) = some (c ∷ s)

-- the lines that tool_read gives of a file, where `start + limit - 1` fits into an int
unfoldable pub read_lines : ℕ → ℕ → Bytes → Bytes
unfolding split_from select_lines
read_lines offset limit content =
    let start = if ltb 0 offset then offset else 1 in
    let last = if ltb 0 limit then some (start + limit - 1) else none in
    select_lines start last 1 (split_from [] (c_string content))

abbrev pub not_found_text : Bytes → Bytes
not_found_text path = codes "Error: file not found: " ++ path

-- tool_read behind its tests of the arguments
unfoldable pub read_path : World → ℕ → ℕ → Bytes → ToolResult
unfolding read_lines
read_path w offset limit path = elim (w.files path) [
  | none ↦ fails (not_found_text path)
  | some content ↦ record { output = data_of (read_lines offset limit content); exit_code = 0 }
]

abbrev pub bad_json : ToolResult
bad_json = fails (codes "Error: invalid JSON")

abbrev pub no_path : ToolResult
no_path = fails (codes "Error: no path provided")

-- what is done with the value of the input, which is read before the arguments are; a read past
-- the terminator is the one case that is left out, as `none`
abbrev pub with_input {ℓ} : {A : Type ℓ} → Parse → A → (Val → A) → Option A
with_input (ok v r) bad go = some (go v)
with_input (err e) bad go = some bad
with_input overrun bad go = none
with_input stuck bad go = none

-- tool_read on its input
abbrev pub read_value : World → Val → ToolResult
read_value w v =
    let path = json_get_string v (codes "path") in
    let found =
      read_path w (json_get_positive v (codes "offset")) (json_get_positive v (codes "limit"))
        (given path) in
    if is_missing path then no_path else found

-- tool_read
unfoldable pub tool_read : World → Option Bytes → Option ToolResult
unfolding read_path
tool_read w input = with_input (json_parse_root input) bad_json (read_value w)

-- tool_write behind its tests
unfoldable pub write_path : World → Bytes → Bytes → World × ToolResult
unfolding decimal write_file
write_path w path content =
    let (written, after) = write_file w path content in
    if written
    then (
      after,
      succeeds (codes "OK: wrote " ++ (decimal (length content) ++ (codes " bytes to " ++ path))),
    )
    else (after, fails (codes "Error: write failed"))

-- the test of the contents
abbrev pub write_content : World → Bytes → Option Bytes → World × ToolResult
write_content w path none = (w, fails (codes "Error: no content provided"))
write_content w path (some content) = write_path w path content

abbrev pub write_value : World → Val → World × ToolResult
write_value w v =
    let path = json_get_string v (codes "path") in
    let content = write_content w (given path) (json_get_string v (codes "content")) in
    if is_missing path then (w, no_path) else content

-- tool_write
unfoldable pub tool_write : World → Option Bytes → Option (World × ToolResult)
unfolding write_path
tool_write w input = with_input (json_parse_root input) (w, bad_json) (write_value w)

-- the escape sequences in front of a line of the diff
unfoldable pub past_letter : Bytes → Bytes
past_letter [] = []
past_letter (c ∷ s) = if within b'A' b'Z' c || within b'a' b'z' c then s else past_letter s

-- the loop that steps over them, on fuel
unfoldable pub past_escapes : ℕ → Bytes → Bytes
past_escapes zero s = s
past_escapes (suc f) s =
    let more = past_escapes f (past_letter (drop 2 s)) in
    if peek s == 27 && peek (next s) == b'[' then more else s

-- a line of the diff that begins with `sign`, and not with two of them
unfoldable pub is_change : ℕ → Bytes → Bool
unfolding past_letter past_escapes
is_change sign line =
    let p = past_escapes (length line) line in peek p == sign && not (peek (next p) == sign)

unfoldable pub count_changes : ℕ → List Bytes → ℕ
unfolding is_change
count_changes sign [] = 0
count_changes sign (l ∷ ls) = (if is_change sign l then 1 else 0) + count_changes sign ls

abbrev pub concat_lines : List Bytes → Bytes
concat_lines [] = []
concat_lines (l ∷ ls) = l ++ concat_lines ls

-- the output of a successful edit, from the lines that `diff` prints
unfoldable pub edit_text : Bytes → List Bytes → Bytes
unfolding decimal count_changes
edit_text path lines =
    codes "Success: Edit("
    ++ (path
        ++ (codes ") [+"
            ++ (decimal (count_changes b'+' lines)
                ++ (codes " -"
                    ++ (decimal (count_changes b'-' lines)
                        ++ (codes " lines]\n" ++ concat_lines lines))))))

abbrev pub missing_text : Bytes → Bytes
missing_text path =
    codes "Error: old_string not found in "
    ++ (path
        ++ codes
            ". Hint: use Grep to locate the target lines, then Read the relevant portion (with offset/limit) to copy the exact text before retrying Edit.")

-- what is told of the write of an edit
abbrev pub edit_saved :
    (Bytes → Bytes → List Bytes) → Bytes → Bytes → Bytes → Bool × World → World × ToolResult
edit_saved diff path content new_content (true, after) =
    (after, succeeds (edit_text path (diff content new_content)))
edit_saved diff path content new_content (false, after) =
    (after, fails (codes "Error: cannot write file"))

-- tool_edit from the write on; `diff` gives the lines that the program of that name prints
abbrev pub save_edit :
    (Bytes → Bytes → List Bytes) → World → Bytes → Bytes → Bytes → World × ToolResult
save_edit diff w path content new_content =
    edit_saved diff path content new_content (write_file w path new_content)

-- from the place of the old string on
unfoldable pub replace_at :
    (Bytes → Bytes → List Bytes)
    → World
    → Bytes
    → Bytes
    → Bytes
    → Bytes
    → Bytes
    → World × ToolResult
unfolding strstr edit_text write_file
replace_at diff w path content place old_str new_str =
    let prefix = take (length content - length place) content in
    let new_content = prefix ++ (new_str ++ drop (length old_str) place) in
    if contains (next place) old_str
    then (w, fails (codes "Error: old_string found multiple times, must be unique"))
    else if peek new_content == 0
    then (w, fails (codes "Error: edit produced empty result"))
    else save_edit diff w path content new_content

-- the search for the old string
abbrev pub edit_content :
    (Bytes → Bytes → List Bytes) → World → Bytes → Bytes → Bytes → Bytes → World × ToolResult
edit_content diff w path content old_str new_str = elim (strstr content old_str) [
  | none ↦ (w, fails (missing_text path))
  | some place ↦ replace_at diff w path content place old_str new_str
]

-- tool_edit behind its tests of the arguments
unfoldable pub edit_path :
    (Bytes → Bytes → List Bytes) → World → Bytes → Bytes → Bytes → World × ToolResult
unfolding strstr replace_at
edit_path diff w path old_str new_str = elim (w.files path) [
  | none ↦ (w, fails (not_found_text path))
  | some content ↦ edit_content diff w path (c_string content) old_str new_str
]

-- the test of the new string
abbrev pub edit_new :
    (Bytes → Bytes → List Bytes) → World → Bytes → Bytes → Option Bytes → World × ToolResult
edit_new diff w path old_str none = (w, fails (codes "Error: no new_string provided"))
edit_new diff w path old_str (some new_str) = edit_path diff w path old_str new_str

abbrev pub edit_value : (Bytes → Bytes → List Bytes) → World → Val → World × ToolResult
edit_value diff w v =
    let path = json_get_string v (codes "path") in
    let old_str = json_get_string v (codes "old_string") in
    let edited =
      edit_new diff w (given path) (given old_str) (json_get_string v (codes "new_string")) in
    if is_missing path
    then (w, no_path)
    else if is_missing old_str
    then (w, fails (codes "Error: empty old_string"))
    else edited

-- tool_edit
unfoldable pub tool_edit :
    (Bytes → Bytes → List Bytes) → World → Option Bytes → Option (World × ToolResult)
unfolding edit_path
tool_edit diff w input = with_input (json_parse_root input) (w, bad_json) (edit_value diff w)
