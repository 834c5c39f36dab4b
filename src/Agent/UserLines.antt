-- ===== src/Agent/UserLines.antt =====
-- c/agent.c: compact_is_real_user_line, and the lines that the compaction counts and looks for.
use bash_agent.Base.{
  Bool, Bytes, List, [], codes, contains, false, get_or, if◌then◌else◌, is_some, length, not, some,
  suc, text_is, zero, ℕ, ◌&&◌, ◌++◌, ◌+◌, ◌/◌, ◌∷◌,
}
use bash_agent.Json.Parse.{json_parse_root}
use bash_agent.Json.Query.{json_get_string}
use bash_agent.Json.Value.{Parse, Val, err, ok}

-- what compact_is_real_user_line asks of a parsed line
abbrev pub is_user_message : Val → Bool
is_user_message v =
    text_is (json_get_string v (codes "role")) (codes "user")
    && is_some (json_get_string v (codes "content"))

-- compact_is_real_user_line on what json_parse_root returns
abbrev pub real_user_at : Parse → Bytes → Bool
real_user_at (ok v r) line = is_user_message v
real_user_at (err e) line =
    contains line (codes "\"role\":\"user\"") && not (contains line (codes "\"content\":["))
real_user_at _ line = false

-- compact_is_real_user_line
unfoldable pub is_real_user_line : Bytes → Bool
is_real_user_line line = real_user_at (json_parse_root (some line)) line

-- the tokens of a line
abbrev pub line_tokens : Bytes → ℕ
line_tokens line = (length line + 3) / 4 + 1

-- the tokens of all lines
unfoldable pub sum_tokens : List Bytes → ℕ
sum_tokens [] = 0
sum_tokens (l ∷ ls) = line_tokens l + sum_tokens ls

-- is_user[i]
abbrev pub is_user_at : List Bytes → ℕ → Bool
is_user_at ls i = is_real_user_line (get_or ls i [])

-- the loop that goes back to the line of a user message
unfoldable pub back_to_user : List Bytes → ℕ → ℕ
back_to_user ls zero = 0
back_to_user ls (suc cut) =
    let more = back_to_user ls cut in if is_user_at ls (suc cut) then suc cut else more

-- the lines of user messages, from the line `i` on
unfoldable pub user_indices : ℕ → List Bytes → List ℕ
user_indices i [] = []
user_indices i (l ∷ ls) = (if is_real_user_line l then i ∷ [] else []) ++ user_indices (i + 1) ls
