-- ===== src/Util/Escape.antt =====
-- c/util.c: the JSON and shell quoting that StrBuf appends. Each function gives the bytes that
-- the source appends to its buffer.
use bash_agent.Base.{
  Bytes, Option, [], codes, if◌then◌else◌, ltb, none, some, ℕ, ◌%◌, ◌++◌, ◌+◌, ◌-◌, ◌/◌, ◌==◌, ◌∷◌,
}

abbrev pub quote : ℕ
quote = b'"'

abbrev pub backslash : ℕ
backslash = b'\\'

-- a digit of `%x`
unfoldable pub hex_digit : ℕ → ℕ
hex_digit n = if ltb n 10 then b'0' + n else b'a' + (n - 10)

-- one round of the loop of sb_append_json_string; 8, 12 are '\b', '\f'
unfoldable pub escape_byte : ℕ → Bytes
unfolding hex_digit
escape_byte c =
    if c == quote
    then backslash ∷ quote ∷ []
    else if c == backslash
    then backslash ∷ backslash ∷ []
    else if c == 8
    then backslash ∷ b'b' ∷ []
    else if c == 12
    then backslash ∷ b'f' ∷ []
    else if c == b'\n'
    then backslash ∷ b'n' ∷ []
    else if c == b'\r'
    then backslash ∷ b'r' ∷ []
    else if c == b'\t'
    then backslash ∷ b't' ∷ []
    else if ltb c 0x20
    then backslash ∷ b'u' ∷ b'0' ∷ b'0' ∷ hex_digit (c / 16) ∷ hex_digit (c % 16) ∷ []
    else c ∷ []

-- the loop of sb_append_json_string
unfoldable pub escaped : Bytes → Bytes
escaped [] = []
escaped (c ∷ s) = escape_byte c ++ escaped s

-- sb_append_json_string; `none` is NULL
unfoldable pub json_string : Option Bytes → Bytes
json_string none = codes "null"
json_string (some s) = quote ∷ (escaped s ++ quote ∷ [])

-- the loop of sb_append_shell_arg
unfoldable pub shell_escaped : Bytes → Bytes
shell_escaped [] = []
shell_escaped (c ∷ s) = (if c == b'\'' then codes "'\\''" else c ∷ []) ++ shell_escaped s

-- sb_append_shell_arg
unfoldable pub shell_arg : Option Bytes → Bytes
shell_arg none = codes "''"
shell_arg (some s) = b'\'' ∷ (shell_escaped s ++ b'\'' ∷ [])
