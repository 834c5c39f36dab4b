-- ===== src/Json/Value.antt =====
-- c/json.h: JsonVal and JsonParse, and the character-level scanners of c/json.c.
use bash_agent.Base.{
  Bool, Bytes, [], false, if◌then◌else◌, length, next, peek, take, true, within, ℕ, ◌-◌, ◌==◌, ◌||◌,
  ◌∷◌,
}
use bash_agent.Util.Escape.{backslash, quote}

-- JsonType
pub data Kind : Type 0 where
  null bool number string array object : Kind

abbrev pub is_string : Kind → Bool
is_string string = true
is_string _ = false

abbrev pub is_array : Kind → Bool
is_array array = true
is_array _ = false

-- JsonVal: `src` is the input from the position `start` on, and `len` is `end - start`.
pub record Val : Type 0 where
  pub kind : Kind
  pub src : Bytes
  pub len : ℕ

-- the zeroed JsonVal of a missing key or element
abbrev pub null_val : Val
null_val = record { kind = null; src = []; len = 0 }

-- the messages of make_err
pub data Error : Type 0 where
  unclosed_string expected_comma_or_bracket expected_string_key expected_colon : Error
  expected_comma_or_brace expected_true expected_false expected_null : Error
  unexpected_character null_input trailing_content : Error

-- JsonParse with the input behind the new `*pos`. `overrun` is a read past the terminator;
-- `stuck` means that the fuel ran out.
pub data Parse : Type 0 where
  ok : Val → Bytes → Parse
  err : Error → Parse
  overrun stuck : Parse

-- make_val
abbrev pub make_val : Kind → Bytes → Bytes → Parse
make_val k start rest = ok (record { kind = k; src = start; len = length start - length rest }) rest

-- the bytes from start to end
abbrev pub text : Val → Bytes
text v = take v.len v.src

abbrev pub is_ws : ℕ → Bool
is_ws c = c == b' ' || c == b'\t' || c == b'\n' || c == b'\r'

unfoldable pub skip_ws : Bytes → Bytes
skip_ws [] = []
skip_ws (c ∷ s) = if is_ws c then skip_ws s else c ∷ s

-- isdigit
abbrev pub is_digit : ℕ → Bool
is_digit = within b'0' b'9'

unfoldable pub skip_digits : Bytes → Bytes
skip_digits [] = []
skip_digits (c ∷ s) = if is_digit c then skip_digits s else c ∷ s

-- where the loop of parse_string stops
pub data Scan : Type 0 where
  closed : Bytes → Scan
  unclosed past_end : Scan

-- the loop of parse_string; the flag says that the last byte was a backslash, which makes the
-- loop step over the next one, the terminator included
unfoldable pub scan : Bool → Bytes → Scan
scan true [] = past_end
scan false [] = unclosed
scan true (c ∷ s) = scan false s
scan false (c ∷ s) = let rest = scan (c == backslash) s in if c == quote then closed s else rest

unfoldable pub parse_string_end : Bytes → Scan → Parse
parse_string_end start (closed rest) = make_val string start rest
parse_string_end start unclosed = err unclosed_string
parse_string_end start past_end = overrun

-- parse_string: it steps over its first byte, which its callers have mostly tested to be a quote
unfoldable pub parse_string : Bytes → Parse
unfolding scan parse_string_end
parse_string [] = overrun
parse_string (c ∷ s) = parse_string_end (c ∷ s) (scan false s)

-- if (src[*place] == a || src[*place] == b) (*place)++
abbrev pub skip_either : ℕ → ℕ → Bytes → Bytes
skip_either a b s = if peek s == a || peek s == b then next s else s

abbrev pub skip_fraction : Bytes → Bytes
skip_fraction s = if peek s == b'.' then skip_digits (next s) else s

abbrev pub skip_exponent : Bytes → Bytes
skip_exponent s =
    if peek s == b'e' || peek s == b'E' then skip_digits (skip_either b'+' b'-' (next s)) else s

-- parse_number
unfoldable pub parse_number : Bytes → Parse
unfolding skip_digits
parse_number s =
    make_val number s (skip_exponent (skip_fraction (skip_digits (skip_either b'-' b'-' s))))
