-- ===== src/Json/Quoted.antt =====
-- The strings that sb_append_json_string writes (c/util.c) and json.c reads back.
use bash_agent.Base.{
  Bytes, IsText, Option, [], ap, append_assoc, arith, c_string_text, false, length, length-append,
  refl, some, suc, take-append, zero, ℕ, ◌%◌, ◌++◌, ◌-◌, ◌/◌, ◌<◌, ◌==◌, ◌∙◌, ◌∷◌, ◌≡◌, ◌≤◌,
}
use bash_agent.Json.Decode.{
  contents, decode, emit, hex_value, json_string_val, plain_escape, read_hex, surrogate, unescape,
  utf8,
}
use bash_agent.Json.Value.{
  Kind, Val, closed, make_val, ok, parse_string, parse_string_end, scan, string,
}
use bash_agent.Util.Escape.{backslash, escape_byte, escaped, hex_digit, json_string, quote}

pub scan-escape_byte : (c : ℕ) (t : Bytes) → scan false (escape_byte c ++ t) ≡ scan false t
unfolding escape_byte scan
scan-escape_byte c t = ground arith

-- Nothing in an escaped text ends the string.
pub scan-escaped : (s t : Bytes) → scan false (escaped s ++ t) ≡ scan false t
unfolding escaped
scan-escaped [] t = refl
scan-escaped (c ∷ s) t = rw append_assoc (scan-escape_byte c (escaped s ++ t) ∙ scan-escaped s t)

hex_digit_value : (n : ℕ) → n < 16 → hex_value (hex_digit n) ≡ some n
unfolding hex_value hex_digit
hex_digit_value n h = ground arith

read_hex-control :
    (c : ℕ) (t : Bytes)
    → c < 32
    → read_hex 4 0 (b'0' ∷ b'0' ∷ hex_digit (c / 16) ∷ hex_digit (c % 16) ∷ t) ≡ (c, t)
unfolding read_hex
read_hex-control c t h =
    ground (arith, hex_digit_value (c / 16) (omega arith), hex_digit_value (c % 16) (omega arith))

surrogate-ascii :
    (go : Bytes → Option Bytes) (c : ℕ) (t : Bytes)
    → c < 128
    → surrogate go c t ≡ emit (c ∷ []) (go t)
unfolding surrogate utf8
surrogate-ascii go c t h = ground arith

unescape-control :
    (go : Bytes → Option Bytes) (c : ℕ) (t : Bytes)
    → c < 32
    → unescape go (b'u' ∷ b'0' ∷ b'0' ∷ hex_digit (c / 16) ∷ hex_digit (c % 16) ∷ t)
      ≡ emit (c ∷ []) (go t)
unfolding unescape
unescape-control go c t h = rw (read_hex-control c t h) (surrogate-ascii go c t (omega arith))

unescape-plain_escape :
    (go : Bytes → Option Bytes) (e : ℕ) (t : Bytes)
    → (e == b'u') ≡ false
    → unescape go (e ∷ t) ≡ emit (plain_escape e ∷ []) (go t)
unfolding unescape
unescape-plain_escape go e t h = rw h

-- Decoding the escape of one byte gives that byte.
decode-escape_byte :
    (f c : ℕ) (t : Bytes) → decode (suc f) (escape_byte c ++ t) ≡ emit (c ∷ []) (decode f t)
unfolding decode escape_byte plain_escape
decode-escape_byte f c t = ground (
  arith,
  unescape-control (decode f) c t,
  unescape-plain_escape (decode f) quote t,
  unescape-plain_escape (decode f) backslash t,
  unescape-plain_escape (decode f) b'b' t,
  unescape-plain_escape (decode f) b'f' t,
  unescape-plain_escape (decode f) b'n' t,
  unescape-plain_escape (decode f) b'r' t,
  unescape-plain_escape (decode f) b't' t,
)

decode-escaped : (f : ℕ) (s : Bytes) → length s ≤ f → decode f (escaped s) ≡ some s
unfolding escaped
decode-escaped zero [] h = unfold decode in refl
decode-escaped (suc f) [] h = unfold decode in refl
decode-escaped zero (c ∷ s) h = absurd (omega arith)
decode-escaped (suc f) (c ∷ s) h =
    rw (decode-escape_byte f c (escaped s), decode-escaped f s (omega arith))

-- An escape is at least as long as its byte.
length-escape_byte : (c : ℕ) → 1 ≤ length (escape_byte c)
unfolding escape_byte
length-escape_byte c = ground arith

length-escaped : (s : Bytes) → length s ≤ length (escaped s)
unfolding escaped
length-escaped [] = omega arith
length-escaped (c ∷ s) =
    omega (arith, length-append (escape_byte c) (escaped s), length-escape_byte c, length-escaped s)

-- the view that json_parse returns for a quoted text
abbrev pub quoted_val : Bytes → Bytes → Val
quoted_val s rest = record {
  kind = string;
  src = json_string (some s) ++ rest;
  len = length (json_string (some s));
}

scan-quoted : (s rest : Bytes) → scan false (escaped s ++ (quote ∷ rest)) ≡ closed rest
unfolding scan
scan-quoted s rest = scan-escaped s (quote ∷ rest)

-- make_val over a text followed by the rest of the input
pub make_val_append :
    (k : Kind) (t rest : Bytes)
    → make_val k (t ++ rest) rest ≡ ok (record { kind = k; src = t ++ rest; len = length t }) rest
make_val_append k t rest =
    ap (λ n. ok (record { kind = k; src = t ++ rest; len = n }) rest)
      (omega (arith, length-append t rest))

pub parse_string-json_string :
    (s rest : Bytes) → parse_string (json_string (some s) ++ rest) ≡ ok (quoted_val s rest) rest
unfolding parse_string json_string
parse_string-json_string s rest =
    rw (append_assoc, scan-quoted s rest, parse_string_end)
      (rw (← append_assoc (escaped s) (quote ∷ []) rest)
        (make_val_append string (json_string (some s)) rest))

contents-quoted_val : (s rest : Bytes) → contents (quoted_val s rest) ≡ escaped s
unfolding json_string
contents-quoted_val s rest =
    let e : length (json_string (some s)) - 2 ≡ length (escaped s) =
      omega (arith, length-append (escaped s) (quote ∷ [])) in
    rw (e, append_assoc) (take-append (escaped s) (quote ∷ rest))

-- json_string_val gives back what sb_append_json_string quoted.
pub json_string_val-quoted_val :
    (s rest : Bytes) → IsText s → json_string_val (quoted_val s rest) ≡ some s
unfolding json_string_val
json_string_val-quoted_val s rest h = rw (
  contents-quoted_val s rest,
  decode-escaped (length (escaped s)) s (length-escaped s),
  c_string_text s h,
)
