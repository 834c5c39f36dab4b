-- ===== src/Json/Decode.antt =====
-- c/json.c: json_string_val.
use mathlib.Core.Option
use bash_agent.Base.{
  Bytes, Option, [], c_string, false, if◌then◌else◌, length, ltb, next, none, peek, some, suc, take,
  true, within, zero, ℕ, ◌%◌, ◌&&◌, ◌*◌, ◌++◌, ◌+◌, ◌-◌, ◌/◌, ◌==◌, ◌∷◌,
}
use bash_agent.Json.Value.{Val, string}
use bash_agent.Util.Escape.{backslash, quote}

-- the value of a hexadecimal digit
unfoldable pub hex_value : ℕ → Option ℕ
hex_value h =
    if within b'0' b'9' h
    then some (h - b'0')
    else if within b'a' b'f' h
    then some (h - b'a' + 10)
    else if within b'A' b'F' h
    then some (h - b'A' + 10)
    else none

-- the loop that reads `cp`: up to `n` bytes, of which one that is no digit counts as 0
unfoldable pub read_hex : ℕ → ℕ → Bytes → ℕ × Bytes
unfolding hex_value
read_hex zero cp s = (cp, s)
read_hex (suc n) cp [] = (cp, [])
read_hex (suc n) cp (h ∷ s) = read_hex n (cp * 16 + elim (hex_value h) [ none ↦ 0 | some d ↦ d ]) s

-- the loop that reads `lo`, and what stands behind it; `none` is `valid == 0`
unfoldable pub read_low : ℕ → ℕ → Bytes → Option (ℕ × Bytes)
unfolding hex_value
read_low zero lo s = some (lo, s)
read_low (suc n) lo [] = some (lo, [])
read_low (suc n) lo (h ∷ s) = elim (hex_value h) [
  | none ↦ none
  | some d ↦ read_low n (lo * 16 + d) s
]

-- The bits that `|` joins are disjoint, so the sums are those of the source.
unfoldable pub utf8 : ℕ → Bytes
utf8 cp =
    if ltb cp 0x80
    then cp ∷ []
    else if ltb cp 0x800
    then (0xC0 + cp / 64) ∷ (0x80 + cp % 64) ∷ []
    else if ltb cp 0x10000
    then (0xE0 + cp / 4096) ∷ (0x80 + cp / 64 % 64) ∷ (0x80 + cp % 64) ∷ []
    else (0xF0 + cp / 262144)
      ∷ (0x80 + cp / 4096 % 64)
      ∷ (0x80 + cp / 64 % 64)
      ∷ (0x80 + cp % 64)
      ∷ []

-- bytes written before the rest of the loop
abbrev pub emit : Bytes → Option Bytes → Option Bytes
emit out (some more) = some (out ++ more)
emit out none = none

-- a high surrogate is joined to the low one that follows it
unfoldable pub surrogate : (Bytes → Option Bytes) → ℕ → Bytes → Option Bytes
surrogate go cp r =
    let alone = emit (utf8 cp) (go r) in
    let pair : Option Bytes = elim (read_low 4 0 (next (next r))) [
      | none ↦ alone
      | some (lo, q) ↦
          let joined = emit (utf8 (0x10000 + (cp - 0xD800) * 1024 + (lo - 0xDC00))) (go q) in
          if within 0xDC00 0xDFFF lo then joined else alone
    ] in
    if within 0xD800 0xDBFF cp && (peek r == backslash && peek (next r) == b'u')
    then pair
    else alone

unfoldable pub plain_escape : ℕ → ℕ
plain_escape e =
    if e == b'b'
    then 8
    else if e == b'f'
    then 12
    else if e == b'n'
    then b'\n'
    else if e == b'r'
    then b'\r'
    else if e == b't'
    then b'\t'
    else e

-- behind a backslash; at the end of the contents `src[i]` is the closing quote
unfoldable pub unescape : (Bytes → Option Bytes) → Bytes → Option Bytes
unescape go [] = some (quote ∷ [])
unescape go (e ∷ s) =
    let (cp, r) = read_hex 4 0 s in
    let unicode = surrogate go cp r in
    let plain = emit (plain_escape e ∷ []) (go s) in if e == b'u' then unicode else plain

-- the loop of json_string_val over the contents, on fuel
unfoldable pub decode : ℕ → Bytes → Option Bytes
decode zero [] = some []
decode zero (c ∷ s) = none
decode (suc f) [] = some []
decode (suc f) (c ∷ s) = elim (c == backslash) [
  | true ↦ unescape (decode f) s
  | false ↦ emit (c ∷ []) (decode f s)
]

-- the bytes between the quotes
abbrev pub contents : Val → Bytes
contents v = take (v.len - 2) (next v.src)

-- json_string_val, as the C string that its caller sees
unfoldable pub json_string_val : Val → Option Bytes
unfolding decode unescape plain_escape read_hex read_low surrogate utf8
json_string_val v = elim v.kind [
  | string ↦ Option.map c_string (decode (length (contents v)) (contents v))
  | _ ↦ none
]
