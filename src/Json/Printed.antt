-- ===== src/Json/Printed.antt =====
-- Texts that the program prints and json.c reads: quoted strings, and objects of them.
pub mod Objects
pub mod Arrays
use bash_agent.Base.{
  Bytes, IsText, Option, [], append-nil, arith, codes, false, length, none, peek, refl, some, suc,
  true, zero, ℕ, ◌*◌, ◌++◌, ◌<◌, ◌==◌, ◌||◌, ◌∙◌, ◌∷◌, ◌≡◌,
}
use bash_agent.Json.Decode.{json_string_val}
use bash_agent.Json.Parse.{fuel, items, json_parse, json_parse_root, members, parse_at, value}
use bash_agent.Json.Quoted.{
  json_string_val-quoted_val, make_val_append, parse_string-json_string, quoted_val,
}
use bash_agent.Json.Value.{
  Kind, Parse, Val, is_ws, make_val, null, ok, parse_string, skip_ws, string,
}
use bash_agent.Util.Escape.{escaped, json_string, quote}

-- A text that json_parse reads as one value of kind `k`, whatever follows it.
abbrev pub IsPrinted : Kind → Bytes → Type 0
IsPrinted k t =
    (f : ℕ) (rest : Bytes)
    → 2 * length t < f
    → value f (t ++ rest) ≡ ok (record { kind = k; src = t ++ rest; len = length t }) rest

-- What follows a value in an object or an array, or at the end of the text.
abbrev pub IsEnd : Bytes → Type 0
IsEnd r = (peek r == 0 || peek r == b',' || peek r == b'}' || peek r == b']') ≡ true

-- A text that json_parse reads as one value of kind `k` where such a byte follows it.
abbrev pub IsValue : Kind → Bytes → Type 0
IsValue k t =
    (f : ℕ) (rest : Bytes)
    → IsEnd rest
    → 2 * length t < f
    → value f (t ++ rest) ≡ ok (record { kind = k; src = t ++ rest; len = length t }) rest

pub printed-IsValue : (k : Kind) (t : Bytes) → IsPrinted k t → IsValue k t
printed-IsValue k t p f rest e h = p f rest h

pub skip_ws-head : (v r : Bytes) → is_ws (peek v) ≡ false → 0 < length v → skip_ws (v ++ r) ≡ v ++ r
unfolding skip_ws
skip_ws-head [] r h p = absurd (omega arith)
skip_ws-head (c ∷ v) r h p = rw h

-- A value as a part of a larger text.
pub record IsElement (k : Kind) (v : Bytes) : Type 0 where
  pub no_space : is_ws (peek v) ≡ false
  pub not_empty : 0 < length v
  pub printed : IsValue k v

pub value-at :
    (f : ℕ) (c : ℕ) (s : Bytes)
    → is_ws c ≡ false
    → value (suc f) (c ∷ s) ≡ parse_at (items f) (members f) (c ∷ s)
unfolding value skip_ws
value-at f c s h = rw h

parse_at-quote :
    (element_loop member_loop : Bytes → Bytes → Parse) (s : Bytes)
    → parse_at element_loop member_loop (quote ∷ s) ≡ parse_string (quote ∷ s)
unfolding parse_at
parse_at-quote element_loop member_loop s = refl

value-json_string :
    (s : Bytes) (f : ℕ) (rest : Bytes)
    → 0 < f
    → value f (json_string (some s) ++ rest) ≡ ok (quoted_val s rest) rest
unfolding json_string
value-json_string s zero rest h = absurd (omega arith)
value-json_string s (suc f) rest h =
    value-at f quote (escaped s ++ quote ∷ [] ++ rest) refl
    ∙ parse_at-quote (items f) (members f) (escaped s ++ quote ∷ [] ++ rest)
    ∙ parse_string-json_string s rest

pub json_string-IsPrinted : (s : Bytes) → IsPrinted string (json_string (some s))
json_string-IsPrinted s f rest h = value-json_string s f rest (omega arith)

pub json_string-IsElement : (s : Bytes) → IsElement string (json_string (some s))
unfolding json_string
json_string-IsElement s = record {
  no_space = refl;
  not_empty = omega arith;
  printed = printed-IsValue string (json_string (some s)) (json_string-IsPrinted s);
}

parse_at-null :
    (element_loop member_loop : Bytes → Bytes → Parse) (s : Bytes)
    → parse_at element_loop member_loop (codes "null" ++ s) ≡ make_val null (codes "null" ++ s) s
unfolding parse_at
parse_at-null element_loop member_loop s = refl

null-IsPrinted : IsPrinted null (codes "null")
null-IsPrinted zero rest h = absurd (omega arith)
null-IsPrinted (suc f) rest h =
    value-at f b'n' (codes "ull" ++ rest) refl
    ∙ parse_at-null (items f) (members f) rest
    ∙ make_val_append null (codes "null") rest

null-IsElement : IsElement null (codes "null")
null-IsElement = record {
  no_space = refl;
  not_empty = omega arith;
  printed = printed-IsValue null (codes "null") null-IsPrinted;
}

-- What sb_append_json_string writes for a text or for NULL.
pub option_string-IsElement : (s : Option Bytes) → (k : Kind) × IsElement k (json_string s)
unfolding json_string
option_string-IsElement (some s) = (string, json_string-IsElement s)
option_string-IsElement none = (null, null-IsElement)

pub skip_ws-element :
    {k : Kind} {v : Bytes} (e : IsElement k v) (r : Bytes) → skip_ws (v ++ r) ≡ v ++ r
skip_ws-element {v} e r = skip_ws-head v r e.no_space e.not_empty

pub json_parse-IsPrinted :
    (k : Kind) (t : Bytes)
    → IsPrinted k t
    → json_parse t ≡ ok (record { kind = k; src = t; len = length t }) []
unfolding json_parse
json_parse-IsPrinted k t h = rw append-nil at (h (fuel t) [] (omega arith))

pub json_parse_root-IsPrinted :
    (k : Kind) (t : Bytes)
    → IsPrinted k t
    → json_parse_root (some t) ≡ ok (record { kind = k; src = t; len = length t }) []
unfolding json_parse_root skip_ws
json_parse_root-IsPrinted k t h = rw (json_parse-IsPrinted k t h)

-- What sb_append_json_string writes for a text is one JSON string, and json_parse_root followed
-- by json_string_val gives the text back. The text is any C string.
pub json_string_round_trip :
    (s : Bytes)
    → IsText s
    → (v : Val) × (json_parse_root (some (json_string (some s))) ≡ ok v [])
      × (json_string_val v ≡ some s)
json_string_round_trip s h = (
  record { kind = string; src = json_string (some s); len = length (json_string (some s)) },
  json_parse_root-IsPrinted string (json_string (some s)) (json_string-IsPrinted s),
  rw append-nil at (json_string_val-quoted_val s [] h),
)
