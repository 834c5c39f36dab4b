-- ===== src/Json/Parse.antt =====
-- c/json.c: json_parse and json_parse_root. The recursion runs on fuel.
pub mod Total
use bash_agent.Base.{
  Bool, Bytes, Option, [], codes, drop, false, if◌then◌else◌, length, next, none, peek, some,
  starts_with, suc, zero, ℕ, ◌*◌, ◌==◌, ◌||◌, ◌∷◌,
}
use bash_agent.Json.Value.{
  Error, Kind, Parse, Val, array, bool, err, expected_colon, expected_comma_or_brace,
  expected_comma_or_bracket, expected_false, expected_null, expected_string_key, expected_true,
  is_digit, make_val, null, null_input, object, ok, overrun, parse_number, parse_string, skip_ws,
  stuck, trailing_content, unexpected_character,
}
use bash_agent.Util.Escape.{quote}

-- go on with the value and the rest of the input
infixl 5 ◌>>=◌
abbrev pub ◌>>=◌ : Parse → (Val → Bytes → Parse) → Parse
ok v s >>= k = k v s
err e >>= k = err e
overrun >>= k = overrun
stuck >>= k = stuck

-- the words true, false, null
unfoldable pub parse_word : Bytes → Kind → Error → Bytes → Parse
parse_word w k e s = if starts_with s w then make_val k s (drop (length w) s) else err e

-- parse_array up to the loop
unfoldable pub parse_array : (Bytes → Bytes → Parse) → Bytes → Parse
parse_array loop s =
    let t = skip_ws (next s) in
    let items = loop s t in if peek t == b']' then make_val array s (next t) else items

-- parse_object up to the loop
unfoldable pub parse_object : (Bytes → Bytes → Parse) → Bytes → Parse
parse_object loop s =
    let t = skip_ws (next s) in
    let members = loop s t in if peek t == b'}' then make_val object s (next t) else members

-- behind an element: the loop goes on, ends, or fails
unfoldable pub after_item : (Bytes → Bytes → Parse) → Bytes → Bytes → Parse
after_item loop start s =
    let t = skip_ws s in
    let more = loop start (next t) in
    if peek t == b','
    then more
    else if peek t == b']'
    then make_val array start (next t)
    else err expected_comma_or_bracket

-- behind a member
unfoldable pub after_member : (Bytes → Bytes → Parse) → Bytes → Bytes → Parse
after_member loop start s =
    let t = skip_ws s in
    let more = loop start (next t) in
    if peek t == b','
    then more
    else if peek t == b'}'
    then make_val object start (next t)
    else err expected_comma_or_brace

-- behind a key: the colon and the value
unfoldable pub after_key : (Bytes → Parse) → Bytes → Parse
after_key element s =
    let t = skip_ws s in
    let v = element (skip_ws (next t)) in if peek t == b':' then v else err expected_colon

-- json_parse_internal behind its white space, given the loops of parse_array and parse_object
unfoldable pub parse_at : (Bytes → Bytes → Parse) → (Bytes → Bytes → Parse) → Bytes → Parse
unfolding parse_word parse_array parse_object
parse_at items members s =
    let c = peek s in
    let inside_object = parse_object members s in
    let inside_array = parse_array items s in
    if c == quote
    then parse_string s
    else if c == b'{'
    then inside_object
    else if c == b'['
    then inside_array
    else if c == b't'
    then parse_word (codes "true") bool expected_true s
    else if c == b'f'
    then parse_word (codes "false") bool expected_false s
    else if c == b'n'
    then parse_word (codes "null") null expected_null s
    else if c == b'-' || is_digit c
    then parse_number s
    else err unexpected_character

unfoldable mutual
  -- json_parse_internal
  pub value : ℕ → Bytes → Parse
  value zero s = stuck
  value (suc f) s = parse_at (items f) (members f) (skip_ws s)

  -- the loop of parse_array
  pub items : ℕ → Bytes → Bytes → Parse
  items zero start s = stuck
  items (suc f) start s = value f (skip_ws s) >>= λ _ r. after_item (items f) start r

  -- the loop of parse_object
  pub members : ℕ → Bytes → Bytes → Parse
  members zero start s = stuck
  members (suc f) start s =
      let t = skip_ws s in
      let member = parse_string t >>= λ _ r.
      after_key (value f) r >>= λ _ q. after_member (members f) start q in
      if peek t == quote then member else err expected_string_key

-- rounds that are enough for an input
abbrev pub fuel : Bytes → ℕ
fuel s = suc (2 * length s)

-- json_parse
unfoldable pub json_parse : Bytes → Parse
json_parse s = value (fuel s) s

-- json_parse_root behind its value: only blanks may follow
unfoldable pub at_end : Val → Bytes → Parse
at_end v r = elim (skip_ws r) [ [] ↦ ok v r | _ ∷ _ ↦ err trailing_content ]

-- json_parse_root; `none` is NULL
unfoldable pub json_parse_root : Option Bytes → Parse
unfolding at_end
json_parse_root none = err null_input
json_parse_root (some s) = json_parse s >>= at_end

-- !jp.error && test(jp.val)
abbrev pub parsed_and : Parse → (Val → Bool) → Bool
parsed_and (ok v r) test = test v
parsed_and (err e) test = false
parsed_and overrun test = false
parsed_and stuck test = false
