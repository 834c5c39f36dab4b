-- ===== src/Json/Query.antt =====
-- c/json.c: json_get, json_array_len, json_array_get, the value queries, and the object iterator.
pub mod Total
pub mod Range
pub mod Members
pub mod Fields
use bash_agent.Base.{
  Bool, Bytes, Option, false, if◌then◌else◌, length, next, none, peek, some, str_eq, suc, zero, ℕ,
  ◌+◌, ◌==◌,
}
use bash_agent.Json.Decode.{contents, json_string_val}
use bash_agent.Json.Parse.{json_parse}
use bash_agent.Json.Value.{
  Kind, Parse, Val, array, bool, err, null, null_val, object, ok, overrun, parse_string, skip_ws,
  string, stuck, text,
}

-- what a query finds; `missing` is the zeroed JsonVal, and the last two are as for Parse
pub data Lookup : Type 0 where
  found : Val → Lookup
  missing past_end out_of_fuel : Lookup

-- the JsonVal that the caller gets
abbrev pub result : Lookup → Val
result (found v) = v
result _ = null_val

-- go on with a parsed value; a parse error ends the query
abbrev pub look : Parse → (Val → Bytes → Lookup) → Lookup
look (ok v r) k = k v r
look (err e) k = missing
look overrun k = past_end
look stuck k = out_of_fuel

-- the comma behind a member or an element
abbrev pub past_comma : (Bytes → Lookup) → Bytes → Lookup
past_comma go r =
    let more = go (next (skip_ws r)) in if peek (skip_ws r) == b',' then more else missing

-- json_get behind a key: `hit` is `match`
unfoldable pub get_value : (Bytes → Lookup) → Bool → Bytes → Lookup
get_value go hit s =
    let t = skip_ws s in
    let value = json_parse (skip_ws (next t)) in
    let chosen = look value (λ v r. found v) in
    let passed = look value (λ v r. past_comma go r) in
    if peek t == b':' then (if hit then chosen else passed) else missing

-- the loop of json_get
unfoldable pub get_loop : ℕ → Bytes → Bytes → Lookup
get_loop zero key s = out_of_fuel
get_loop (suc f) key s =
    look (parse_string (skip_ws s)) (λ k r. get_value (get_loop f key) (str_eq key (contents k)) r)

-- json_get behind the opening brace
unfoldable pub get_of : Kind → Bytes → Bytes → Lookup
get_of object key s =
    let loop = get_loop (suc (length s)) key s in if peek s == b'}' then missing else loop
get_of _ key s = missing

-- json_get
unfoldable pub json_get : Val → Bytes → Lookup
unfolding get_of
json_get obj key = get_of obj.kind key (skip_ws (next obj.src))

-- json_get_string
unfoldable pub json_get_string : Val → Bytes → Option Bytes
json_get_string obj key = json_string_val (result (json_get obj key))

-- json_bool_val
unfoldable pub json_bool_val : Val → Bool
json_bool_val v = elim v.kind [ bool ↦ peek v.src == b't' | _ ↦ false ]

-- json_get_bool
unfoldable pub json_get_bool : Val → Bytes → Bool → Bool
json_get_bool obj key default =
    let v = result (json_get obj key) in elim v.kind [ null ↦ default | _ ↦ json_bool_val v ]

-- json_as_string
unfoldable pub json_as_string : Val → Option Bytes
json_as_string v = elim v.kind [ string ↦ json_string_val v | null ↦ none | _ ↦ some (text v) ]

-- how far json_array_len counts
pub data Count : Type 0 where
  counted : ℕ → Count
  past_end out_of_fuel : Count

-- one round of json_array_len
abbrev pub tally : Parse → ℕ → (Bytes → Count) → Count
tally (ok v r) count go =
    let more = go (next (skip_ws r)) in
    if peek (skip_ws r) == b',' then more else counted (count + 1)
tally (err e) count go = counted count
tally overrun count go = past_end
tally stuck count go = out_of_fuel

-- the loop of json_array_len
unfoldable pub len_loop : ℕ → ℕ → Bytes → Count
len_loop zero count s = out_of_fuel
len_loop (suc f) count s = tally (json_parse (skip_ws s)) count (len_loop f (count + 1))

-- json_array_len behind the opening bracket
unfoldable pub len_of : Kind → Bytes → Count
len_of array s =
    let loop = len_loop (suc (length s)) 0 s in if peek s == b']' then counted 0 else loop
len_of _ s = counted 0

-- json_array_len
unfoldable pub json_array_len : Val → Count
unfolding len_of
json_array_len arr = len_of arr.kind (skip_ws (next arr.src))

-- the loop of json_array_get
unfoldable pub elem_loop : ℕ → ℕ → ℕ → Bytes → Lookup
elem_loop zero index cur s = out_of_fuel
elem_loop (suc f) index cur s = look (json_parse (skip_ws s)) (λ v r.
    let more = past_comma (elem_loop f index (cur + 1)) r in if cur == index then found v else more)

-- json_array_get behind the opening bracket
unfoldable pub elem_of : Kind → ℕ → Bytes → Lookup
elem_of array index s =
    let loop = elem_loop (suc (length s)) index 0 s in if peek s == b']' then missing else loop
elem_of _ index s = missing

-- json_array_get, at an index that is not negative
unfoldable pub json_array_get : Val → ℕ → Lookup
unfolding elem_of
json_array_get arr index = elem_of arr.kind index (skip_ws (next arr.src))
