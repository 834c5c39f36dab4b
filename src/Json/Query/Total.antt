-- ===== src/Json/Query/Total.antt =====
-- The loops of the queries end: their fuel never runs out.
use bash_agent.Base.{
  Bool, Bool-cases, Bytes, arith, false, if◌then◌else◌, inl, inr, length, next, peek, str_eq, suc,
  true, zero, ℕ, ◌+◌, ◌<◌, ◌==◌,
}
use bash_agent.Json.Decode.{contents}
use bash_agent.Json.Parse.{json_parse}
use bash_agent.Json.Parse.Total.{
  IsView, Rest, json_parse-IsView, length-Rest, length-next, length-skip_ws, parse_string-IsView,
}
use bash_agent.Json.Query.{
  Count, Lookup, counted, elem_loop, elem_of, found, get_loop, get_of, get_value, json_array_get,
  json_array_len, json_get, len_loop, len_of, look, missing, past_comma, tally,
}
use bash_agent.Json.Value.{
  Kind, Parse, Val, array, err, object, ok, overrun, parse_string, skip_ws, stuck,
}

-- Not out of fuel.
abbrev pub Returns : Lookup → Type 0
Returns (found v) = Unit
Returns missing = Unit
Returns Lookup.past_end = Unit
Returns Lookup.out_of_fuel = ⊥

abbrev pub ReturnsCount : Count → Type 0
ReturnsCount (counted n) = Unit
ReturnsCount Count.past_end = Unit
ReturnsCount Count.out_of_fuel = ⊥

-- the input behind what one round of a loop reads, a separator included
pub length-behind : (s r : Bytes) → Rest (skip_ws s) r → length (next (skip_ws r)) < length s
length-behind s r h =
    omega (arith, length-Rest h, length-skip_ws s, length-skip_ws r, length-next (skip_ws r))

-- Without white space first, too.
length-behind_value :
    (s r : Bytes)
    → Rest (skip_ws (skip_ws (next (skip_ws s)))) r
    → length (next (skip_ws r)) < length s
length-behind_value s r h = omega (
  arith,
  length-Rest h,
  length-skip_ws s,
  length-next (skip_ws s),
  length-skip_ws (next (skip_ws s)),
  length-skip_ws (skip_ws (next (skip_ws s))),
  length-skip_ws r,
  length-next (skip_ws r),
)

pub if-Returns : (b : Bool) (x y : Lookup) → Returns x → Returns y → Returns (if b then x else y)
if-Returns true x y h k = h
if-Returns false x y h k = k

pub look-Returns :
    (s : Bytes) (p : Parse) (k : Val → Bytes → Lookup)
    → IsView s p
    → ((v : Val) (r : Bytes) → Rest s r → Returns (k v r))
    → Returns (look p k)
look-Returns s (ok v r) k h good = good v r h.2
look-Returns s (err e) k h good = tt
look-Returns s overrun k h good = tt
look-Returns s stuck k h good = h

past_comma-Returns :
    (go : Bytes → Lookup) (r : Bytes) → Returns (go (next (skip_ws r))) → Returns (past_comma go r)
past_comma-Returns go r h = if-Returns (peek (skip_ws r) == b',') _ _ h tt

get_value-Returns :
    (go : Bytes → Lookup) (hit : Bool) (s : Bytes)
    → ((r : Bytes) → length r < length s → Returns (go r))
    → Returns (get_value go hit s)
unfolding get_value
get_value-Returns go hit s good =
    let u = skip_ws (next (skip_ws s)) in
    if-Returns (peek (skip_ws s) == b':') _ _
      (if-Returns hit _ _
        (look-Returns (skip_ws u) (json_parse u) _ (json_parse-IsView u) (λ v r h. tt))
        (look-Returns (skip_ws u) (json_parse u) _ (json_parse-IsView u)
          λ v r h. past_comma-Returns go r (good _ (length-behind_value s r h))))
      tt

get_loop-Returns : (f : ℕ) (key s : Bytes) → length s < f → Returns (get_loop f key s)
unfolding get_loop
get_loop-Returns zero key s h = absurd (omega arith)
get_loop-Returns (suc f) key s h =
    look-Returns (skip_ws s) (parse_string (skip_ws s)) _ (parse_string-IsView (skip_ws s)) λ k r m.
      get_value-Returns (get_loop f key) (str_eq key (contents k)) r
        λ q n. get_loop-Returns f key q (omega (arith, length-Rest m, length-skip_ws s))

elem_loop-Returns : (f index cur : ℕ) (s : Bytes) → length s < f → Returns (elem_loop f index cur s)
unfolding elem_loop
elem_loop-Returns zero index cur s h = absurd (omega arith)
elem_loop-Returns (suc f) index cur s h =
    let t = skip_ws s in
    look-Returns (skip_ws t) (json_parse t) _ (json_parse-IsView t) λ v r m.
      let less : length (next (skip_ws r)) < f =
        omega (arith, length-behind t r m, length-skip_ws s) in
      if-Returns (cur == index) (found v) _ tt (
        past_comma-Returns (elem_loop f index (cur + 1)) r
          (elem_loop-Returns f index (cur + 1) (next (skip_ws r)) less))

get_of-Returns : (k : Kind) (key s : Bytes) → Returns (get_of k key s)
unfolding get_of
get_of-Returns object key s =
    if-Returns (peek s == b'}') _ _ tt (get_loop-Returns (suc (length s)) key s (omega arith))
get_of-Returns _ key s = tt

-- json_get always comes back: with a value, with none, or by a read past the terminator.
pub json_get-Returns : (obj : Val) (key : Bytes) → Returns (json_get obj key)
unfolding json_get
json_get-Returns obj key = get_of-Returns obj.kind key (skip_ws (next obj.src))

elem_of-Returns : (k : Kind) (index : ℕ) (s : Bytes) → Returns (elem_of k index s)
unfolding elem_of
elem_of-Returns array index s =
    if-Returns (peek s == b']') _ _ tt (elem_loop-Returns (suc (length s)) index 0 s (omega arith))
elem_of-Returns _ index s = tt

tally-Returns :
    (s : Bytes) (p : Parse) (count : ℕ) (go : Bytes → Count)
    → IsView (skip_ws s) p
    → ((r : Bytes) → length r < length s → ReturnsCount (go r))
    → ReturnsCount (tally p count go)
tally-Returns s (ok v r) count go h good = elim (Bool-cases (peek (skip_ws r) == b',')) [
  | inl e ↦ rw e (good (next (skip_ws r)) (length-behind s r h.2))
  | inr e ↦ rw e tt
]
tally-Returns s (err _) count go h good = tt
tally-Returns s overrun count go h good = tt
tally-Returns s stuck count go h good = h

len_loop-Returns : (f count : ℕ) (s : Bytes) → length s < f → ReturnsCount (len_loop f count s)
unfolding len_loop
len_loop-Returns zero count s h = absurd (omega arith)
len_loop-Returns (suc f) count s h =
    let t = skip_ws s in
    tally-Returns t (json_parse t) count (len_loop f (count + 1)) (json_parse-IsView t)
      λ r m. len_loop-Returns f (count + 1) r (omega (arith, length-skip_ws s))

len_of-Returns : (k : Kind) (s : Bytes) → ReturnsCount (len_of k s)
unfolding len_of
len_of-Returns array s = elim (Bool-cases (peek s == b']')) [
  | inl e ↦ rw e tt
  | inr e ↦ rw e (len_loop-Returns (suc (length s)) 0 s (omega arith))
]
len_of-Returns _ s = tt

-- So do json_array_len and json_array_get.
pub json_array-Returns :
    (arr : Val) (index : ℕ) → ReturnsCount (json_array_len arr) × Returns (json_array_get arr index)
unfolding json_array_len json_array_get
json_array-Returns arr index =
    let s = skip_ws (next arr.src) in (len_of-Returns arr.kind s, elem_of-Returns arr.kind index s)
