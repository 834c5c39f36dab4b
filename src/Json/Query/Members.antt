-- ===== src/Json/Query/Members.antt =====
-- json_get on a printed object.
use bash_agent.Base.{
  Bool, Bool-cases, Bytes, List, Option, [], ap, append_assoc, arith, false, if◌then◌else◌, inl,
  inr, length, length-append, none, refl, some, str_eq, suc, take-append, true, zero, ℕ, ◌++◌, ◌<◌,
  ◌∙◌, ◌∷◌, ◌≡◌, ◌≤◌,
}
use bash_agent.Json.Parse.{fuel, json_parse}
use bash_agent.Json.Printed.{IsEnd, skip_ws-head}
use bash_agent.Json.Printed.Objects.{
  AllMembers, IsMember, contents-key_val, member_text, more_text, more_text-IsEnd, object_text,
  parse_string-member, value_view,
}
use bash_agent.Json.Query.{Lookup, found, get_loop, get_value, json_get, missing, past_comma}
use bash_agent.Json.Value.{Kind, Val, object, ok, skip_ws, text}
use bash_agent.Util.Escape.{quote}

json_parse-printed :
    {kind : Kind} {k v : Bytes} (m : IsMember kind k v) (r : Bytes)
    → IsEnd r
    → json_parse (v ++ r) ≡ ok (value_view kind v r) r
unfolding json_parse
json_parse-printed {v} m r end = m.printed (fuel (v ++ r)) r end (omega (arith, length-append v r))

get_value-member :
    {kind : Kind} {k v : Bytes} (m : IsMember kind k v) (go : Bytes → Lookup) (hit : Bool)
    (r : Bytes)
    → IsEnd r
    → get_value go hit (b':' ∷ (v ++ r))
      ≡ (if hit then found (value_view kind v r) else past_comma go r)
unfolding get_value
get_value-member {v} m go hit r end = rw (
  skip_ws-head (b':' ∷ []) (v ++ r) refl (omega arith),
  skip_ws-head v r m.no_space m.not_empty,
  json_parse-printed m r end,
)

-- one round of json_get at a printed member
pub get_loop-member :
    {kind : Kind} {k v : Bytes} (m : IsMember kind k v) (f : ℕ) (key r : Bytes)
    → IsEnd r
    → get_loop (suc f) key (member_text k v ++ r)
      ≡ (if str_eq key k then found (value_view kind v r) else past_comma (get_loop f key) r)
unfolding get_loop
get_loop-member {k} {v} m f key r end =
    rw (parse_string-member m r, contents-key_val k (b':' ∷ (v ++ r)))
      (get_value-member m (get_loop f key) (str_eq key k) r end)

-- the first member with the key
abbrev pub find_text : Bytes → List (Bytes × Bytes) → Option Bytes
find_text key [] = none
find_text key ((k, v) ∷ ms) = if str_eq key k then some v else find_text key ms

-- the text that a query finds
abbrev pub found_text : Lookup → Option Bytes
found_text (found v) = some (text v)
found_text _ = none

pub past_comma-end : (go : Bytes → Lookup) (s : Bytes) → past_comma go (b'}' ∷ s) ≡ missing
unfolding skip_ws
past_comma-end go s = refl

pub past_comma-comma : (go : Bytes → Lookup) (s : Bytes) → past_comma go (b',' ∷ s) ≡ go s
unfolding skip_ws
past_comma-comma go s = refl

get_loop-printed :
    (f : ℕ) (key k v : Bytes) (ms : List (Bytes × Bytes)) (rest : Bytes)
    → (kind : Kind) × IsMember kind k v
    → AllMembers ms
    → length (member_text k v ++ more_text ms) < f
    → found_text (get_loop f key (member_text k v ++ (more_text ms ++ rest)))
      ≡ find_text key ((k, v) ∷ ms)
get_loop-printed zero key k v ms rest m h lt = absurd (omega arith)
get_loop-printed (suc f) key k v ms rest (kind, m) h lt =
    rw (get_loop-member m f key (more_text ms ++ rest) (more_text-IsEnd ms rest))
      (elim (Bool-cases (str_eq key k)) [
        | inl hit ↦ rw hit (ap some (take-append v (more_text ms ++ rest)))
        | inr other ↦ rw other (others ms h lt (get_loop-printed f key))
      ])
  where
    others :
        (ms : List (Bytes × Bytes))
        → AllMembers ms
        → length (member_text k v ++ more_text ms) < suc f
        → ((k v : Bytes) (ms : List (Bytes × Bytes)) (rest : Bytes)
            → (kind : Kind) × IsMember kind k v
            → AllMembers ms
            → length (member_text k v ++ more_text ms) < f
            → found_text (get_loop f key (member_text k v ++ (more_text ms ++ rest)))
              ≡ find_text key ((k, v) ∷ ms))
        → found_text (past_comma (get_loop f key) (more_text ms ++ rest)) ≡ find_text key ms
    others [] h lt ih = rw past_comma-end
    others ((k', v') ∷ ms) (m', h) lt ih =
        ap found_text
          (past_comma-comma (get_loop f key) (member_text k' v' ++ more_text ms ++ rest))
        ∙ rw append_assoc (
            ih k' v' ms rest m' h
              (omega (arith, length-append (member_text k v) (more_text ((k', v') ∷ ms)))))

-- The view of a printed object with something behind it.
abbrev pub object_val : Bytes → Bytes → List (Bytes × Bytes) → Bytes → Val
object_val k v ms rest = value_view object (object_text k v ms) rest

-- json_get enters a printed object at its first member.
pub json_get-object :
    (key k v : Bytes) (ms : List (Bytes × Bytes)) (rest : Bytes)
    → (f : ℕ) × (json_get (object_val k v ms rest) key
        ≡ get_loop (suc f) key (member_text k v ++ (more_text ms ++ rest)))
      × (length (member_text k v ++ more_text ms) ≤ f)
unfolding json_get
json_get-object key k v ms rest =
    let s = member_text k v ++ (more_text ms ++ rest) in
    let e : skip_ws s ≡ s =
      skip_ws-head (quote ∷ []) ((k ++ quote ∷ b':' ∷ v) ++ (more_text ms ++ rest)) refl
        (omega arith) in
    (
      length s,
      rw (append_assoc, e),
      omega (
        arith,
        length-append (member_text k v) (more_text ms ++ rest),
        length-append (member_text k v) (more_text ms),
        length-append (more_text ms) rest,
      ),
    )

-- On an object that the program printed, json_get finds the text of the first member with the
-- key, and nothing if no member has it.
pub json_get-printed :
    (key k v : Bytes) (ms : List (Bytes × Bytes)) (rest : Bytes)
    → (kind : Kind) × IsMember kind k v
    → AllMembers ms
    → found_text (json_get (object_val k v ms rest) key) ≡ find_text key ((k, v) ∷ ms)
json_get-printed key k v ms rest m h =
    let (f, e, lt) = json_get-object key k v ms rest in
    ap found_text e ∙ get_loop-printed (suc f) key k v ms rest m h (omega (arith, lt))

-- The view of the first member, where it has the key.
pub json_get_first :
    {kind : Kind} {k v : Bytes} (m : IsMember kind k v) (key : Bytes) (ms : List (Bytes × Bytes))
    (rest : Bytes)
    → str_eq key k ≡ true
    → json_get (object_val k v ms rest) key ≡ found (value_view kind v (more_text ms ++ rest))
json_get_first {k} {v} m key ms rest hit =
    let (f, e, lt) = json_get-object key k v ms rest in
    e ∙ get_loop-member m f key (more_text ms ++ rest) (more_text-IsEnd ms rest) ∙ rw hit

-- The view of the second.
pub json_get_second :
    {kind kind' : Kind} {k v k' v' : Bytes} (m : IsMember kind k v) (m' : IsMember kind' k' v')
    (key : Bytes) (ms : List (Bytes × Bytes)) (rest : Bytes)
    → str_eq key k ≡ false
    → str_eq key k' ≡ true
    → json_get (object_val k v ((k', v') ∷ ms) rest) key
      ≡ found (value_view kind' v' (more_text ms ++ rest))
json_get_second {kind' = kind'} {k} {v} {k' = k'} {v' = v'} m m' key ms rest other hit =
    let (f, e, lt) = json_get-object key k v ((k', v') ∷ ms) rest in
    e ∙ get_loop-member m f key (more_text ((k', v') ∷ ms) ++ rest) refl ∙ rw other (second f lt)
  where
    second :
        (f : ℕ)
        → length (member_text k v ++ more_text ((k', v') ∷ ms)) ≤ f
        → past_comma (get_loop f key) (more_text ((k', v') ∷ ms) ++ rest)
          ≡ found (value_view kind' v' (more_text ms ++ rest))
    second zero lt = absurd (omega arith)
    second (suc f) lt =
        past_comma-comma (get_loop (suc f) key) (member_text k' v' ++ more_text ms ++ rest)
        ∙ rw append_assoc
            (get_loop-member m' f key (more_text ms ++ rest) (more_text-IsEnd ms rest) ∙ rw hit)
