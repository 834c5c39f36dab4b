-- ===== src/Json/Printed/Objects.antt =====
-- Objects that the program prints member by member, and json_get on them.
use bash_agent.Base.{
  All, Bytes, List, [], ap, append_assoc, arith, false, length, length-append, peek, refl, suc,
  take-append, zero, ℕ, ◌*◌, ◌++◌, ◌+◌, ◌-◌, ◌<◌, ◌==◌, ◌∙◌, ◌∷◌, ◌≡◌,
}
use bash_agent.Json.Decode.{contents}
use bash_agent.Json.Parse.{after_key, after_member, items, members, parse_at, value}
use bash_agent.Json.Printed.{IsElement, IsEnd, IsPrinted, skip_ws-head, value-at}
use bash_agent.Json.Quoted.{make_val_append}
use bash_agent.Json.Value.{
  Kind, Parse, Val, closed, make_val, object, ok, parse_string, scan, skip_ws, string,
}
use bash_agent.Util.Escape.{backslash, quote}

-- A key that is printed as it is: no quote and no backslash.
abbrev pub IsKey : Bytes → Type 0
IsKey = All (λ c. ((c == quote) ≡ false) × ((c == backslash) ≡ false))

-- "key":value
abbrev pub member_text : Bytes → Bytes → Bytes
member_text key v = quote ∷ (key ++ quote ∷ b':' ∷ v)

-- the members behind the first, and the closing brace
abbrev pub more_text : List (Bytes × Bytes) → Bytes
more_text [] = b'}' ∷ []
more_text ((k, v) ∷ ms) = b',' ∷ (member_text k v ++ more_text ms)

abbrev pub object_text : Bytes → Bytes → List (Bytes × Bytes) → Bytes
object_text k v ms = b'{' ∷ (member_text k v ++ more_text ms)

-- A value that json_parse reads back, and its kind.
pub record IsMember (k : Kind) (key v : Bytes) : Type 0 where
  pub plain_key : IsKey key
  pub element : IsElement k v
  pub open element use *

abbrev pub AllMembers : List (Bytes × Bytes) → Type 0
AllMembers [] = Unit
AllMembers ((k, v) ∷ ms) = ((kind : Kind) × IsMember kind k v) × AllMembers ms

scan-IsKey : (k t : Bytes) → IsKey k → scan false (k ++ quote ∷ t) ≡ closed t
unfolding scan
scan-IsKey [] t h = refl
scan-IsKey (c ∷ k) t ((nq, nb), h) = rw (nq, nb) (scan-IsKey k t h)

-- the view of a key
pub key_val : Bytes → Bytes → Val
key_val k t = record { kind = string; src = quote ∷ (k ++ quote ∷ t); len = length k + 2 }

pub parse_string-IsKey :
    (k t : Bytes) → IsKey k → parse_string (quote ∷ (k ++ quote ∷ t)) ≡ ok (key_val k t) t
unfolding parse_string key_val
parse_string-IsKey k t h =
    let n : length (quote ∷ (k ++ quote ∷ t)) - length t ≡ length k + 2 =
      omega (arith, length-append k (quote ∷ t)) in
    rw (scan-IsKey k t h, n)

pub contents-key_val : (k t : Bytes) → contents (key_val k t) ≡ k
unfolding key_val
contents-key_val k t =
    let n : length k + 2 - 2 ≡ length k = omega arith in rw n (take-append k (quote ∷ t))

abbrev pub value_view : Kind → Bytes → Bytes → Val
value_view kind v r = record { kind = kind; src = v ++ r; len = length v }

-- one round of parse_object, from what its parts return
members-step :
    (f : ℕ) (start s : Bytes) {a b : Val} {r q : Bytes}
    → peek (skip_ws s) ≡ quote
    → parse_string (skip_ws s) ≡ ok a r
    → after_key (value f) r ≡ ok b q
    → members (suc f) start s ≡ after_member (members f) start q
unfolding members
members-step f start s h e d = rw (h, e, d)

module _ {kind : Kind} {k v : Bytes} (m : IsMember kind k v) where
  after_key-member :
      (f : ℕ) (r : Bytes)
      → IsEnd r
      → 2 * length v < f
      → after_key (value f) (b':' ∷ (v ++ r)) ≡ ok (value_view kind v r) r
  unfolding after_key
  after_key-member f r end h = rw (
    skip_ws-head (b':' ∷ []) (v ++ r) refl (omega arith),
    skip_ws-head v r m.no_space m.not_empty,
    m.printed f r end h,
  )

  pub parse_string-member :
      (r : Bytes)
      → parse_string (skip_ws (member_text k v ++ r))
        ≡ ok (key_val k (b':' ∷ (v ++ r))) (b':' ∷ (v ++ r))
  parse_string-member r =
      rw (skip_ws-head (quote ∷ []) ((k ++ quote ∷ b':' ∷ v) ++ r) refl (omega arith), append_assoc)
        (parse_string-IsKey k (b':' ∷ (v ++ r)) m.plain_key)

  members-member :
      (f : ℕ) (start r : Bytes)
      → IsEnd r
      → 2 * length v < f
      → members (suc f) start (member_text k v ++ r) ≡ after_member (members f) start r
  members-member f start r end h =
      members-step f start (member_text k v ++ r)
        (ap peek (skip_ws-head (quote ∷ []) ((k ++ quote ∷ b':' ∷ v) ++ r) refl (omega arith)))
        (parse_string-member r) (after_key-member f r end h)

-- what follows a member
pub more_text-IsEnd : (ms : List (Bytes × Bytes)) (rest : Bytes) → IsEnd (more_text ms ++ rest)
more_text-IsEnd [] rest = refl
more_text-IsEnd (m ∷ ms) rest = refl

more_text-end :
    (loop : Bytes → Bytes → Parse) (start rest : Bytes)
    → after_member loop start (b'}' ∷ rest) ≡ make_val object start rest
unfolding after_member skip_ws
more_text-end loop start rest = refl

more_text-comma :
    (loop : Bytes → Bytes → Parse) (start r : Bytes)
    → after_member loop start (b',' ∷ r) ≡ loop start r
unfolding after_member skip_ws
more_text-comma loop start r = refl

length-member_text : (k v : Bytes) → length v < length (member_text k v)
length-member_text k v = omega (arith, length-append k (quote ∷ b':' ∷ v))

-- The loop of parse_object reads printed members up to the closing brace.
members-printed :
    (f : ℕ) (start k v : Bytes) (ms : List (Bytes × Bytes)) (rest : Bytes)
    → (kind : Kind) × IsMember kind k v
    → AllMembers ms
    → 2 * length (member_text k v ++ more_text ms) < f
    → members f start (member_text k v ++ more_text ms ++ rest) ≡ make_val object start rest
members-printed zero start k v ms rest m h lt = absurd (omega arith)
members-printed (suc f) start k v [] rest (kind, m) h lt = rw append_assoc (
    members-member m f start (b'}' ∷ rest) refl
      (omega (arith, length-member_text k v, length-append (member_text k v) (b'}' ∷ [])))
    ∙ more_text-end (members f) start rest)
members-printed (suc f) start k v ((k', v') ∷ ms) rest (kind, m) (m', h) lt =
    let bound = length-append (member_text k v) (more_text ((k', v') ∷ ms)) in
    rw (append_assoc (member_text k v) (more_text ((k', v') ∷ ms)) rest) (
      members-member m f start (b',' ∷ (member_text k' v' ++ more_text ms ++ rest)) refl
        (omega (arith, length-member_text k v, bound))
      ∙ more_text-comma (members f) start (member_text k' v' ++ more_text ms ++ rest)
      ∙ members-printed f start k' v' ms rest m' h (omega (arith, bound)))

parse_at-object :
    (element_loop member_loop : Bytes → Bytes → Parse) (s : Bytes)
    → (peek (skip_ws s) == b'}') ≡ false
    → parse_at element_loop member_loop (b'{' ∷ s) ≡ member_loop (b'{' ∷ s) (skip_ws s)
unfolding parse_at
parse_at-object element_loop member_loop s h = rw h

-- A printed object is read as one value.
pub object_text-IsPrinted :
    (k v : Bytes) (ms : List (Bytes × Bytes))
    → (kind : Kind) × IsMember kind k v
    → AllMembers ms
    → IsPrinted object (object_text k v ms)
object_text-IsPrinted k v ms m h zero rest lt = absurd (omega arith)
object_text-IsPrinted k v ms m h (suc f) rest lt =
    let s = member_text k v ++ more_text ms ++ rest in
    let e : skip_ws s ≡ s =
      skip_ws-head (quote ∷ []) ((k ++ quote ∷ b':' ∷ v) ++ more_text ms ++ rest) refl
        (omega arith) in
    value-at f b'{' s refl
    ∙ parse_at-object (items f) (members f) s (rw e refl)
    ∙ rw e (
        members-printed f (b'{' ∷ s) k v ms rest m h (omega arith)
        ∙ make_val_append object (object_text k v ms) rest)
