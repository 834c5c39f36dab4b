-- ===== src/Json/Query/Fields.antt =====
-- Texts and integers read back from an object that the program printed.
use mathlib.Core.Path.{subst}
use bash_agent.Base.{
  Bool-cases, Bytes, IsText, List, [], ap, append_assoc, arith, false, inl, inr, length,
  length-append, refl, some, str_eq, suc, sym, true, zero, ℕ, ℤ, ◌*◌, ◌++◌, ◌<◌, ◌∙◌, ◌∷◌, ◌≡◌,
}
use bash_agent.Json.Decode.{json_string_val}
use bash_agent.Json.Numbers.{int_text, json_get_int}
use bash_agent.Json.Numbers.Printed.{IsInt, int_text-IsElement, json_get_int-int_text}
use bash_agent.Json.Parse.{at_end, fuel, json_parse, json_parse_root, ◌>>=◌}
use bash_agent.Json.Printed.{IsElement, IsEnd, json_string-IsElement}
use bash_agent.Json.Printed.Objects.{
  AllMembers, IsMember, member_text, more_text, object_text, object_text-IsPrinted, value_view,
}
use bash_agent.Json.Query.{Lookup, found, get_loop, json_get, json_get_string, result}
use bash_agent.Json.Query.Members.{
  find_text, get_loop-member, json_get-object, object_val, past_comma-comma,
}
use bash_agent.Json.Quoted.{json_string_val-quoted_val}
use bash_agent.Json.Value.{Kind, Val, ok, skip_ws}
use bash_agent.Protocol.{blank}
use bash_agent.Util.Escape.{json_string}

-- A printed value has one kind.
pub element_kind : {a b : Kind} {v : Bytes} → IsElement a v → IsElement b v → a ≡ b
element_kind {v} e e' =
    let same =
      sym (e.printed (suc (2 * length v)) [] refl (omega arith))
      ∙ e'.printed (suc (2 * length v)) [] refl (omega arith) in
    cc

-- what a query finds of a printed object, with what follows it
abbrev pub FindsIn : Lookup → Bytes → Type 0
FindsIn l v = (kind : Kind) × (r : Bytes) × IsElement kind v × (l ≡ found (value_view kind v r))

module _ (f : ℕ) (key k v : Bytes) {kind : Kind} (m : IsMember kind k v) where
  finds_here :
      (r : Bytes)
      → IsEnd r
      → str_eq key k ≡ true
      → FindsIn (get_loop (suc f) key (member_text k v ++ r)) v
  finds_here r end hit = (kind, r, m.element, get_loop-member m f key r end ∙ rw hit)

  finds_later :
      (k' v' : Bytes) (ms : List (Bytes × Bytes)) (rest : Bytes)
      → str_eq key k ≡ false
      → get_loop (suc f) key (member_text k v ++ (more_text ((k', v') ∷ ms) ++ rest))
        ≡ get_loop f key (member_text k' v' ++ (more_text ms ++ rest))
  finds_later k' v' ms rest other =
      get_loop-member m f key (more_text ((k', v') ∷ ms) ++ rest) refl
      ∙ rw other (
          past_comma-comma (get_loop f key) (member_text k' v' ++ more_text ms ++ rest)
          ∙ rw append_assoc)

-- The first member with the key is found.
get_loop-finds :
    (f : ℕ) (key k v : Bytes) (ms : List (Bytes × Bytes)) (rest : Bytes) (w : Bytes)
    → (kind : Kind) × IsMember kind k v
    → AllMembers ms
    → length (member_text k v ++ more_text ms) < f
    → find_text key ((k, v) ∷ ms) ≡ some w
    → FindsIn (get_loop f key (member_text k v ++ (more_text ms ++ rest))) w
get_loop-finds zero key k v ms rest w m h lt e = absurd (omega arith)
get_loop-finds (suc f) key k v [] rest w (kind, m) h lt e = elim (Bool-cases (str_eq key k)) [
  | inl hit ↦
      let same : v ≡ w = ground arith in
      subst (FindsIn (get_loop (suc f) key (member_text k v ++ (more_text [] ++ rest)))) same
        (finds_here f key k v m (more_text [] ++ rest) refl hit)
  | inr other ↦ absurd (cc)
]
get_loop-finds (suc f) key k v ((k', v') ∷ ms) rest w (kind, m) (m', h) lt e =
    elim (Bool-cases (str_eq key k)) [
      | inl hit ↦
          let same : v ≡ w = ground arith in
          subst
            (FindsIn
              (get_loop (suc f) key (member_text k v ++ (more_text ((k', v') ∷ ms) ++ rest))))
            same (finds_here f key k v m (more_text ((k', v') ∷ ms) ++ rest) refl hit)
      | inr other ↦
          let bound = length-append (member_text k v) (more_text ((k', v') ∷ ms)) in
          rw (finds_later f key k v m k' v' ms rest other)
            (get_loop-finds f key k' v' ms rest w m' h (omega (arith, bound)) (rw other at e))
    ]

at_end-blank : (v : Val) (rest : Bytes) → skip_ws rest ≡ [] → at_end v rest ≡ ok v rest
unfolding at_end
at_end-blank v rest h = rw (h, at_end) refl

module _ (k v : Bytes) (ms : List (Bytes × Bytes)) (m : (kind : Kind) × IsMember kind k v)
    (h : AllMembers ms) where
  -- what json_parse_root returns of a printed object with blanks behind it
  pub json_parse_root-object :
      (rest : Bytes)
      → skip_ws rest ≡ []
      → json_parse_root (some (object_text k v ms ++ rest)) ≡ ok (object_val k v ms rest) rest
  unfolding json_parse_root json_parse
  json_parse_root-object rest blank =
      ap (λ p. p >>= at_end)
        (object_text-IsPrinted k v ms m h (fuel (object_text k v ms ++ rest)) rest
          (omega (arith, length-append (object_text k v ms) rest)))
      ∙ at_end-blank (object_val k v ms rest) rest blank

  pub get_field :
      (key w rest : Bytes)
      → find_text key ((k, v) ∷ ms) ≡ some w
      → FindsIn (json_get (object_val k v ms rest) key) w
  get_field key w rest e =
      let (f, entered, lt) = json_get-object key k v ms rest in
      rw entered (get_loop-finds (suc f) key k v ms rest w m h (omega (arith, lt)) e)

  -- A text that the program printed is read back.
  pub get_text :
      (key s rest : Bytes)
      → find_text key ((k, v) ∷ ms) ≡ some (json_string (some s))
      → IsText s
      → json_get_string (object_val k v ms rest) key ≡ some s
  unfolding json_get_string
  get_text key s rest e t =
      let (kind, r, el, l) = get_field key (json_string (some s)) rest e in
      ap (λ x. json_string_val (result x)) l
      ∙ rw (element_kind el (json_string-IsElement s)) (json_string_val-quoted_val s r t)

  -- So is an integer.
  pub get_int :
      (key : Bytes) (z : ℤ) (rest : Bytes)
      → find_text key ((k, v) ∷ ms) ≡ some (int_text z)
      → IsInt z
      → json_get_int (object_val k v ms rest) key ≡ z
  get_int key z rest e t =
      let (kind, r, el, l) = get_field key (int_text z) rest e in
      json_get_int-int_text (object_val k v ms rest) key z r
        (l ∙ rw (element_kind el (int_text-IsElement z))) t
