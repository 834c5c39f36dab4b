-- ===== src/Json/Printed/Arrays.antt =====
-- Arrays that the program prints element by element.
use bash_agent.Base.{
  All, Bytes, List, [], append_assoc, arith, false, length, length-append, peek, refl, suc, zero, ℕ,
  ◌*◌, ◌++◌, ◌<◌, ◌==◌, ◌∙◌, ◌∷◌, ◌≡◌,
}
use bash_agent.Json.Parse.{after_item, items, members, parse_at}
use bash_agent.Json.Printed.{IsElement, IsEnd, IsPrinted, skip_ws-element, value-at}
use bash_agent.Json.Quoted.{make_val_append}
use bash_agent.Json.Value.{Kind, Parse, array, make_val, skip_ws}

-- the elements behind the first, and the closing bracket
abbrev pub more_items : List Bytes → Bytes
more_items [] = b']' ∷ []
more_items (v ∷ vs) = b',' ∷ (v ++ more_items vs)

abbrev pub array_text : Bytes → List Bytes → Bytes
array_text v vs = b'[' ∷ (v ++ more_items vs)

abbrev pub AllElements : List Bytes → Type 0
AllElements = All (λ v. (k : Kind) × IsElement k v)

-- one round of parse_array
items-step :
    (f : ℕ) (start v r : Bytes) {k : Kind}
    → IsElement k v
    → IsEnd r
    → 2 * length v < f
    → items (suc f) start (v ++ r) ≡ after_item (items f) start r
unfolding items
items-step f start v r e end h = rw (skip_ws-element e r, e.printed f r end h)

more_items-end :
    (loop : Bytes → Bytes → Parse) (start rest : Bytes)
    → after_item loop start (b']' ∷ rest) ≡ make_val array start rest
unfolding after_item skip_ws
more_items-end loop start rest = refl

more_items-comma :
    (loop : Bytes → Bytes → Parse) (start r : Bytes)
    → after_item loop start (b',' ∷ r) ≡ loop start r
unfolding after_item skip_ws
more_items-comma loop start r = refl

-- The loop of parse_array reads printed elements up to the closing bracket.
items-printed :
    (f : ℕ) (start v : Bytes) (vs : List Bytes) (rest : Bytes)
    → (k : Kind) × IsElement k v
    → AllElements vs
    → 2 * length (v ++ more_items vs) < f
    → items f start (v ++ more_items vs ++ rest) ≡ make_val array start rest
items-printed zero start v vs rest e h lt = absurd (omega arith)
items-printed (suc f) start v [] rest (k, e) h lt = rw append_assoc (
    items-step f start v (b']' ∷ rest) e refl (omega (arith, length-append v (b']' ∷ [])))
    ∙ more_items-end (items f) start rest)
items-printed (suc f) start v (w ∷ vs) rest (k, e) (e', h) lt =
    let bound = length-append v (more_items (w ∷ vs)) in
    rw append_assoc (
      items-step f start v (b',' ∷ (w ++ more_items vs ++ rest)) e refl (omega (arith, bound))
      ∙ more_items-comma (items f) start (w ++ more_items vs ++ rest)
      ∙ items-printed f start w vs rest e' h (omega (arith, bound)))

parse_at-array :
    (element_loop member_loop : Bytes → Bytes → Parse) (s : Bytes)
    → (peek (skip_ws s) == b']') ≡ false
    → parse_at element_loop member_loop (b'[' ∷ s) ≡ element_loop (b'[' ∷ s) (skip_ws s)
unfolding parse_at
parse_at-array element_loop member_loop s h = rw h

peek-append : (v r : Bytes) → 0 < length v → peek (v ++ r) ≡ peek v
peek-append [] r h = absurd (omega arith)
peek-append (c ∷ v) r h = refl

-- A printed array whose first element does not begin with a bracket that closes is one value.
pub array_text-IsPrinted :
    (v : Bytes) (vs : List Bytes)
    → (k : Kind) × IsElement k v
    → (peek v == b']') ≡ false
    → AllElements vs
    → IsPrinted array (array_text v vs)
array_text-IsPrinted v vs e n h zero rest lt = absurd (omega arith)
array_text-IsPrinted v vs (k, e) n h (suc f) rest lt =
    let s = v ++ more_items vs ++ rest in
    let same : skip_ws s ≡ s = rw append_assoc (skip_ws-element e (more_items vs ++ rest)) in
    value-at f b'[' s refl
    ∙ parse_at-array (items f) (members f) s
        (rw (same, append_assoc, peek-append v (more_items vs ++ rest) e.not_empty) n)
    ∙ rw same (
        items-printed f (b'[' ∷ s) v vs rest (k, e) h (omega arith)
        ∙ make_val_append array (array_text v vs) rest)
