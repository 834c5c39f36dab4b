-- ===== src/Json/Parse/Total.antt =====
-- json_parse ends: the fuel never runs out, and what it returns is a view of the input.
use bash_agent.Base.{
  Bool, Bool-cases, Bytes, [], ap, append_assoc, arith, codes, false, if◌then◌else◌, inl, inr,
  length, length-append, next, peek, refl, starts_with, starts_with_sound, suc, sym, take-append,
  true, zero, ℕ, ◌*◌, ◌++◌, ◌+◌, ◌-◌, ◌<◌, ◌==◌, ◌||◌, ◌∙◌, ◌∷◌, ◌≡◌, ◌≤◌,
}
use bash_agent.Json.Parse.{
  after_item, after_key, after_member, fuel, items, json_parse, members, parse_array, parse_at,
  parse_object, parse_word, value, ◌>>=◌,
}
use bash_agent.Json.Value.{
  Error, Kind, Parse, Scan, Val, array, bool, closed, err, expected_false, expected_null,
  expected_true, is_digit, is_ws, make_val, null, number, object, ok, overrun, parse_number,
  parse_string, parse_string_end, past_end, scan, skip_digits, skip_either, skip_exponent,
  skip_fraction, skip_ws, string, stuck, text, unclosed,
}
use bash_agent.Util.Escape.{backslash, quote}

-- `r` is what is left of `s` behind at least one byte.
abbrev pub Rest : Bytes → Bytes → Type 0
Rest s r = (p : Bytes) × (p ++ r ≡ s) × (0 < length p)

-- Not out of fuel; and a value that starts at `s` ends where the rest of the input begins.
abbrev pub IsView : Bytes → Parse → Type 0
IsView s (ok v r) = (v.src ≡ s) × (text v ++ r ≡ s) × Rest s r
IsView s (err e) = Unit
IsView s overrun = Unit
IsView s stuck = ⊥

abbrev pub Tail : Bytes → Bytes → Type 0
Tail s r = (p : Bytes) × (p ++ r ≡ s)

pub Tail-trans : {s t r : Bytes} → Tail s t → Tail t r → Tail s r
Tail-trans {r} (p, e) (q, d) = (p ++ q, append_assoc p q r ∙ ap (λ x. p ++ x) d ∙ e)

Rest-Tail : {s t r : Bytes} → Rest s t → Tail t r → Rest s r
Rest-Tail {r} (p, e, h) (q, d) =
    (p ++ q, append_assoc p q r ∙ ap (λ x. p ++ x) d ∙ e, omega (arith, length-append p q))

length-Tail : {s r : Bytes} → Tail s r → length r ≤ length s
length-Tail {r} (p, e) = omega (arith, length-append p r, ap (length {A = ℕ}) e)

pub length-Rest : {s r : Bytes} → Rest s r → length r < length s
length-Rest {r} (p, e, h) = omega (arith, length-append p r, ap (length {A = ℕ}) e)

pub skip_ws-Tail : (s : Bytes) → Tail s (skip_ws s)
unfolding skip_ws
skip_ws-Tail [] = ([], refl)
skip_ws-Tail (c ∷ s) = elim (Bool-cases (is_ws c)) [
  | inl w ↦ rw w (let (p, e) = skip_ws-Tail s in (c ∷ p, ap (◌∷◌ c) e))
  | inr w ↦ rw w ([], refl)
]

skip_digits-Tail : (s : Bytes) → Tail s (skip_digits s)
unfolding skip_digits
skip_digits-Tail [] = ([], refl)
skip_digits-Tail (c ∷ s) = elim (Bool-cases (is_digit c)) [
  | inl w ↦ rw w (let (p, e) = skip_digits-Tail s in (c ∷ p, ap (◌∷◌ c) e))
  | inr w ↦ rw w ([], refl)
]

next-Tail : (s : Bytes) → Tail s (next s)
next-Tail [] = ([], refl)
next-Tail (c ∷ s) = (c ∷ [], refl)

pub next-Rest : (s : Bytes) → 0 < peek s → Rest s (next s)
next-Rest [] h = absurd (omega arith)
next-Rest (c ∷ s) h = (c ∷ [], refl, omega arith)

if-Tail : (b : Bool) {s t u : Bytes} → Tail s t → Tail s u → Tail s (if b then t else u)
if-Tail true x y = x
if-Tail false x y = y

make_val-IsView : (k : Kind) {s r : Bytes} → Rest s r → IsView s (make_val k s r)
make_val-IsView k {s} {r} (p, e, h) =
    let n : length s - length r ≡ length p =
      omega (arith, length-append p r, ap (length {A = ℕ}) e) in
    (refl, rw (n, ← e) (ap (λ x. x ++ r) (take-append p r)), (p, e, h))

abbrev ScanRest : Bytes → Scan → Type 0
ScanRest s (closed r) = Rest s r
ScanRest s unclosed = Unit
ScanRest s past_end = Unit

ScanRest-cons : (c : ℕ) (s : Bytes) (x : Scan) → ScanRest s x → ScanRest (c ∷ s) x
ScanRest-cons c s (closed r) (p, e, h) = (c ∷ p, ap (◌∷◌ c) e, omega arith)
ScanRest-cons c s unclosed h = tt
ScanRest-cons c s past_end h = tt

scan-ScanRest : (b : Bool) (s : Bytes) → ScanRest s (scan b s)
unfolding scan
scan-ScanRest true [] = tt
scan-ScanRest false [] = tt
scan-ScanRest true (c ∷ s) = ScanRest-cons c s _ (scan-ScanRest false s)
scan-ScanRest false (c ∷ s) = elim (Bool-cases (c == quote)) [
  | inl q ↦ rw q (c ∷ [], refl, omega arith)
  | inr q ↦ rw q (ScanRest-cons c s _ (scan-ScanRest (c == backslash) s))
]

parse_string_end-IsView :
    (s : Bytes) (x : Scan) → ScanRest (next s) x → IsView s (parse_string_end s x)
unfolding parse_string_end
parse_string_end-IsView [] (closed r) h = make_val-IsView string h
parse_string_end-IsView (c ∷ s) (closed r) (p, e, h) =
    make_val-IsView string (c ∷ p, ap (◌∷◌ c) e, omega arith)
parse_string_end-IsView s unclosed h = tt
parse_string_end-IsView s past_end h = tt

pub parse_string-IsView : (s : Bytes) → IsView s (parse_string s)
unfolding parse_string
parse_string-IsView [] = tt
parse_string-IsView (c ∷ s) = parse_string_end-IsView (c ∷ s) (scan false s) (scan-ScanRest false s)

skip_digits-Rest : (s : Bytes) → is_digit (peek s) ≡ true → Rest s (skip_digits s)
unfolding skip_digits
skip_digits-Rest [] h = cc
skip_digits-Rest (c ∷ s) h =
    rw h (let (p, e) = skip_digits-Tail s in (c ∷ p, ap (◌∷◌ c) e, omega arith))

skip_fraction-Tail : (s : Bytes) → Tail s (skip_fraction s)
skip_fraction-Tail s =
    if-Tail (peek s == b'.') (Tail-trans (next-Tail s) (skip_digits-Tail (next s))) ([], refl)

skip_exponent-Tail : (s : Bytes) → Tail s (skip_exponent s)
skip_exponent-Tail s =
    let t = skip_either b'+' b'-' (next s) in
    if-Tail (peek s == b'e' || peek s == b'E')
      (Tail-trans (next-Tail s) (
        Tail-trans
          (if-Tail (peek (next s) == b'+' || peek (next s) == b'-') (next-Tail (next s)) ([], refl))
          (skip_digits-Tail t)))
      ([], refl)

skip_sign-Rest :
    (s : Bytes)
    → (peek s == b'-' || is_digit (peek s)) ≡ true
    → Rest s (skip_digits (skip_either b'-' b'-' s))
skip_sign-Rest s h = elim (Bool-cases (peek s == b'-')) [
  | inl m ↦ rw m (Rest-Tail (next-Rest s (ground arith)) (skip_digits-Tail (next s)))
  | inr m ↦ rw m (skip_digits-Rest s (ground arith))
]

parse_number-IsView :
    (s : Bytes) → (peek s == b'-' || is_digit (peek s)) ≡ true → IsView s (parse_number s)
unfolding parse_number
parse_number-IsView s h =
    let t = skip_digits (skip_either b'-' b'-' s) in
    make_val-IsView number (
      Rest-Tail (skip_sign-Rest s h)
        (Tail-trans (skip_fraction-Tail t) (skip_exponent-Tail (skip_fraction t))))

parse_word-IsView :
    (w : Bytes) (k : Kind) (e : Error) (s : Bytes) → 0 < length w → IsView s (parse_word w k e s)
unfolding parse_word
parse_word-IsView w k e s h = elim (Bool-cases (starts_with s w)) [
  | inl f ↦ rw f (make_val-IsView k (w, sym (starts_with_sound s w f), h))
  | inr f ↦ rw f tt
]

-- what the loops of parse_array and parse_object promise: they go on from `s` inside `start`
abbrev IsLoop : ℕ → (Bytes → Bytes → Parse) → Type 0
IsLoop n loop =
    (start s : Bytes) → Rest start s → 2 * length s + 1 < n → IsView start (loop start s)

if-IsView :
    (s : Bytes) (b : Bool) (x y : Parse)
    → (b ≡ true → IsView s x)
    → (b ≡ false → IsView s y)
    → IsView s (if b then x else y)
if-IsView s true x y f g = f refl
if-IsView s false x y f g = g refl

after_skip : (s : Bytes) → 0 < peek s → Rest s (skip_ws (next s))
after_skip s h = Rest-Tail (next-Rest s h) (skip_ws-Tail (next s))

closing : (c : ℕ) {s t : Bytes} → 0 < c → (peek t == c) ≡ true → Rest s t → Rest s (next t)
closing c {t} h e r = Rest-Tail r (next-Tail t)

parse_array-IsView :
    (n : ℕ) (loop : Bytes → Bytes → Parse) (s : Bytes)
    → IsLoop n loop
    → 0 < peek s
    → 2 * length s ≤ n
    → IsView s (parse_array loop s)
unfolding parse_array
parse_array-IsView n loop s good h m =
    let r = after_skip s h in
    if-IsView s (peek (skip_ws (next s)) == b']') _ _
      (λ e. make_val-IsView array (Rest-Tail r (next-Tail _)))
      (λ e. good s _ r (omega (arith, length-Rest r)))

parse_object-IsView :
    (n : ℕ) (loop : Bytes → Bytes → Parse) (s : Bytes)
    → IsLoop n loop
    → 0 < peek s
    → 2 * length s ≤ n
    → IsView s (parse_object loop s)
unfolding parse_object
parse_object-IsView n loop s good h m =
    let r = after_skip s h in
    if-IsView s (peek (skip_ws (next s)) == b'}') _ _
      (λ e. make_val-IsView object (Rest-Tail r (next-Tail _)))
      (λ e. good s _ r (omega (arith, length-Rest r)))

parse_at-IsView :
    (n : ℕ) (items members : Bytes → Bytes → Parse) (s : Bytes)
    → IsLoop n items
    → IsLoop n members
    → 2 * length s ≤ n
    → IsView s (parse_at items members s)
unfolding parse_at
parse_at-IsView n element_loop member_loop s gi gm m =
    if-IsView s (peek s == quote) _ _ (λ _. parse_string-IsView s)
      λ _.
        if-IsView s (peek s == b'{') _ _
          (λ e. parse_object-IsView n member_loop s gm (ground arith) m)
          λ _.
            if-IsView s (peek s == b'[') _ _
              (λ e. parse_array-IsView n element_loop s gi (ground arith) m)
              λ _.
                if-IsView s (peek s == b't') _ _
                  (λ _. parse_word-IsView (codes "true") bool expected_true s (omega arith))
                  λ _.
                    if-IsView s (peek s == b'f') _ _
                      (λ _. parse_word-IsView (codes "false") bool expected_false s (omega arith))
                      λ _.
                        if-IsView s (peek s == b'n') _ _
                          (λ _. parse_word-IsView (codes "null") null expected_null s (omega arith))
                          λ _.
                            if-IsView s (peek s == b'-' || is_digit (peek s)) _ _
                              (parse_number-IsView s) (λ _. tt)

after_item-IsView :
    (n : ℕ) (loop : Bytes → Bytes → Parse) (start s : Bytes)
    → IsLoop n loop
    → Rest start s
    → 2 * length s ≤ n
    → IsView start (after_item loop start s)
unfolding after_item
after_item-IsView n loop start s good r m =
    let t = skip_ws s in
    let q : Rest start t = Rest-Tail r (skip_ws-Tail s) in
    if-IsView start (peek t == b',') _ _
      (λ e.
        let here : Rest t (next t) = next-Rest t (ground arith) in
        good start (next t) (Rest-Tail q (next-Tail t))
          (omega (arith, length-Rest here, length-Tail (skip_ws-Tail s))))
      λ _.
        if-IsView start (peek t == b']') _ _
          (λ _. make_val-IsView array (Rest-Tail q (next-Tail t))) (λ _. tt)

after_member-IsView :
    (n : ℕ) (loop : Bytes → Bytes → Parse) (start s : Bytes)
    → IsLoop n loop
    → Rest start s
    → 2 * length s ≤ n
    → IsView start (after_member loop start s)
unfolding after_member
after_member-IsView n loop start s good r m =
    let t = skip_ws s in
    let q : Rest start t = Rest-Tail r (skip_ws-Tail s) in
    if-IsView start (peek t == b',') _ _
      (λ e.
        let here : Rest t (next t) = next-Rest t (ground arith) in
        good start (next t) (Rest-Tail q (next-Tail t))
          (omega (arith, length-Rest here, length-Tail (skip_ws-Tail s))))
      λ _.
        if-IsView start (peek t == b'}') _ _
          (λ _. make_val-IsView object (Rest-Tail q (next-Tail t))) (λ _. tt)

-- what a step that returns no view promises: it ends, behind at least one byte of `s`
abbrev Ends : Bytes → Parse → Type 0
Ends s (ok v r) = Rest s r
Ends s (err e) = Unit
Ends s overrun = Unit
Ends s stuck = ⊥

IsView-Ends : (s : Bytes) (m : Parse) → IsView s m → Ends s m
IsView-Ends s (ok v r) h = h.2
IsView-Ends s (err e) h = tt
IsView-Ends s overrun h = tt
IsView-Ends s stuck h = h

Tail-Ends : {s t : Bytes} (m : Parse) → Tail s t → Ends t m → Ends s m
Tail-Ends {s} (ok v r) (p, e) (q, d, h) =
    (p ++ q, append_assoc p q r ∙ ap (λ x. p ++ x) d ∙ e, omega (arith, length-append p q))
Tail-Ends (err e) t h = tt
Tail-Ends overrun t h = tt
Tail-Ends stuck t h = h

-- a step read inside `start`, and what is done behind it
>>=-IsView :
    (start s : Bytes) (m : Parse) (k : Val → Bytes → Parse)
    → Tail start s
    → Ends s m
    → ((v : Val) (r : Bytes) → Rest start r → length r < length s → IsView start (k v r))
    → IsView start (m >>= k)
>>=-IsView start s (ok v r) k t h good = good v r (Tail-Ends (ok v r) t h) (length-Rest h)
>>=-IsView start s (err e) k t h good = tt
>>=-IsView start s overrun k t h good = tt
>>=-IsView start s stuck k t h good = h

after_key-Ends :
    (element : Bytes → Parse) (s : Bytes)
    → Ends (skip_ws (skip_ws (next (skip_ws s)))) (element (skip_ws (next (skip_ws s))))
    → Ends s (after_key element s)
unfolding after_key
after_key-Ends element s h =
    let t = skip_ws s in
    elim (Bool-cases (peek t == b':')) [
      | inl e ↦ rw e (
          Tail-Ends _
            (Tail-trans (skip_ws-Tail s) (
              Tail-trans (next-Tail t)
                (Tail-trans (skip_ws-Tail (next t)) (skip_ws-Tail (skip_ws (next t))))))
            h)
      | inr e ↦ rw e tt
    ]

pub length-skip_ws : (s : Bytes) → length (skip_ws s) ≤ length s
length-skip_ws s = length-Tail (skip_ws-Tail s)

pub length-next : (s : Bytes) → length (next s) ≤ length s
length-next s = length-Tail (next-Tail s)

mutual
  unfolding value

  value_view : (f : ℕ) (s : Bytes) → 2 * length s < f → IsView (skip_ws s) (value f s)
  value_view zero s h = absurd (omega arith)
  value_view (suc f) s h =
      parse_at-IsView f (items f) (members f) (skip_ws s) (items_view f) (members_view f)
        (omega (arith, length-skip_ws s))

  items_view : (f : ℕ) → IsLoop f (items f)
  items_view zero start s r h = absurd (omega arith)
  items_view (suc f) start s (p, e, place) h =
      >>=-IsView start (skip_ws (skip_ws s)) (value f (skip_ws s)) _
        (Tail-trans (p, e) (Tail-trans (skip_ws-Tail s) (skip_ws-Tail (skip_ws s))))
        (IsView-Ends _ _ (value_view f (skip_ws s) (omega (arith, length-skip_ws s))))
        λ v r q m.
          after_item-IsView f (items f) start r (items_view f) q
            (omega (arith, length-skip_ws s, length-skip_ws (skip_ws s)))

  members_view : (f : ℕ) → IsLoop f (members f)
  members_view zero start s r h = absurd (omega arith)
  members_view (suc f) start s (p, e, place) h =
      let t = skip_ws s in
      if-IsView start (peek t == quote) _ _
        (λ _.
          >>=-IsView start t (parse_string t) _ (Tail-trans (p, e) (skip_ws-Tail s))
            (IsView-Ends t _ (parse_string-IsView t))
            λ k r q m.
              let u = skip_ws (next (skip_ws r)) in
              let small : length u ≤ length r = omega (
                arith,
                length-skip_ws r,
                length-next (skip_ws r),
                length-skip_ws (next (skip_ws r)),
              ) in
              >>=-IsView start r (after_key (value f) r) _ (q.0, q.1)
                (after_key-Ends (value f) r
                  (IsView-Ends _ _ (value_view f u (omega (arith, length-skip_ws s)))))
                λ v x y z.
                  after_member-IsView f (members f) start x (members_view f) y
                    (omega (arith, length-skip_ws s)))
        (λ _. tt)

-- json_parse always ends: it returns an error, a value, or runs past the terminator. A value
-- starts at the first byte that is no white space, is not empty, and ends where the rest of the
-- input begins.
pub json_parse-IsView : (s : Bytes) → IsView (skip_ws s) (json_parse s)
unfolding json_parse
json_parse-IsView s = value_view (fuel s) s (omega arith)
