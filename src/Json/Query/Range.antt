-- ===== src/Json/Query/Range.antt =====
-- json_array_get finds an element exactly at the indices below json_array_len.
use bash_agent.Base.{
  Bool-cases, Bytes, arith, if◌then◌else◌, inl, inr, length, next, peek, suc, zero, ℕ, ◌+◌, ◌<◌,
  ◌==◌, ◌≡◌, ◌≤◌,
}
use bash_agent.Json.Parse.{json_parse}
use bash_agent.Json.Query.{
  Count, Lookup, counted, elem_loop, elem_of, found, json_array_get, json_array_len, len_loop,
  len_of, look, missing, past_comma, tally,
}
use bash_agent.Json.Value.{Kind, Parse, Val, array, err, ok, overrun, skip_ws, stuck}

abbrev pub IsFound : Lookup → Type 0
IsFound (found v) = Unit
IsFound _ = ⊥

-- the element loop finds `index` just when the count passes it
abbrev Agrees : ℕ → ℕ → Lookup → Type 0
Agrees n index l = (index < n → IsFound l) × (n ≤ index → l ≡ missing)

tally-le :
    (p : Parse) (count : ℕ) (go : Bytes → Count) {n : ℕ}
    → ((s : Bytes) → go s ≡ counted n → count + 1 ≤ n)
    → tally p count go ≡ counted n
    → count ≤ n
tally-le (ok v r) count go good e = ground (arith, good (next (skip_ws r)))
tally-le (err _) count go good e = ground arith
tally-le overrun count go good e = cc
tally-le stuck count go good e = cc

len_loop-le : (f count : ℕ) (s : Bytes) {n : ℕ} → len_loop f count s ≡ counted n → count ≤ n
unfolding len_loop
len_loop-le zero count s e = cc
len_loop-le (suc f) count s e =
    tally-le (json_parse (skip_ws s)) count _ (λ r. len_loop-le f (count + 1) r) e

look-Agrees :
    (p : Parse) (count index : ℕ) (go : Bytes → Count) (get : Bytes → Lookup) {n : ℕ}
    → ((s : Bytes) → go s ≡ counted n → count + 1 ≤ n)
    → ((s : Bytes) → go s ≡ counted n → count + 1 ≤ index → Agrees n index (get s))
    → tally p count go ≡ counted n
    → count ≤ index
    → Agrees n index (look p (λ v r. if count == index then found v else past_comma get r))
look-Agrees (ok v r) count index go get le good e h =
    let s = next (skip_ws r) in ground (arith, le s, good s)
look-Agrees (err _) count index go get le good e h = ground arith
look-Agrees overrun count index go get le good e h = cc
look-Agrees stuck count index go get le good e h = cc

elem_loop-Agrees :
    (f count index : ℕ) (s : Bytes) {n : ℕ}
    → len_loop f count s ≡ counted n
    → count ≤ index
    → Agrees n index (elem_loop f index count s)
unfolding len_loop elem_loop
elem_loop-Agrees zero count index s e h = cc
elem_loop-Agrees (suc f) count index s e h =
    look-Agrees (json_parse (skip_ws s)) count index _ _ (λ r. len_loop-le f (count + 1) r)
      (λ r. elem_loop-Agrees f (count + 1) index r) e h

of-Agrees :
    (k : Kind) (index : ℕ) (s : Bytes) {n : ℕ}
    → len_of k s ≡ counted n
    → Agrees n index (elem_of k index s)
unfolding len_of elem_of
of-Agrees array index s e = elim (Bool-cases (peek s == b']')) [
  | inl c ↦ ground arith
  | inr c ↦ rw c (elem_loop-Agrees (suc (length s)) 0 index s (rw c at e) (omega arith))
]
of-Agrees _ index s e = ground arith

-- With `json_array_len arr` = n, json_array_get finds an element at every index below n, and
-- none from n on.
pub json_array_get_range :
    (arr : Val) (index : ℕ) {n : ℕ}
    → json_array_len arr ≡ counted n
    → (index < n → IsFound (json_array_get arr index))
      × (n ≤ index → json_array_get arr index ≡ missing)
unfolding json_array_len json_array_get
json_array_get_range arr index e = of-Agrees arr.kind index (skip_ws (next arr.src)) e
