-- ===== src/Tools/Format/Shortened.antt =====
-- How long the output of tool_format_result is.
use bash_agent.Base.{
  Bool-cases, Bytes, [], ap, arith, codes, false, inl, inr, leb, length, length-append, length-take,
  ltb, min, refl, some, take, true, ℕ, ◌%◌, ◌&&◌, ◌++◌, ◌+◌, ◌-◌, ◌/◌, ◌<◌, ◌==◌, ◌^◌, ◌∷◌, ◌≡◌,
  ◌≤◌,
}
use bash_agent.Tools.Format.{feeds, format_result, head_len, marker, shortened, tail_from}
use bash_agent.Util.Decimal.{decimal, length-decimal}

tail_from-suffix : (n : ℕ) (s : Bytes) → (p : Bytes) × (p ++ tail_from n s ≡ s)
unfolding tail_from
tail_from-suffix n [] = ([], refl)
tail_from-suffix n (c ∷ s) = elim (Bool-cases (ltb (feeds (c ∷ s)) n)) [
  | inl e ↦ rw e ([], refl)
  | inr e ↦ elim (Bool-cases (c == b'\n' && feeds s + 1 == n)) [
    | inl d ↦ rw (e, d) (c ∷ [], refl)
    | inr d ↦ let (p, same) = tail_from-suffix n s in rw (e, d) (c ∷ p, ap (◌∷◌ c) same)
  ]
]

length-tail_from : (n : ℕ) (s : Bytes) → length (tail_from n s) ≤ length s
length-tail_from n s =
    let (p, same) = tail_from-suffix n s in
    omega (arith, length-append p (tail_from n s), ap (length {A = ℕ}) same)

tail_from_few : (n : ℕ) (s : Bytes) → feeds s < n → tail_from n s ≡ s
unfolding tail_from
tail_from_few n [] h = refl
tail_from_few n (c ∷ s) h = let few : ltb (feeds (c ∷ s)) n ≡ true = ground arith in rw few refl

-- the wrapped subtraction, where the text is shorter than half of the numbers
head_len-fits :
    (len max_bytes rest : ℕ) (tail_len : ℕ)
    → len < 2 ^ 63
    → rest + tail_len ≤ max_bytes
    → max_bytes < len
    → head_len len max_bytes rest tail_len ≡ max_bytes - (rest + tail_len)
unfolding head_len
head_len-fits len max_bytes rest tail_len b h lt =
    let wrapped = (max_bytes + 2 ^ 64 - (rest + tail_len)) % 2 ^ 64 in
    let same : wrapped ≡ max_bytes - (rest + tail_len) = omega arith in
    let short : ltb len wrapped ≡ false = ground (arith, same) in rw short same

head_len-wraps :
    (len max_bytes rest : ℕ) (tail_len : ℕ)
    → len < 2 ^ 62
    → rest < 2 ^ 62
    → tail_len ≤ len
    → max_bytes < rest + tail_len
    → head_len len max_bytes rest tail_len ≡ len / 2
unfolding head_len
head_len-wraps len max_bytes rest tail_len b d le lt =
    let wrapped = (max_bytes + 2 ^ 64 - (rest + tail_len)) % 2 ^ 64 in
    let same : wrapped ≡ max_bytes + 2 ^ 64 - (rest + tail_len) = omega arith in
    let long : ltb len wrapped ≡ true = ground (arith, same) in rw long refl

-- the text that tool_format_result keeps of the beginning
abbrev pub kept_head : Bytes → ℕ → ℕ
kept_head output max_bytes =
    head_len (length output) max_bytes (length (marker (length output)))
      (length (tail_from 5 output))

length-shortened :
    (output : Bytes) (max_bytes : ℕ)
    → length (shortened output max_bytes)
      ≡ min (kept_head output max_bytes) (length output)
        + (length (marker (length output)) + length (tail_from 5 output))
unfolding shortened
length-shortened output max_bytes = omega (
  arith,
  length-append (take (kept_head output max_bytes) output)
      (marker (length output) ++ tail_from 5 output),
  length-append (marker (length output)) (tail_from 5 output),
  length-take (kept_head output max_bytes) output,
)

length-marker : (n : ℕ) → n < 2 ^ 31 → length (marker n) ≤ 83
unfolding marker
length-marker n h =
    omega
      (arith, length-append (decimal n) (codes " bytes ...]\n\n"), length-decimal 9 n (omega arith))

-- tool_format_result leaves a text of at most `max_bytes` bytes as it is. Where the last lines of
-- a longer one and the marker fit, it fills the bound exactly; where they do not, it keeps half of
-- the text in front of the marker and the last lines, and so exceeds the bound.
pub format_result_lem :
    (output : Bytes) (max_bytes : ℕ)
    → length output < 2 ^ 31
    → let fixed = length (marker (length output)) + length (tail_from 5 output) in
      (length output ≤ max_bytes → format_result (some output) max_bytes ≡ output)
      × (max_bytes < length output
          → fixed ≤ max_bytes
          → length (format_result (some output) max_bytes) ≡ max_bytes)
      × (max_bytes < length output
          → max_bytes < fixed
          → length (format_result (some output) max_bytes) ≡ length output / 2 + fixed)
unfolding format_result
format_result_lem output max_bytes b =
    let len = length output in
    let rest = length (marker len) in
    let last = length (tail_from 5 output) in
    let size = length-shortened output max_bytes in
    let below = length-tail_from 5 output in
    let line = length-marker len b in
    (
      λ h. let short : leb len max_bytes ≡ true = ground arith in rw short refl,
      λ h k.
          let long : leb len max_bytes ≡ false = ground arith in
          rw long (omega (arith, size, head_len-fits len max_bytes rest last (omega arith) k h)),
      λ h k.
          let long : leb len max_bytes ≡ false = ground arith in
          rw long (
            omega (
              arith,
              size,
              head_len-wraps len max_bytes rest last (omega arith) (omega arith) below k,
            )),
    )

-- A text of more than `max_bytes` bytes with fewer than five line feeds comes out longer than it
-- was: all of it counts as the last lines, and half of it is put in front.
pub format_result_grows :
    (output : Bytes) (max_bytes : ℕ)
    → length output < 2 ^ 31
    → max_bytes < length output
    → feeds output < 5
    → length (format_result (some output) max_bytes)
      ≡ length output / 2 + length (marker (length output)) + length output
format_result_grows output max_bytes b h few =
    let whole = ap (length {A = ℕ}) (tail_from_few 5 output few) in
    let (same, fills, exceeds) = format_result_lem output max_bytes b in
    omega (arith, exceeds h (omega arith), whole)
