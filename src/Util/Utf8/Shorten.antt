-- ===== src/Util/Utf8/Shorten.antt =====
-- util_truncate_str and util_truncate_chars of c/util.c.
use bash_agent.Base.{
  Bool-cases, Bytes, [], arith, false, inl, inr, leb, leb→le, length, length-append, length-take,
  ltb, min, refl, suc, take, zero, ℕ, ◌++◌, ◌+◌, ◌-◌, ◌<◌, ◌∷◌, ◌≡◌, ◌≤◌,
}
use bash_agent.Util.Utf8.{
  char_count, chars_cut, dots, is_tail, str_cut, truncate_chars, truncate_str,
}
use bash_agent.Util.Utf8.Cut.{truncate_len_lem}
use bash_agent.Util.Utf8.Sanitized.{IsSanitary, done, four, one, three, two}

IsSanitary-append : {s t : Bytes} → IsSanitary s → IsSanitary t → IsSanitary (s ++ t)
IsSanitary-append done k = k
IsSanitary-append (one p h) k = one p (IsSanitary-append h k)
IsSanitary-append (two p q h) k = two p q (IsSanitary-append h k)
IsSanitary-append (three p q r h) k = three p q r (IsSanitary-append h k)
IsSanitary-append (four p q r o h) k = four p q r o (IsSanitary-append h k)

dots-IsSanitary : IsSanitary dots
dots-IsSanitary = one (omega arith) (one (omega arith) (one (omega arith) done))

length-dots : (s : Bytes) (n : ℕ) → length (take n s ++ dots) ≤ n + 3
length-dots s n = omega (arith, length-append (take n s) dots, length-take n s)

-- With a bound of at least the three bytes of the dots, util_truncate_str gives a text within the
-- bound, writes no byte behind the terminator of its buffer, and cuts a text of whole characters
-- into whole characters.
pub truncate_str_lem :
    (s : Bytes) (max_total : ℕ)
    → 3 ≤ max_total
    → (length (truncate_str s max_total) ≤ max_total)
      × (max_total < length s → str_cut s max_total + 3 ≤ length s)
      × (IsSanitary s → IsSanitary (truncate_str s max_total))
unfolding truncate_str
truncate_str_lem s max_total h =
    let (same, cut, whole) = truncate_len_lem s (max_total - 3) in
    elim (Bool-cases (leb (length s) max_total)) [
      | inl e ↦ rw e (leb→le (length s) max_total e, λ lt. absurd (ground arith), λ k. k)
      | inr e ↦
          let long : max_total < length s = ground arith in
          let (le, start, more) = cut (omega arith) in
          rw e (
            omega (arith, length-dots s (str_cut s max_total)),
            λ lt. omega arith,
            λ k. IsSanitary-append (whole k) dots-IsSanitary,
          )
    ]

char_count-append : (s t : Bytes) → char_count (s ++ t) ≡ char_count s + char_count t
unfolding char_count
char_count-append [] t = omega arith
char_count-append (c ∷ s) t = omega (arith, char_count-append s t)

char_count-take_nil : (n : ℕ) → char_count (take n []) ≡ 0
unfolding char_count
char_count-take_nil zero = refl
char_count-take_nil (suc n) = refl

char_count-dots : char_count dots ≡ 3
unfolding char_count
char_count-dots = refl

-- the loop of util_truncate_chars keeps the bytes up to the first one of the last character
char_count-chars_cut :
    (s : Bytes) (count target : ℕ)
    → char_count (take (chars_cut s count target) s) ≡ min (target - count) (char_count s)
unfolding char_count chars_cut
char_count-chars_cut [] count target =
    omega (arith, char_count-take_nil (chars_cut [] count target))
char_count-chars_cut (c ∷ s) count target = elim (Bool-cases (ltb count target)) [
  | inr e ↦ let le : target ≤ count = ground arith in rw e (omega arith)
  | inl e ↦
      let lt : count < target = ground arith in
      rw e (elim (Bool-cases (is_tail c)) [
        | inl d ↦ rw d (omega (arith, char_count-chars_cut s (count + 0) target))
        | inr d ↦ rw d (omega (arith, char_count-chars_cut s (count + 1) target))
      ])
]

-- util_truncate_chars leaves a text of at most `max_chars` characters as it is; of a longer one
-- it makes a text of `max_chars` characters, where `max_chars` is at least 3.
pub truncate_chars_lem :
    (s : Bytes) (max_chars : ℕ)
    → (char_count s ≤ max_chars → truncate_chars s max_chars ≡ s)
      × (3 ≤ max_chars
          → max_chars < char_count s
          → char_count (truncate_chars s max_chars) ≡ max_chars)
unfolding truncate_chars
truncate_chars_lem s max_chars = elim (Bool-cases (leb (char_count s) max_chars)) [
  | inl e ↦ rw e (λ h. refl, λ h k. absurd (ground arith))
  | inr e ↦ rw e (
    λ h. absurd (ground arith),
    λ h k. omega (
      arith,
      char_count-append (take (chars_cut s 0 (max_chars - 3)) s) dots,
      char_count-chars_cut s 0 (max_chars - 3),
      char_count-dots,
    ),
  )
]

broken : (a : ℕ) → (0xC2 ≤ a) × (a ≤ 0xDF) → ¬ IsSanitary (a ∷ dots)
broken a p (one q h) = absurd (omega arith)
broken a p (two q r h) = absurd (omega arith)
broken a p (three q r o h) = absurd (omega arith)
broken a p (four q r o u h) = absurd (omega arith)

-- util_truncate_chars stops behind the first byte of the last character that it keeps: a longer
-- text that starts with a character of two bytes, cut at four characters, is no text of whole
-- characters.
pub truncate_chars_splits :
    (a b : ℕ) (s : Bytes)
    → (0xC2 ≤ a) × (a ≤ 0xDF)
    → (0x80 ≤ b) × (b ≤ 0xBF)
    → 4 < char_count (a ∷ b ∷ s)
    → ¬ IsSanitary (truncate_chars (a ∷ b ∷ s) 4)
unfolding truncate_chars chars_cut
truncate_chars_splits a b s p q h k =
    let long : leb (char_count (a ∷ b ∷ s)) 4 ≡ false = ground arith in
    let first : is_tail a ≡ false = ground arith in broken a p (rw (long, first) at k)
