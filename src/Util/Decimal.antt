-- ===== src/Util/Decimal.antt =====
-- Decimal numbers in text: what `%d` and `%ld` print of a number that is not negative, and the
-- digits that strtol reads.
use bash_agent.Base.{
  Bool-cases, Bytes, [], ap, arith, false, if◌then◌else◌, inl, inr, length, ltb, peek, refl, suc,
  true, within, zero, ℕ, ◌%◌, ◌*◌, ◌++◌, ◌+◌, ◌-◌, ◌/◌, ◌<◌, ◌∙◌, ◌∷◌, ◌≡◌, ◌≤◌,
}

-- the digits of `n` in front of `s`, on fuel
unfoldable pub digits_from : ℕ → ℕ → Bytes → Bytes
digits_from zero n s = s
digits_from (suc f) n s =
    let t = (b'0' + n % 10) ∷ s in
    let more = digits_from f (n / 10) t in if ltb n 10 then t else more

unfoldable pub decimal : ℕ → Bytes
unfolding digits_from
decimal n = digits_from (suc n) n []

-- the digits of strtol, with the value so far and without its saturation
unfoldable pub read_digits : ℕ → Bytes → ℕ × Bytes
read_digits n [] = (n, [])
read_digits n (c ∷ s) =
    if within b'0' b'9' c then read_digits (n * 10 + (c - b'0')) s else (n, c ∷ s)

digits_from-append : (f n : ℕ) (s t : Bytes) → digits_from f n s ++ t ≡ digits_from f n (s ++ t)
unfolding digits_from
digits_from-append zero n s t = refl
digits_from-append (suc f) n s t = elim (Bool-cases (ltb n 10)) [
  | inl e ↦ rw e refl
  | inr e ↦ rw e (digits_from-append f (n / 10) ((b'0' + n % 10) ∷ s) t)
]

read_digits-digits_from :
    (f n : ℕ) (s : Bytes) → n < f → read_digits 0 (digits_from f n s) ≡ read_digits n s
unfolding digits_from read_digits
read_digits-digits_from zero n s h = absurd (omega arith)
read_digits-digits_from (suc f) n s h =
    let digit : within b'0' b'9' (b'0' + n % 10) ≡ true = ground arith in
    elim (Bool-cases (ltb n 10)) [
      | inl e ↦
          let lt : n < 10 = ground arith in rw (e, digit) (ap (λ x. read_digits x s) (omega arith))
      | inr e ↦
          let le : 10 ≤ n = ground arith in
          rw e (
            read_digits-digits_from f (n / 10) ((b'0' + n % 10) ∷ s) (omega arith)
            ∙ rw digit (ap (λ x. read_digits x s) (omega arith)))
    ]

read_digits-end :
    (n : ℕ) (rest : Bytes) → within b'0' b'9' (peek rest) ≡ false → read_digits n rest ≡ (n, rest)
unfolding read_digits
read_digits-end n [] h = refl
read_digits-end n (c ∷ s) h = rw h refl

peek-digits_from : (f n : ℕ) (s : Bytes) → within b'0' b'9' (peek (digits_from (suc f) n s)) ≡ true
unfolding digits_from
peek-digits_from zero n s = elim (Bool-cases (ltb n 10)) [
  | inl e ↦ rw e (ground arith)
  | inr e ↦ rw e (ground arith)
]
peek-digits_from (suc f) n s = elim (Bool-cases (ltb n 10)) [
  | inl e ↦ rw e (ground arith)
  | inr e ↦ rw e (peek-digits_from f (n / 10) ((b'0' + n % 10) ∷ s))
]

-- Reading back a printed number, with something that is no digit behind it.
pub read_digits-decimal :
    (n : ℕ) (rest : Bytes)
    → within b'0' b'9' (peek rest) ≡ false
    → read_digits 0 (decimal n ++ rest) ≡ (n, rest)
unfolding decimal
read_digits-decimal n rest h =
    ap (read_digits 0) (digits_from-append (suc n) n [] rest)
    ∙ read_digits-digits_from (suc n) n rest (omega arith)
    ∙ read_digits-end n rest h

-- A printed number begins with a digit.
pub peek-decimal : (n : ℕ) (rest : Bytes) → within b'0' b'9' (peek (decimal n ++ rest)) ≡ true
unfolding decimal
peek-decimal n rest =
    ap (λ x. within b'0' b'9' (peek x)) (digits_from-append (suc n) n [] rest)
    ∙ peek-digits_from n n rest

-- a power of ten
abbrev pub ten_power : ℕ → ℕ
ten_power zero = 1
ten_power (suc k) = 10 * ten_power k

length-digits_from :
    (f k n : ℕ) (s : Bytes) → n < ten_power (suc k) → length (digits_from f n s) ≤ suc k + length s
unfolding digits_from
length-digits_from zero k n s h = omega arith
length-digits_from (suc f) zero n s h =
    let one_digit : ltb n 10 ≡ true = ground arith in rw one_digit (omega arith)
length-digits_from (suc f) (suc k) n s h =
    let shorter = length-digits_from f k (n / 10) ((b'0' + n % 10) ∷ s) (omega arith) in
    elim (Bool-cases (ltb n 10)) [ inl e ↦ rw e (omega arith) | inr e ↦ rw e (omega arith) ]

-- A number below a power of ten has no more digits than that power.
pub length-decimal : (k n : ℕ) → n < ten_power (suc k) → length (decimal n) ≤ suc k
unfolding decimal
length-decimal k n h = omega (arith, length-digits_from (suc n) k n [] h)
