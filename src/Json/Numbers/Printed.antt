-- ===== src/Json/Numbers/Printed.antt =====
-- Printed integers as values of JSON.
use bash_agent.Base.{
  Bool, Bool-cases, Bytes, IsText, [], ap, append-nil, arith, false, inl, inr, length, lt→ltb,
  magnitude, negated, negsuc, peek, pos, refl, suc, take-append, true, within, zero, ℕ, ℤ, ◌*◌,
  ◌++◌, ◌+◌, ◌-◌, ◌<◌, ◌==◌, ◌^◌, ◌||◌, ◌∙◌, ◌∷◌, ◌≡◌,
}
use bash_agent.Json.Numbers.{int_of, int_text, json_get_int, positive_int, strtod_int}
use bash_agent.Json.Parse.{parse_at, value}
use bash_agent.Json.Printed.{IsElement, IsEnd, IsValue}
use bash_agent.Json.Printed.Objects.{value_view}
use bash_agent.Json.Query.{found, json_get, result}
use bash_agent.Json.Quoted.{make_val_append}
use bash_agent.Json.Value.{
  Val, is_digit, is_ws, make_val, number, parse_number, skip_digits, skip_either, skip_exponent,
  skip_fraction, skip_ws,
}
use bash_agent.Util.Decimal.{
  decimal, length-decimal, peek-decimal, read_digits, read_digits-decimal,
}
use bash_agent.Util.Printable.{decimal-IsText}

skip_digits-read_digits : (n : ℕ) (s : Bytes) → skip_digits s ≡ (read_digits n s).1
unfolding skip_digits read_digits
skip_digits-read_digits n [] = refl
skip_digits-read_digits n (c ∷ s) = elim (Bool-cases (is_digit c)) [
  | inl e ↦ rw e (skip_digits-read_digits (n * 10 + (c - b'0')) s)
  | inr e ↦ rw e refl
]

not_digit-IsEnd : (r : Bytes) → IsEnd r → is_digit (peek r) ≡ false
not_digit-IsEnd r h = ground arith

-- the digits of a printed number
skip_digits-decimal : (n : ℕ) (r : Bytes) → IsEnd r → skip_digits (decimal n ++ r) ≡ r
skip_digits-decimal n r h =
    skip_digits-read_digits 0 (decimal n ++ r)
    ∙ ap (λ x. x.1) (read_digits-decimal n r (not_digit-IsEnd r h))

-- nothing of a number follows
skip_tail-IsEnd : (r : Bytes) → IsEnd r → skip_exponent (skip_fraction r) ≡ r
skip_tail-IsEnd r h = ground arith

parse_number-from :
    (s t r : Bytes)
    → skip_either b'-' b'-' s ≡ t
    → skip_digits t ≡ r
    → IsEnd r
    → parse_number s ≡ make_val number s r
unfolding parse_number
parse_number-from s t r e d h = rw (e, d, skip_tail-IsEnd r h)

starts_digit-not_minus : (c : ℕ) → within b'0' b'9' c ≡ true → (c == b'-' || c == b'-') ≡ false
starts_digit-not_minus c h = ground arith

parse_number-decimal :
    (n : ℕ) (r : Bytes)
    → IsEnd r
    → parse_number (decimal n ++ r) ≡ make_val number (decimal n ++ r) r
parse_number-decimal n r h =
    parse_number-from (decimal n ++ r) (decimal n ++ r) r
      (rw (starts_digit-not_minus (peek (decimal n ++ r)) (peek-decimal n r)) refl)
      (skip_digits-decimal n r h) h

parse_number-int_text :
    (z : ℤ) (r : Bytes)
    → IsEnd r
    → parse_number (int_text z ++ r) ≡ make_val number (int_text z ++ r) r
unfolding int_text
parse_number-int_text (pos n) r h = parse_number-decimal n r h
parse_number-int_text (negsuc n) r h =
    parse_number-from (b'-' ∷ (decimal (suc n) ++ r)) (decimal (suc n) ++ r) r refl
      (skip_digits-decimal (suc n) r h) h

-- a byte that begins a number
abbrev begins_number : ℕ → Bool
begins_number c = c == b'-' || is_digit c

begins_number-int_text : (z : ℤ) (r : Bytes) → begins_number (peek (int_text z ++ r)) ≡ true
unfolding int_text
begins_number-int_text (pos n) r = ground (arith, peek-decimal n r)
begins_number-int_text (negsuc n) r = refl

value-number :
    (f : ℕ) (s : Bytes) → begins_number (peek s) ≡ true → value (suc f) s ≡ parse_number s
unfolding value parse_at skip_ws
value-number f [] h = absurd (cc)
value-number f (c ∷ s) h = ground arith

int_text-IsValue : (z : ℤ) → IsValue number (int_text z)
int_text-IsValue z zero r e h = absurd (omega arith)
int_text-IsValue z (suc f) r e h =
    value-number f (int_text z ++ r) (begins_number-int_text z r)
    ∙ parse_number-int_text z r e
    ∙ make_val_append number (int_text z) r

int_text-begins : (z : ℤ) → begins_number (peek (int_text z)) ≡ true
int_text-begins z = rw append-nil at (begins_number-int_text z [])

begins_number-facts :
    (s : Bytes) → begins_number (peek s) ≡ true → (is_ws (peek s) ≡ false) × (0 < length s)
begins_number-facts [] h = absurd (cc)
begins_number-facts (c ∷ s) h = (ground arith, omega arith)

-- A printed integer is a value of an object or an array.
pub int_text-IsElement : (z : ℤ) → IsElement number (int_text z)
int_text-IsElement z =
    let (no_space, not_empty) = begins_number-facts (int_text z) (int_text-begins z) in
    record { no_space = no_space; not_empty = not_empty; printed = int_text-IsValue z }

decimal-begins : (n : ℕ) → is_digit (peek (decimal n)) ≡ true
decimal-begins n = rw append-nil at (peek-decimal n [])

not_minus : (c : ℕ) → is_digit c ≡ true → (c == b'-') ≡ false
not_minus c h = ground arith

positive_int-decimal : (n : ℕ) → positive_int (decimal n) ≡ n
unfolding positive_int
positive_int-decimal n =
    let digits : read_digits 0 (decimal n) ≡ (n, []) =
      rw append-nil at (read_digits-decimal n [] refl) in
    rw (digits, not_minus (peek (decimal n)) (decimal-begins n)) (omega arith)

pub strtod_int-int_text : (z : ℤ) → strtod_int (int_text z) ≡ z
unfolding strtod_int int_text
strtod_int-int_text (pos n) =
    rw (not_minus (peek (decimal n)) (decimal-begins n)) (ap pos (positive_int-decimal n))
strtod_int-int_text (negsuc n) = ap negated (positive_int-decimal (suc n))

-- An `int` of 32 bits.
abbrev pub IsInt : ℤ → Type 0
IsInt z = magnitude z < 2 ^ 32

pub length-int_text : (z : ℤ) → IsInt z → length (int_text z) < 64
unfolding int_text
length-int_text (pos n) h = omega (arith, length-decimal 9 n (omega arith))
length-int_text (negsuc n) h = omega (arith, length-decimal 9 (suc n) (omega arith))

int_of-int_text : (z : ℤ) (r : Bytes) → IsInt z → int_of (value_view number (int_text z) r) ≡ z
unfolding int_of
int_of-int_text z r h =
    rw (take-append (int_text z) r, lt→ltb (length (int_text z)) 64 (length-int_text z h))
      (strtod_int-int_text z)

-- json_get_int reads a printed integer that json_get finds.
pub json_get_int-int_text :
    (obj : Val) (key : Bytes) (z : ℤ) (r : Bytes)
    → json_get obj key ≡ found (value_view number (int_text z) r)
    → IsInt z
    → json_get_int obj key ≡ z
unfolding json_get_int
json_get_int-int_text obj key z r e h = ap (λ l. int_of (result l)) e ∙ int_of-int_text z r h

pub int_text-IsText : (z : ℤ) → IsText (int_text z)
unfolding int_text
int_text-IsText (pos n) = decimal-IsText n
int_text-IsText (negsuc n) = (omega arith, decimal-IsText (suc n))
