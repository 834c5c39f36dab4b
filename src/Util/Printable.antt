-- ===== src/Util/Printable.antt =====
-- The texts that util.c prints hold no terminator: c_string of them is the whole text.
use bash_agent.Base.{
  All-append, Bool-cases, Bytes, IsText, [], arith, inl, inr, ltb, some, suc, zero, ℕ, ◌%◌, ◌++◌,
  ◌+◌, ◌/◌, ◌<◌, ◌∷◌,
}
use bash_agent.Util.Decimal.{decimal, digits_from}
use bash_agent.Util.Escape.{escape_byte, escaped, hex_digit, json_string, quote}

digits_from-IsText : (f n : ℕ) (s : Bytes) → IsText s → IsText (digits_from f n s)
unfolding digits_from
digits_from-IsText zero n s h = h
digits_from-IsText (suc f) n s h = elim (Bool-cases (ltb n 10)) [
  | inl e ↦ rw e (omega arith, h)
  | inr e ↦ rw e (digits_from-IsText f (n / 10) ((b'0' + n % 10) ∷ s) (omega arith, h))
]

pub decimal-IsText : (n : ℕ) → IsText (decimal n)
unfolding decimal
decimal-IsText n = digits_from-IsText (suc n) n [] tt

escape_byte-IsText : (c : ℕ) → 0 < c → c < 256 → IsText (escape_byte c)
unfolding escape_byte hex_digit
escape_byte-IsText c h lt = ground arith

abbrev IsByte : ℕ → Type 0
IsByte c = (0 < c) × (c < 256)

pub IsText-append : (s t : Bytes) → IsText s → IsText t → IsText (s ++ t)
IsText-append = All-append IsByte

escaped-IsText : (s : Bytes) → IsText s → IsText (escaped s)
unfolding escaped
escaped-IsText [] h = tt
escaped-IsText (c ∷ s) ((p, q), h) =
    IsText-append (escape_byte c) (escaped s) (escape_byte-IsText c p q) (escaped-IsText s h)

pub json_string-IsText : (s : Bytes) → IsText s → IsText (json_string (some s))
unfolding json_string
json_string-IsText s h =
    (omega arith, IsText-append (escaped s) (quote ∷ []) (escaped-IsText s h) (omega arith))
