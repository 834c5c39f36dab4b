-- ===== src/Util/Utf8.antt =====
-- c/util.c: util_sanitize_utf8, the character count and the truncations.
pub mod Sanitized
pub mod Cut
pub mod Shorten
use bash_agent.Base.{
  Bool, Bytes, Option, [], codes, false, get_or, if◌then◌else◌, leb, length, ltb, none, some, suc,
  take, true, within, zero, ℕ, ◌&&◌, ◌++◌, ◌+◌, ◌-◌, ◌/◌, ◌==◌, ◌∷◌,
}

-- `p + n < end` and n bytes from 0x80 to 0xBF at `s`
abbrev pub continues : ℕ → Bytes → Bool
continues zero s = true
continues (suc n) [] = false
continues (suc n) (c ∷ s) = within 0x80 0xBF c && continues n s

-- the bytes of the sequence at the head that util_sanitize_utf8 copies; 0 is an invalid byte
unfoldable pub sequence : Bytes → ℕ
sequence [] = 0
sequence (b ∷ s) =
    if ltb b 0x80
    then 1
    else if within 0xC2 0xDF b
    then (if continues 1 s then 2 else 0)
    else if within 0xE0 0xEF b
    then (if continues 2 s then 3 else 0)
    else if within 0xF0 0xF4 b
    then (if continues 3 s then 4 else 0)
    else 0

-- the text written for an invalid byte
abbrev pub replacement : Bytes
replacement = codes "\\ufffd"

-- one round of util_sanitize_utf8 at the byte `c`: `go n` copies `n` bytes more
abbrev pub round : ℕ → ℕ → (ℕ → Bytes) → Bytes
round zero c go = replacement ++ go 0
round (suc n) c go = c ∷ go n

-- the loop of util_sanitize_utf8, with the number of bytes that are still to be copied
unfoldable pub sanitize_from : ℕ → Bytes → Bytes
unfolding sequence
sanitize_from n [] = []
sanitize_from (suc n) (c ∷ s) = c ∷ sanitize_from n s
sanitize_from zero (c ∷ s) = round (sequence (c ∷ s)) c (λ n. sanitize_from n s)

-- util_sanitize_utf8, the bytes that it writes before the terminator; `none` is NULL. For the
-- empty text it writes no terminator: the loop does not run, and sb_ensure writes nothing.
unfoldable pub sanitize_utf8 : Option Bytes → Bytes
unfolding sanitize_from
sanitize_utf8 none = []
sanitize_utf8 (some s) = sanitize_from 0 s

-- (c & 0xC0) == 0x80, on a byte
abbrev pub is_tail : ℕ → Bool
is_tail c = c / 64 == 2

-- util_utf8_char_count
unfoldable pub char_count : Bytes → ℕ
char_count [] = 0
char_count (c ∷ s) = (if is_tail c then 0 else 1) + char_count s

-- the loop of util_utf8_truncate_len
unfoldable pub step_back : Bytes → ℕ → ℕ
step_back s zero = 0
step_back s (suc n) =
    let back = step_back s n in if is_tail (get_or s (suc n) 0) then back else suc n

-- util_utf8_truncate_len
unfoldable pub truncate_len : Bytes → ℕ → ℕ
unfolding step_back
truncate_len s max_bytes = if leb (length s) max_bytes then length s else step_back s max_bytes

abbrev pub dots : Bytes
dots = codes "..."

-- where util_truncate_str cuts; `max_total - 3` stops at 0 as the source's test makes it
abbrev pub str_cut : Bytes → ℕ → ℕ
str_cut s max_total = truncate_len s (max_total - 3)

-- util_truncate_str: the string in the buffer afterwards
unfoldable pub truncate_str : Bytes → ℕ → Bytes
truncate_str s max_total =
    if leb (length s) max_total then s else take (str_cut s max_total) s ++ dots

-- the loop of util_truncate_chars: how far `p` goes, from `count` on
unfoldable pub chars_cut : Bytes → ℕ → ℕ → ℕ
chars_cut [] count target = 0
chars_cut (c ∷ s) count target =
    let more = chars_cut s (count + (if is_tail c then 0 else 1)) target in
    if ltb count target then suc more else 0

-- util_truncate_chars, for a bound that is not negative
unfoldable pub truncate_chars : Bytes → ℕ → Bytes
unfolding char_count chars_cut
truncate_chars s max_chars =
    if leb (char_count s) max_chars then s else take (chars_cut s 0 (max_chars - 3)) s ++ dots
