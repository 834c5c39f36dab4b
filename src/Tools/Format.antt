-- ===== src/Tools/Format.antt =====
-- c/tools.c: tool_format_result, which shortens the output of a tool.
pub mod Shortened
use bash_agent.Base.{
  Bytes, Option, [], codes, if◌then◌else◌, leb, length, ltb, none, some, take, ℕ, ◌%◌, ◌&&◌, ◌++◌,
  ◌+◌, ◌-◌, ◌/◌, ◌==◌, ◌^◌, ◌∷◌,
}
use bash_agent.Util.Decimal.{decimal}

-- the number of line feeds
abbrev pub feeds : Bytes → ℕ
feeds [] = 0
feeds (c ∷ s) = (if c == b'\n' then 1 else 0) + feeds s

-- The suffix that the backward loop stops at: behind the `n`-th line feed from the end, or the
-- whole text where there are fewer.
unfoldable pub tail_from : ℕ → Bytes → Bytes
tail_from n [] = []
tail_from n (c ∷ s) =
    let shorter = tail_from n s in
    if ltb (feeds (c ∷ s)) n then c ∷ s else (if c == b'\n' && feeds s + 1 == n then s else shorter)

-- the line that says what is left out
unfoldable pub marker : ℕ → Bytes
unfolding decimal
marker len =
    codes "\n\n[... truncated: showing first/last portions of "
    ++ (decimal len ++ codes " bytes ...]\n\n")

-- head_len: `max_bytes - marker_len - tail_len` in `size_t`, which wraps around below 0, and half
-- of the text where the result is beyond its end
unfoldable pub head_len : ℕ → ℕ → ℕ → ℕ → ℕ
head_len len max_bytes marker_len tail_len =
    let wrapped = (max_bytes + 2 ^ 64 - (marker_len + tail_len)) % 2 ^ 64 in
    if ltb len wrapped then len / 2 else wrapped

-- what tool_format_result writes for a text that is too long
unfoldable pub shortened : Bytes → ℕ → Bytes
unfolding tail_from marker head_len
shortened output max_bytes =
    let len = length output in
    let last_lines = tail_from 5 output in
    let head = head_len len max_bytes (length (marker len)) (length last_lines) in
    take head output ++ (marker len ++ last_lines)

-- tool_format_result, for a bound that is not negative; `none` is NULL
unfoldable pub format_result : Option Bytes → ℕ → Bytes
unfolding shortened
format_result none max_bytes = codes "(empty)"
format_result (some output) max_bytes =
    if leb (length output) max_bytes then output else shortened output max_bytes
