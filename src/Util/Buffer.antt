-- ===== src/Util/Buffer.antt =====
-- c/util.c: the growing buffer StrBuf. Memory is always there. Sizes are numbers without a bound,
-- except in sb_ensure_wrapping, where they wrap as a size_t of 64 bits does.
pub mod Room
use bash_agent.Base.{
  Bytes, Option, [], if◌then◌else◌, leb, length, ltb, none, some, suc, take, zero, ℕ, ◌%◌, ◌*◌,
  ◌++◌, ◌+◌, ◌==◌, ◌^◌, ◌∷◌,
}

-- StrBuf: `bytes` are the `len` bytes of the data in front of its terminator
pub record StrBuf : Type 0 where
  pub bytes : Bytes
  pub cap : ℕ

-- sb_init, and what sb_free leaves
abbrev pub sb_init : StrBuf
sb_init = record { bytes = []; cap = 0 }

-- the loop of sb_ensure that doubles the capacity, on fuel
unfoldable pub doubled : ℕ → ℕ → ℕ → ℕ
doubled zero need newcap = newcap
doubled (suc f) need newcap =
    let more = doubled f need (newcap * 2) in if ltb newcap need then more else newcap

-- sb_ensure: the capacity afterwards
unfoldable pub ensured : ℕ → ℕ → ℕ
ensured cap need =
    let newcap = if cap == 0 then 256 else cap in
    if leb need cap then cap else doubled need need newcap

-- sb_ensure
unfoldable pub sb_ensure : StrBuf → ℕ → StrBuf
unfolding ensured doubled
sb_ensure sb extra = record sb { cap = ensured sb.cap (length sb.bytes + extra + 1) }

-- the loop of sb_ensure on a size_t
unfoldable pub doubled_wrapping : ℕ → ℕ → ℕ → ℕ
doubled_wrapping zero need newcap = newcap
doubled_wrapping (suc f) need newcap =
    let more = doubled_wrapping f need (newcap * 2 % 2 ^ 64) in
    if ltb newcap need then more else newcap

-- sb_ensure on a size_t: the fuel is the number of the bytes that are needed
unfoldable pub sb_ensure_wrapping : StrBuf → ℕ → StrBuf
unfolding doubled_wrapping
sb_ensure_wrapping sb extra =
    let need = (length sb.bytes + extra + 1) % 2 ^ 64 in
    let newcap = if sb.cap == 0 then 256 else sb.cap in
    record sb { cap = if leb need sb.cap then sb.cap else doubled_wrapping need need newcap }

-- sb_appendn
unfoldable pub sb_appendn : StrBuf → Bytes → StrBuf
unfolding sb_ensure
sb_appendn sb [] = sb
sb_appendn sb (c ∷ s) =
    let room = sb_ensure sb (length (c ∷ s)) in record room { bytes = room.bytes ++ c ∷ s }

-- sb_append; `none` is NULL
unfoldable pub sb_append : StrBuf → Option Bytes → StrBuf
unfolding sb_appendn
sb_append sb none = sb
sb_append sb (some s) = sb_appendn sb s

-- sb_appendf, on the text that vsnprintf makes; `none` is a negative result
unfoldable pub sb_appendf : StrBuf → Option Bytes → StrBuf
unfolding sb_ensure
sb_appendf sb none = sb
sb_appendf sb (some s) =
    let room = sb_ensure sb (length s) in record room { bytes = room.bytes ++ s }

-- sb_append_char
unfoldable pub sb_append_char : StrBuf → ℕ → StrBuf
unfolding sb_ensure
sb_append_char sb c = let room = sb_ensure sb 1 in record room { bytes = room.bytes ++ c ∷ [] }

-- sb_truncate
unfoldable pub sb_truncate : StrBuf → ℕ → StrBuf
sb_truncate sb len =
    if ltb len (length sb.bytes) then record sb { bytes = take len sb.bytes } else sb
