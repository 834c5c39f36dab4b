-- ===== src/Util/Paths.antt =====
-- c/util.c: util_path_join, util_mkdirs, util_rtrim and util_parse_size.
pub mod Joined
use bash_agent.Agent.Context.Compacted.{before}
use bash_agent.Base.{
  Bool, Bytes, List, Option, [], false, get_or, if◌then◌else◌, length, ltb, next, none, not, peek,
  some, suc, take, true, within, zero, ℕ, ◌*◌, ◌++◌, ◌==◌, ◌||◌, ◌∷◌,
}
use bash_agent.Util.Decimal.{read_digits}

-- while (*b == '/') b++
unfoldable pub skip_slashes : Bytes → Bytes
skip_slashes [] = []
skip_slashes (c ∷ s) = if c == b'/' then skip_slashes s else c ∷ s

-- the last byte, `a[alen - 1]`, or 0 for the empty text
abbrev pub last_byte : Bytes → ℕ
last_byte [] = 0
last_byte (c ∷ []) = c
last_byte (c ∷ d ∷ s) = last_byte (d ∷ s)

-- alen > 0 && a[alen - 1] != '/'
abbrev pub needs_slash : Bytes → Bool
needs_slash [] = false
needs_slash (c ∷ s) = not (last_byte (c ∷ s) == b'/')

-- util_path_join
unfoldable pub path_join : Bytes → Bytes → Bytes
unfolding skip_slashes
path_join a b = (if needs_slash a then a ++ b'/' ∷ [] else a) ++ skip_slashes b

-- the directories that util_mkdirs creates in front of the whole path: `before` is what `p` has
-- passed
unfoldable pub parents_from : Bytes → Bytes → List Bytes
parents_from before [] = []
parents_from before (c ∷ s) =
    let rest = parents_from (before ++ c ∷ []) s in if c == b'/' then before ∷ rest else rest

-- the arguments of the calls of mkdir, when each succeeds or finds the directory there; the loop
-- starts behind the first byte
unfoldable pub mkdirs_calls : Bytes → List Bytes
unfolding parents_from
mkdirs_calls [] = [] ∷ []
mkdirs_calls (c ∷ s) = parents_from (c ∷ []) s ++ (c ∷ s) ∷ []

-- the calls up to the first that fails, and whether there is none; `mkdir` says that a call
-- succeeds or fails with EEXIST
unfoldable pub run_calls : (Bytes → Bool) → List Bytes → Bool × List Bytes
run_calls mkdir [] = (true, [])
run_calls mkdir (d ∷ ds) =
    let rest = run_calls mkdir ds in if mkdir d then (rest.0, d ∷ rest.1) else (false, d ∷ [])

-- util_mkdirs: a return of 0, and the calls of mkdir
unfoldable pub mkdirs : (Bytes → Bool) → Bytes → Bool × List Bytes
unfolding mkdirs_calls run_calls
mkdirs mkdir path = run_calls mkdir (mkdirs_calls path)

-- what util_rtrim removes
abbrev pub is_blank : ℕ → Bool
is_blank c = c == b'\n' || c == b'\r' || c == b' ' || c == b'\t'

-- the loop of util_rtrim: the length that is left of the first `len` bytes
unfoldable pub trimmed_len : Bytes → ℕ → ℕ
trimmed_len s zero = 0
trimmed_len s (suc n) =
    let less = trimmed_len s n in if is_blank (get_or s n 0) then less else suc n

-- util_rtrim
unfoldable pub rtrim : Bytes → Bytes
unfolding trimmed_len
rtrim s = take (trimmed_len s (length s)) s

-- isspace
abbrev pub is_space : ℕ → Bool
is_space c = c == b' ' || within 9 13 c

unfoldable pub skip_space : Bytes → Bytes
skip_space [] = []
skip_space (c ∷ s) = if is_space c then skip_space s else c ∷ s

-- strtol in base 10, where its result is positive; `none` is any other result
unfoldable pub strtol_positive : Bytes → Option (ℕ × Bytes)
unfolding skip_space read_digits
strtol_positive s =
    let t = skip_space s in
    let (n, rest) = read_digits 0 (if peek t == b'+' then next t else t) in
    if ltb 0 n then some (n, rest) else none

-- the unit behind the number, and what follows it
abbrev pub size_unit : Bytes → ℕ × Bytes
size_unit s =
    let c = peek s in
    if c == b'k' || c == b'K'
    then (1000, next s)
    else if c == b'm' || c == b'M'
    then (1000000, next s)
    else if c == b'g' || c == b'G'
    then (1000000000, next s)
    else (1, s)

-- the end of util_parse_size: the number must be followed by a unit at most
abbrev pub sized : Option (ℕ × Bytes) → Option ℕ
sized none = none
sized (some (n, rest)) =
    let (unit, left) = size_unit rest in if peek left == 0 then some (n * unit) else none

-- util_parse_size; `none` is the result -1. The source multiplies in `long`.
unfoldable pub parse_size : Option Bytes → Option ℕ
unfolding strtol_positive
parse_size none = none
parse_size (some s) = sized (strtol_positive s)
