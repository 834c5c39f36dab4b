-- ===== src/Json/Numbers.antt =====
-- c/json.c: json_get_int, and the numbers that `%d` prints and json.c reads back. strtod is taken
-- to be exact, and the results are taken to fit: the conversion of a larger double to `int` has no
-- defined result.
pub mod Printed
use bash_agent.Base.{
  Bytes, if◌then◌else◌, length, ltb, negated, negsuc, next, peek, pos, suc, ℕ, ℤ, ◌*◌, ◌+◌, ◌-◌,
  ◌/◌, ◌==◌, ◌^◌, ◌||◌, ◌∷◌,
}
use bash_agent.Json.Query.{json_get, result}
use bash_agent.Json.Value.{Val, number, text}
use bash_agent.Util.Decimal.{decimal, read_digits}

-- digits behind a point, or behind nothing
abbrev pub fraction_digits : ℕ → Bytes → ℕ × Bytes
fraction_digits n s = if peek s == b'.' then read_digits n (next s) else (n, s)

-- the digits that fraction_digits read behind the point
abbrev pub scale_of : Bytes → Bytes → ℕ
scale_of s rest = if peek s == b'.' then length (next s) - length rest else 0

-- `n` with `scale` digits behind the point, times ten to the exponent at `s`, without its fraction
abbrev pub with_exponent : ℕ → ℕ → Bytes → ℕ
with_exponent n scale s =
    let t = next s in
    let up = n * 10 ^ (read_digits 0 (if peek t == b'+' then next t else t)).0 / 10 ^ scale in
    let down = n / 10 ^ (scale + (read_digits 0 (next t)).0) in
    if peek s == b'e' || peek s == b'E'
    then (if peek t == b'-' then down else up)
    else n / 10 ^ scale

-- (int)strtod on the text of a JSON number, where the result is positive and fits, and 0 for a
-- result that is not positive; strtod is taken to be exact
unfoldable pub positive_int : Bytes → ℕ
unfolding read_digits
positive_int s =
    let (n, rest) = read_digits 0 s in
    let (m, behind) = fraction_digits n rest in
    if peek s == b'-' then 0 else with_exponent m (scale_of rest behind) behind

-- (int)strtod, without its fraction
unfoldable pub strtod_int : Bytes → ℤ
strtod_int s = if peek s == b'-' then negated (positive_int (next s)) else pos (positive_int s)

-- json_get_int behind its query
unfoldable pub int_of : Val → ℤ
int_of v = elim v.kind [ number ↦ if ltb v.len 64 then strtod_int (text v) else pos 0 | _ ↦ pos 0 ]

-- json_get_int
unfoldable pub json_get_int : Val → Bytes → ℤ
json_get_int obj key = int_of (result (json_get obj key))

-- what `%d` prints
unfoldable pub int_text : ℤ → Bytes
int_text (pos n) = decimal n
int_text (negsuc n) = b'-' ∷ decimal (suc n)
