-- ===== src/Util/Base64.antt =====
-- c/util.c: util_base64_encode, and a decoder for what it writes.
pub mod Decoded
use bash_agent.Base.{Bytes, [], if◌then◌else◌, ltb, ℕ, ◌%◌, ◌*◌, ◌+◌, ◌-◌, ◌/◌, ◌==◌, ◌∷◌}

-- the character at an index below 64 of `tbl`
unfoldable pub tbl : ℕ → ℕ
tbl n =
    if ltb n 26
    then b'A' + n
    else if ltb n 52
    then b'a' + (n - 26)
    else if ltb n 62
    then b'0' + (n - 52)
    else if n == 62
    then b'+'
    else b'/'

-- util_base64_encode. `v >> 18 & 63` is `v / 2 ^ 18 % 64`, and the bytes that `|` joins are disjoint.
unfoldable pub base64_encode : Bytes → Bytes
unfolding tbl
base64_encode [] = []
base64_encode (a ∷ []) =
    let v = a * 65536 in tbl (v / 262144 % 64) ∷ tbl (v / 4096 % 64) ∷ b'=' ∷ b'=' ∷ []
base64_encode (a ∷ b ∷ []) =
    let v = a * 65536 + b * 256 in
    tbl (v / 262144 % 64) ∷ tbl (v / 4096 % 64) ∷ tbl (v / 64 % 64) ∷ b'=' ∷ []
base64_encode (a ∷ b ∷ c ∷ s) =
    let v = a * 65536 + b * 256 + c in
    tbl (v / 262144 % 64) ∷ tbl (v / 4096 % 64) ∷ tbl (v / 64 % 64) ∷ tbl (v % 64) ∷ base64_encode s
