-- ===== src/Util/Base64/Decoded.antt =====
-- A decoder of base64, and util_base64_encode against it.
use bash_agent.Base.{
  All, Bytes, [], ap, arith, false, if◌then◌else◌, length, refl, within, ℕ, ◌%◌, ◌*◌, ◌++◌, ◌+◌,
  ◌-◌, ◌/◌, ◌<◌, ◌==◌, ◌∷◌, ◌≡◌,
}
use bash_agent.Util.Base64.{base64_encode, tbl}

-- the value of a character of the alphabet
unfoldable pub digit_value : ℕ → ℕ
digit_value c =
    if within b'A' b'Z' c
    then c - b'A'
    else if within b'a' b'z' c
    then c - b'a' + 26
    else if within b'0' b'9' c
    then c - b'0' + 52
    else if c == b'+'
    then 62
    else 63

-- the bytes of one group of four characters
unfoldable pub group : ℕ → ℕ → ℕ → ℕ → Bytes
unfolding digit_value
group w x y z =
    let v = digit_value w * 262144 + digit_value x * 4096 in
    if y == b'='
    then v / 65536 ∷ []
    else let u = v + digit_value y * 64 in
      if z == b'='
      then u / 65536 ∷ u / 256 % 256 ∷ []
      else let t = u + digit_value z in t / 65536 ∷ t / 256 % 256 ∷ t % 256 ∷ []

unfoldable pub base64_decode : Bytes → Bytes
unfolding group
base64_decode (w ∷ x ∷ y ∷ z ∷ s) = group w x y z ++ base64_decode s
base64_decode s = []

digit_value-tbl : (n : ℕ) → n < 64 → digit_value (tbl n) ≡ n
unfolding tbl digit_value
digit_value-tbl n h = ground arith

tbl-is_digit : (n : ℕ) → n < 64 → (tbl n == b'=') ≡ false
unfolding tbl
tbl-is_digit n h = ground arith

-- the four groups of six bits of a number
sextets :
    (v : ℕ)
    → v < 16777216
    → v / 262144 % 64 * 262144 + v / 4096 % 64 * 4096 + v / 64 % 64 * 64 + v % 64 ≡ v
sextets v h = omega arith

high_sextets :
    (v : ℕ)
    → v < 16777216
    → v % 64 ≡ 0
    → v / 262144 % 64 * 262144 + v / 4096 % 64 * 4096 + v / 64 % 64 * 64 ≡ v
high_sextets v h e = omega arith

two_bytes : {w x a b : ℕ} → w ≡ a → x ≡ b → w ∷ x ∷ [] ≡ a ∷ b ∷ []
two_bytes e d = cc

three_bytes : {w x y a b c : ℕ} → w ≡ a → x ≡ b → y ≡ c → w ∷ x ∷ y ∷ [] ≡ a ∷ b ∷ c ∷ []
three_bytes e d c = cc

group-three :
    (a b c : ℕ)
    → a < 256
    → b < 256
    → c < 256
    → let v = a * 65536 + b * 256 + c in
      group (tbl (v / 262144 % 64)) (tbl (v / 4096 % 64)) (tbl (v / 64 % 64)) (tbl (v % 64))
      ≡ a ∷ b ∷ c ∷ []
unfolding group
group-three a b c p q r =
    let v = a * 65536 + b * 256 + c in
    rw
      (
        tbl-is_digit (v / 64 % 64) (omega arith),
        tbl-is_digit (v % 64) (omega arith),
        digit_value-tbl (v / 262144 % 64) (omega arith),
        digit_value-tbl (v / 4096 % 64) (omega arith),
        digit_value-tbl (v / 64 % 64) (omega arith),
        digit_value-tbl (v % 64) (omega arith),
      )
      (rw (sextets v (omega arith)) (three_bytes (omega arith) (omega arith) (omega arith)))

group-two :
    (a b : ℕ)
    → a < 256
    → b < 256
    → let v = a * 65536 + b * 256 in
      group (tbl (v / 262144 % 64)) (tbl (v / 4096 % 64)) (tbl (v / 64 % 64)) b'=' ≡ a ∷ b ∷ []
unfolding group
group-two a b p q =
    let v = a * 65536 + b * 256 in
    rw
      (
        tbl-is_digit (v / 64 % 64) (omega arith),
        digit_value-tbl (v / 262144 % 64) (omega arith),
        digit_value-tbl (v / 4096 % 64) (omega arith),
        digit_value-tbl (v / 64 % 64) (omega arith),
      )
      (rw (high_sextets v (omega arith) (omega arith)) (two_bytes (omega arith) (omega arith)))

group-one :
    (a : ℕ)
    → a < 256
    → let v = a * 65536 in group (tbl (v / 262144 % 64)) (tbl (v / 4096 % 64)) b'=' b'=' ≡ a ∷ []
unfolding group
group-one a p =
    let v = a * 65536 in
    rw
      (
        digit_value-tbl (v / 262144 % 64) (omega arith),
        digit_value-tbl (v / 4096 % 64) (omega arith),
      )
      (ap (λ x. x ∷ []) (omega arith))

-- Decoding the output of util_base64_encode gives the data back, zero bytes included, and the
-- output is four characters for each three bytes that are begun.
pub base64_encode_lem :
    (bytes : Bytes)
    → All (λ c. c < 256) bytes
    → (base64_decode (base64_encode bytes) ≡ bytes)
      × (length (base64_encode bytes) ≡ (length bytes + 2) / 3 * 4)
unfolding base64_encode base64_decode
base64_encode_lem [] h = (refl, refl)
base64_encode_lem (a ∷ []) (p, h) = (rw (group-one a p) refl, refl)
base64_encode_lem (a ∷ b ∷ []) (p, (q, h)) = (rw (group-two a b p q) refl, refl)
base64_encode_lem (a ∷ b ∷ c ∷ s) (p, (q, (r, h))) =
    let (same, size) = base64_encode_lem s h in
    (rw (group-three a b c p q r) (ap (λ x. a ∷ b ∷ c ∷ x) same), omega arith)
