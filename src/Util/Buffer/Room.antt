-- ===== src/Util/Buffer/Room.antt =====
-- The capacity of a StrBuf always leaves room for the terminator.
use native.Mathlib.Nat.{mod-eq_of_lt}
use bash_agent.Base.{
  Bool-cases, Bytes, [], ap, append-nil, arith, if◌then◌else◌, inl, inr, leb, length, length-append,
  length-take, ltb, max, refl, some, suc, sym, take, take_all, zero, ℕ, ◌%◌, ◌*◌, ◌++◌, ◌+◌, ◌<◌,
  ◌==◌, ◌^◌, ◌∷◌, ◌≡◌, ◌≤◌, ◌⊎◌,
}
use bash_agent.Util.Buffer.{
  StrBuf, doubled, doubled_wrapping, ensured, sb_append, sb_append_char, sb_appendf, sb_ensure,
  sb_ensure_wrapping, sb_truncate,
}

-- the data with its terminator fits, or there is none yet
abbrev pub IsRoomy : StrBuf → Type 0
IsRoomy sb = (length sb.bytes < sb.cap) ⊎ ((sb.cap ≡ 0) × (sb.bytes ≡ []))

doubled_lem :
    (f need newcap : ℕ)
    → 0 < newcap
    → need ≤ newcap + f
    → (need ≤ doubled f need newcap)
      × (newcap ≤ doubled f need newcap)
      × (doubled f need newcap ≤ max newcap (2 * need))
unfolding doubled
doubled_lem zero need newcap p h = (omega arith, omega arith, omega arith)
doubled_lem (suc f) need newcap p h = elim (Bool-cases (ltb newcap need)) [
  | inr e ↦ let le : need ≤ newcap = ground arith in rw e (le, omega arith, omega arith)
  | inl e ↦
      let lt : newcap < need = ground arith in
      let (enough, more, size) = doubled_lem f need (newcap * 2) (omega arith) (omega arith) in
      rw e (enough, omega arith, omega arith)
]

pub ensured_lem :
    (cap need : ℕ)
    → 0 < need
    → (need ≤ ensured cap need)
      × (cap ≤ ensured cap need)
      × (ensured cap need ≤ max (max cap 256) (2 * need))
unfolding ensured
ensured_lem cap need p = elim (Bool-cases (leb need cap)) [
  | inl e ↦ let le : need ≤ cap = ground arith in rw e (le, omega arith, omega arith)
  | inr e ↦ elim (Bool-cases (cap == 0)) [
    | inl d ↦
        let none_yet : cap ≡ 0 = ground arith in
        let (enough, more, size) = doubled_lem need need 256 (omega arith) (omega arith) in
        rw (e, d) (enough, omega arith, omega arith)
    | inr d ↦
        let positive : 0 < cap = ground arith in
        let (enough, more, size) = doubled_lem need need cap positive (omega arith) in
        rw (e, d) (enough, more, omega arith)
  ]
]

-- no doubling wraps below half of the range
doubled-wraps :
    (f need newcap : ℕ) → need ≤ 2 ^ 63 → doubled_wrapping f need newcap ≡ doubled f need newcap
unfolding doubled doubled_wrapping
doubled-wraps zero need newcap h = refl
doubled-wraps (suc f) need newcap h = elim (Bool-cases (ltb newcap need)) [
  | inr e ↦ rw e refl
  | inl e ↦
      let small : newcap < need = ground arith in
      let same : newcap * 2 % 2 ^ 64 ≡ newcap * 2 = mod-eq_of_lt (omega arith) in
      rw (e, same) (doubled-wraps f need (newcap * 2) h)
]

sb_ensure-wraps :
    (sb : StrBuf) (extra : ℕ)
    → length sb.bytes + extra + 1 ≤ 2 ^ 63
    → sb_ensure_wrapping sb extra ≡ sb_ensure sb extra
unfolding sb_ensure sb_ensure_wrapping ensured
sb_ensure-wraps sb extra h =
    let need = length sb.bytes + extra + 1 in
    let newcap = if sb.cap == 0 then 256 else sb.cap in
    let same : need % 2 ^ 64 ≡ need = mod-eq_of_lt (omega arith) in
    rw (same, doubled-wraps need need newcap h) refl

-- Where at most 2^63 bytes are needed, for those that are there, the new ones and the terminator,
-- the loop of sb_ensure on a size_t of 64 bits ends within as many rounds as bytes are needed: the
-- capacity afterwards is enough for them, never smaller than before, and at most 256, the old
-- one, or twice what is needed. No step of it wraps around, so that it is the loop on numbers
-- without a bound.
pub sb_ensure_lem :
    (sb : StrBuf) (extra : ℕ)
    → length sb.bytes + extra + 1 ≤ 2 ^ 63
    → let need = length sb.bytes + extra + 1 in
      let cap = (sb_ensure_wrapping sb extra).cap in
      (need ≤ cap)
      × (sb.cap ≤ cap)
      × (cap ≤ max (max sb.cap 256) (2 * need))
      × (sb_ensure_wrapping sb extra ≡ sb_ensure sb extra)
unfolding sb_ensure
sb_ensure_lem sb extra h =
    let (enough, more, size) = ensured_lem sb.cap (length sb.bytes + extra + 1) (omega arith) in
    rw (sb_ensure-wraps sb extra h) (enough, more, size, refl)

sb_append-IsRoomy :
    (sb : StrBuf) (s : Bytes)
    → IsRoomy sb
    → ((sb_append sb (some s)).bytes ≡ sb.bytes ++ s) × IsRoomy (sb_append sb (some s))
unfolding sb_append
sb_append-IsRoomy sb [] h = (sym (append-nil sb.bytes), h)
sb_append-IsRoomy sb (c ∷ s) h =
    let (enough, more, size) =
      ensured_lem sb.cap (length sb.bytes + length (c ∷ s) + 1) (omega arith) in
    (refl, inl (omega (arith, length-append sb.bytes (c ∷ s))))

sb_truncate-IsRoomy :
    (sb : StrBuf) (n : ℕ)
    → IsRoomy sb
    → ((sb_truncate sb n).bytes ≡ take n sb.bytes) × IsRoomy (sb_truncate sb n)
unfolding sb_truncate
sb_truncate-IsRoomy sb n h = elim (Bool-cases (ltb n (length sb.bytes))) [
  | inr e ↦ let le : length sb.bytes ≤ n = ground arith in rw e (sym (take_all n sb.bytes le), h)
  | inl e ↦
      let lt : n < length sb.bytes = ground arith in
      rw e (
        refl,
        elim h [
          | inl room ↦ inl (omega (arith, length-take n sb.bytes))
          | inr (z, d) ↦ absurd (omega (arith, ap (length {A = ℕ}) d))
        ],
      )
]

-- The operations on a buffer with room. Each leaves room for the terminator; the appends add
-- their text behind what was there, and sb_truncate keeps the bytes in front of the given length.
pub strbuf_lem :
    (sb : StrBuf) (s : Bytes) (c n : ℕ)
    → IsRoomy sb
    → ((sb_append sb (some s)).bytes ≡ sb.bytes ++ s)
      × IsRoomy (sb_append sb (some s))
      × ((sb_appendf sb (some s)).bytes ≡ sb.bytes ++ s)
      × IsRoomy (sb_appendf sb (some s))
      × ((sb_append_char sb c).bytes ≡ sb.bytes ++ c ∷ [])
      × IsRoomy (sb_append_char sb c)
      × ((sb_truncate sb n).bytes ≡ take n sb.bytes)
      × IsRoomy (sb_truncate sb n)
unfolding sb_appendf sb_append_char
strbuf_lem sb s c n h =
    let (text, room) = sb_append-IsRoomy sb s h in
    let (kept, left) = sb_truncate-IsRoomy sb n h in
    let (enough, more, size) = ensured_lem sb.cap (length sb.bytes + length s + 1) (omega arith) in
    let (enough_one, more_one, size_one) =
      ensured_lem sb.cap (length sb.bytes + 1 + 1) (omega arith) in
    (
      text,
      room,
      refl,
      inl (omega (arith, length-append sb.bytes s)),
      refl,
      inl (omega (arith, length-append sb.bytes (c ∷ []))),
      kept,
      left,
    )
