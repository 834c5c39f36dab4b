-- ===== src/Util/Utf8/Sanitized.antt =====
-- What util_sanitize_utf8 makes of a text.
use bash_agent.Base.{
  Bool-cases, Bytes, [], ap, arith, if◌then◌else◌, inl, inr, length, ltb, ltb→lt, refl, some, suc,
  true, within, zero, ℕ, ◌*◌, ◌++◌, ◌+◌, ◌<◌, ◌∷◌, ◌≡◌, ◌≤◌,
}
use bash_agent.Util.Utf8.{continues, replacement, round, sanitize_from, sanitize_utf8, sequence}

-- The byte sequences that the loop of util_sanitize_utf8 copies, one after the other.
pub data IsSanitary : Bytes → Type 0 where
  done : IsSanitary []
  one : {a : ℕ} {s : Bytes} → a < 0x80 → IsSanitary s → IsSanitary (a ∷ s)
  two :
      {a b : ℕ} {s : Bytes}
      → (0xC2 ≤ a) × (a ≤ 0xDF)
      → (0x80 ≤ b) × (b ≤ 0xBF)
      → IsSanitary s
      → IsSanitary (a ∷ b ∷ s)
  three :
      {a b c : ℕ} {s : Bytes}
      → (0xE0 ≤ a) × (a ≤ 0xEF)
      → (0x80 ≤ b) × (b ≤ 0xBF)
      → (0x80 ≤ c) × (c ≤ 0xBF)
      → IsSanitary s
      → IsSanitary (a ∷ b ∷ c ∷ s)
  four :
      {a b c d : ℕ} {s : Bytes}
      → (0xF0 ≤ a) × (a ≤ 0xF4)
      → (0x80 ≤ b) × (b ≤ 0xBF)
      → (0x80 ≤ c) × (c ≤ 0xBF)
      → (0x80 ≤ d) × (d ≤ 0xBF)
      → IsSanitary s
      → IsSanitary (a ∷ b ∷ c ∷ d ∷ s)

replacement-IsSanitary : {s : Bytes} → IsSanitary s → IsSanitary (replacement ++ s)
replacement-IsSanitary h = one (omega arith) (
    one (omega arith)
      (one (omega arith) (one (omega arith) (one (omega arith) (one (omega arith) h)))))

-- What stands at the head of a text, as `sequence` sees it.
data Head : Bytes → ℕ → Type 0 where
  bad : {a : ℕ} {s : Bytes} → Head (a ∷ s) 0
  ascii : {a : ℕ} {s : Bytes} → a < 0x80 → Head (a ∷ s) 1
  pair :
      {a b : ℕ} {s : Bytes} → (0xC2 ≤ a) × (a ≤ 0xDF) → (0x80 ≤ b) × (b ≤ 0xBF) → Head (a ∷ b ∷ s) 2
  triple :
      {a b c : ℕ} {s : Bytes}
      → (0xE0 ≤ a) × (a ≤ 0xEF)
      → (0x80 ≤ b) × (b ≤ 0xBF)
      → (0x80 ≤ c) × (c ≤ 0xBF)
      → Head (a ∷ b ∷ c ∷ s) 3
  quad :
      {a b c d : ℕ} {s : Bytes}
      → (0xF0 ≤ a) × (a ≤ 0xF4)
      → (0x80 ≤ b) × (b ≤ 0xBF)
      → (0x80 ≤ c) × (c ≤ 0xBF)
      → (0x80 ≤ d) × (d ≤ 0xBF)
      → Head (a ∷ b ∷ c ∷ d ∷ s) 4

within_range : (lo hi c : ℕ) → within lo hi c ≡ true → (lo ≤ c) × (c ≤ hi)
within_range lo hi c h = ground arith

pair-Head :
    (a : ℕ) (s : Bytes) → (0xC2 ≤ a) × (a ≤ 0xDF) → Head (a ∷ s) (if continues 1 s then 2 else 0)
pair-Head a [] h = bad
pair-Head a (b ∷ s) h = elim (Bool-cases (within 0x80 0xBF b)) [
  | inl e ↦ rw e (pair h (within_range 0x80 0xBF b e))
  | inr e ↦ rw e bad
]

triple-Head :
    (a : ℕ) (s : Bytes) → (0xE0 ≤ a) × (a ≤ 0xEF) → Head (a ∷ s) (if continues 2 s then 3 else 0)
triple-Head a [] h = bad
triple-Head a (b ∷ []) h = elim (Bool-cases (within 0x80 0xBF b)) [
  | inl e ↦ rw e bad
  | inr e ↦ rw e bad
]
triple-Head a (b ∷ c ∷ s) h = elim (Bool-cases (within 0x80 0xBF b)) [
  | inr e ↦ rw e bad
  | inl e ↦ elim (Bool-cases (within 0x80 0xBF c)) [
    | inl d ↦ rw (e, d) (triple h (within_range 0x80 0xBF b e) (within_range 0x80 0xBF c d))
    | inr d ↦ rw (e, d) bad
  ]
]

quad-Head :
    (a : ℕ) (s : Bytes) → (0xF0 ≤ a) × (a ≤ 0xF4) → Head (a ∷ s) (if continues 3 s then 4 else 0)
quad-Head a [] h = bad
quad-Head a (b ∷ []) h = elim (Bool-cases (within 0x80 0xBF b)) [
  | inl e ↦ rw e bad
  | inr e ↦ rw e bad
]
quad-Head a (b ∷ c ∷ []) h = elim (Bool-cases (within 0x80 0xBF b)) [
  | inr e ↦ rw e bad
  | inl e ↦ elim (Bool-cases (within 0x80 0xBF c)) [ inl d ↦ rw (e, d) bad | inr d ↦ rw (e, d) bad ]
]
quad-Head a (b ∷ c ∷ d ∷ s) h = elim (Bool-cases (continues 3 (b ∷ c ∷ d ∷ s))) [
  | inr e ↦ rw e bad
  | inl e ↦
      let p : (0x80 ≤ b) × (b ≤ 0xBF) × (0x80 ≤ c) × (c ≤ 0xBF) × (0x80 ≤ d) × (d ≤ 0xBF) =
        ground arith in
      let (b_low, b_high, c_low, c_high, d_low, d_high) = p in
      rw e (quad h (b_low, b_high) (c_low, c_high) (d_low, d_high))
]

sequence-Head : (a : ℕ) (s : Bytes) → Head (a ∷ s) (sequence (a ∷ s))
unfolding sequence
sequence-Head a s = elim (Bool-cases (ltb a 0x80)) [
  | inl e ↦ rw e (ascii (ltb→lt a 0x80 e))
  | inr e ↦ rw e (elim (Bool-cases (within 0xC2 0xDF a)) [
    | inl d ↦ rw d (pair-Head a s (within_range 0xC2 0xDF a d))
    | inr d ↦ rw d (elim (Bool-cases (within 0xE0 0xEF a)) [
      | inl c ↦ rw c (triple-Head a s (within_range 0xE0 0xEF a c))
      | inr c ↦ rw c (elim (Bool-cases (within 0xF0 0xF4 a)) [
        | inl b ↦ rw b (quad-Head a s (within_range 0xF0 0xF4 a b))
        | inr b ↦ rw b bad
      ])
    ])
  ])
]

sanitize_from-Head :
    (f : ℕ) {t : Bytes} {n : ℕ}
    → Head t n
    → sequence t ≡ n
    → length t < suc f
    → ((u : Bytes) → length u < f → IsSanitary (sanitize_from 0 u))
    → IsSanitary (sanitize_from 0 t)
unfolding sanitize_from
sanitize_from-Head f (bad {s}) e h go =
    rw (e, sanitize_from) (replacement-IsSanitary (go s (omega arith)))
sanitize_from-Head f (ascii {s} p) e h go = rw (e, sanitize_from) (one p (go s (omega arith)))
sanitize_from-Head f (pair {s} p q) e h go = rw (e, sanitize_from) (two p q (go s (omega arith)))
sanitize_from-Head f (triple {s} p q r) e h go =
    rw (e, sanitize_from) (three p q r (go s (omega arith)))
sanitize_from-Head f (quad {s} p q r o) e h go =
    rw (e, sanitize_from) (four p q r o (go s (omega arith)))

sanitize_from-IsSanitary : (f : ℕ) (s : Bytes) → length s < f → IsSanitary (sanitize_from 0 s)
unfolding sanitize_from
sanitize_from-IsSanitary zero s h = absurd (omega arith)
sanitize_from-IsSanitary (suc f) [] h = done
sanitize_from-IsSanitary (suc f) (c ∷ s) h =
    sanitize_from-Head f (sequence-Head c s) refl h (sanitize_from-IsSanitary f)

sequence-one : {a : ℕ} (s : Bytes) → a < 0x80 → sequence (a ∷ s) ≡ 1
unfolding sequence
sequence-one s p = ground arith

sequence-two :
    {a b : ℕ} (s : Bytes)
    → (0xC2 ≤ a) × (a ≤ 0xDF)
    → (0x80 ≤ b) × (b ≤ 0xBF)
    → sequence (a ∷ b ∷ s) ≡ 2
unfolding sequence
sequence-two s p q = ground arith

sequence-three :
    {a b c : ℕ} (s : Bytes)
    → (0xE0 ≤ a) × (a ≤ 0xEF)
    → (0x80 ≤ b) × (b ≤ 0xBF)
    → (0x80 ≤ c) × (c ≤ 0xBF)
    → sequence (a ∷ b ∷ c ∷ s) ≡ 3
unfolding sequence
sequence-three s p q r = ground arith

sequence-four :
    {a b c d : ℕ} (s : Bytes)
    → (0xF0 ≤ a) × (a ≤ 0xF4)
    → (0x80 ≤ b) × (b ≤ 0xBF)
    → (0x80 ≤ c) × (c ≤ 0xBF)
    → (0x80 ≤ d) × (d ≤ 0xBF)
    → sequence (a ∷ b ∷ c ∷ d ∷ s) ≡ 4
unfolding sequence
sequence-four s p q r o = ground arith

sanitize_from-same : {s : Bytes} → IsSanitary s → sanitize_from 0 s ≡ s
unfolding sanitize_from
sanitize_from-same done = refl
sanitize_from-same (one {a} {s} p h) =
    let e : sequence (a ∷ s) ≡ 1 = sequence-one s p in
    rw (e, sanitize_from) (ap (◌∷◌ a) (sanitize_from-same h))
sanitize_from-same (two {a} {b} {s} p q h) =
    let e : sequence (a ∷ b ∷ s) ≡ 2 = sequence-two s p q in
    rw (e, sanitize_from) (ap (λ x. a ∷ b ∷ x) (sanitize_from-same h))
sanitize_from-same (three {a} {b} {c} {s} p q r h) =
    let e : sequence (a ∷ b ∷ c ∷ s) ≡ 3 = sequence-three s p q r in
    rw (e, sanitize_from) (ap (λ x. a ∷ b ∷ c ∷ x) (sanitize_from-same h))
sanitize_from-same (four {a} {b} {c} {d} {s} p q r o h) =
    let e : sequence (a ∷ b ∷ c ∷ d ∷ s) ≡ 4 = sequence-four s p q r o in
    rw (e, sanitize_from) (ap (λ x. a ∷ b ∷ c ∷ d ∷ x) (sanitize_from-same h))

length-round :
    (n c k : ℕ) (go : ℕ → Bytes) → ((m : ℕ) → length (go m) ≤ k) → length (round n c go) ≤ k + 6
length-round zero c k go h = let below = h 0 in omega arith
length-round (suc n) c k go h = let below = h n in omega arith

length-sanitize_from : (n : ℕ) (s : Bytes) → length (sanitize_from n s) ≤ 6 * length s
unfolding sanitize_from
length-sanitize_from zero [] = omega arith
length-sanitize_from (suc n) [] = omega arith
length-sanitize_from (suc n) (c ∷ s) = let h = length-sanitize_from n s in omega arith
length-sanitize_from zero (c ∷ s) = omega (
  arith,
  length-round (sequence (c ∷ s)) c (6 * length s) (λ n. sanitize_from n s)
      (λ n. length-sanitize_from n s),
)

-- util_sanitize_utf8 writes sequences that it accepts itself, leaves a text of such sequences as
-- it is, so that a second pass changes nothing, and stays within the six bytes for each byte that
-- it reserves.
pub sanitize_utf8_lem :
    (s : Bytes)
    → IsSanitary (sanitize_utf8 (some s))
      × (IsSanitary s → sanitize_utf8 (some s) ≡ s)
      × (sanitize_utf8 (some (sanitize_utf8 (some s))) ≡ sanitize_utf8 (some s))
      × (length (sanitize_utf8 (some s)) ≤ 6 * length s)
unfolding sanitize_utf8
sanitize_utf8_lem s =
    let h = sanitize_from-IsSanitary (suc (length s)) s (omega arith) in
    (h, sanitize_from-same, sanitize_from-same h, length-sanitize_from 0 s)
