-- ===== src/Util/Utf8/Cut.antt =====
-- Where the truncations of c/util.c cut a text.
use bash_agent.Base.{
  All, Bool-cases, Bytes, [], ap, arith, false, get_or, inl, inr, leb, length, peek, refl, suc, sym,
  take, take_all, true, zero, ℕ, ◌++◌, ◌+◌, ◌<◌, ◌==◌, ◌∙◌, ◌∷◌, ◌≡◌, ◌≤◌,
}
use bash_agent.Util.Utf8.{is_tail, step_back, truncate_len}
use bash_agent.Util.Utf8.Sanitized.{IsSanitary, done, four, one, three, two}

tail_byte : (c : ℕ) → (0x80 ≤ c) × (c ≤ 0xBF) → is_tail c ≡ true
tail_byte c h = ground arith

-- the first byte of a text that util_sanitize_utf8 leaves as it is starts a character
peek-IsSanitary : {s : Bytes} → IsSanitary s → is_tail (peek s) ≡ false
peek-IsSanitary done = refl
peek-IsSanitary (one p h) = ground arith
peek-IsSanitary (two p q h) = ground arith
peek-IsSanitary (three p q r h) = ground arith
peek-IsSanitary (four p q r o h) = ground arith

get_or-behind : (p s : Bytes) (m n : ℕ) → m ≡ length p + n → get_or (p ++ s) m 0 ≡ get_or s n 0
get_or-behind [] s m n e = ap (λ x. get_or s x 0) (omega arith)
get_or-behind (c ∷ p) s zero n e = absurd (omega arith)
get_or-behind (c ∷ p) s (suc m) n e = get_or-behind p s m n (omega arith)

get_or-peek : (s : Bytes) → get_or s 0 0 ≡ peek s
get_or-peek [] = refl
get_or-peek (c ∷ s) = refl

-- the loop stops at the first byte of a character
step_back-stop : (s : Bytes) (n : ℕ) → is_tail (get_or s n 0) ≡ false → step_back s n ≡ n
unfolding step_back
step_back-stop s zero h = refl
step_back-stop s (suc n) h = rw h

step_back-tail :
    (s : Bytes) (n : ℕ) → is_tail (get_or s (suc n) 0) ≡ true → step_back s (suc n) ≡ step_back s n
unfolding step_back
step_back-tail s n h = rw h

pub step_back-behind :
    (p s : Bytes) (m n : ℕ)
    → m ≡ length p + n
    → is_tail (peek s) ≡ false
    → step_back (p ++ s) m ≡ length p + step_back s n
unfolding step_back
step_back-behind p s m zero e h =
    step_back-stop (p ++ s) m (ap is_tail (get_or-behind p s m 0 e ∙ get_or-peek s) ∙ h) ∙ e
step_back-behind p s zero (suc n) e h = absurd (omega arith)
step_back-behind p s (suc m) (suc n) e h = elim (Bool-cases (is_tail (get_or s (suc n) 0))) [
  | inl d ↦
      step_back-tail (p ++ s) m (ap is_tail (get_or-behind p s (suc m) (suc n) e) ∙ d)
      ∙ step_back-behind p s m n (omega arith) h
      ∙ ap (λ x. length p + x) (sym (step_back-tail s n d))
  | inr d ↦
      step_back-stop (p ++ s) (suc m) (ap is_tail (get_or-behind p s (suc m) (suc n) e) ∙ d)
      ∙ e
      ∙ ap (λ x. length p + x) (sym (step_back-stop s (suc n) d))
]

get_or-tail :
    (p s : Bytes) (n : ℕ)
    → All (λ c. is_tail c ≡ true) p
    → n < length p
    → is_tail (get_or (p ++ s) n 0) ≡ true
get_or-tail [] s n h lt = absurd (omega arith)
get_or-tail (c ∷ p) s zero (e, h) lt = e
get_or-tail (c ∷ p) s (suc n) (e, h) lt = get_or-tail p s n h (omega arith)

-- Inside a character the loop goes back to its first byte.
step_back-inside :
    (p s : Bytes) (n : ℕ)
    → All (λ c. is_tail c ≡ true) p
    → n ≤ length p
    → (a : ℕ) → step_back (a ∷ (p ++ s)) n ≡ 0
unfolding step_back
step_back-inside p s zero h le a = refl
step_back-inside p s (suc n) h le a =
    step_back-tail (a ∷ (p ++ s)) n (get_or-tail p s n h (omega arith))
    ∙ step_back-inside p s n h (omega arith) a

take-behind : (p s : Bytes) (m k : ℕ) → m ≡ length p + k → take m (p ++ s) ≡ p ++ take k s
take-behind [] s m k e = ap (λ x. take x s) (omega arith)
take-behind (c ∷ p) s zero k e = absurd (omega arith)
take-behind (c ∷ p) s (suc m) k e = ap (◌∷◌ c) (take-behind p s m k (omega arith))

step_back-zero : {s : Bytes} → IsSanitary s → IsSanitary (take (step_back s 0) s)
unfolding step_back
step_back-zero h = done

take-nil : (n : ℕ) → IsSanitary (take n [])
take-nil zero = done
take-nil (suc n) = done

step_back-more :
    (s : Bytes) (n k : ℕ)
    → is_tail (get_or s (suc n) 0) ≡ true
    → ((i : ℕ) → k < i → i ≤ n → is_tail (get_or s i 0) ≡ true)
    → (i : ℕ) → k < i
    → i ≤ suc n
    → is_tail (get_or s i 0) ≡ true
step_back-more s n k e more i lt le = elim (Bool-cases (i == suc n)) [
  | inl d ↦ let same : i ≡ suc n = ground arith in rw same e
  | inr d ↦ let below : i ≤ n = ground arith in more i lt below
]

-- a cut inside the first character keeps nothing of it
cut_inside :
    (a : ℕ) (p s : Bytes) (n : ℕ)
    → All (λ c. is_tail c ≡ true) p
    → n ≤ length p
    → IsSanitary (take (step_back (a ∷ (p ++ s)) n) (a ∷ (p ++ s)))
cut_inside a p s n h le = rw (step_back-inside p s n h le a) done

-- a cut behind the first character is one of the rest
cut_behind :
    (p s : Bytes) (n k : ℕ)
    → n ≡ length p + k
    → is_tail (peek s) ≡ false
    → take (step_back (p ++ s) n) (p ++ s) ≡ p ++ take (step_back s k) s
cut_behind p s n k e h =
    rw (step_back-behind p s n k e h)
      (take-behind p s (length p + step_back s k) (step_back s k) refl)

take-step_back-IsSanitary : {s : Bytes} (n : ℕ) → IsSanitary s → IsSanitary (take (step_back s n) s)
take-step_back-IsSanitary zero h = step_back-zero h
take-step_back-IsSanitary (suc n) done = take-nil (step_back [] (suc n))
take-step_back-IsSanitary (suc n) (one {a} {s} p h) =
    rw (cut_behind (a ∷ []) s (suc n) n (omega arith) (peek-IsSanitary h))
      (one p (take-step_back-IsSanitary n h))
take-step_back-IsSanitary (suc zero) (two {a} {b} {s} p q h) =
    cut_inside a (b ∷ []) s 1 (tail_byte b q, tt) (omega arith)
take-step_back-IsSanitary (suc (suc n)) (two {a} {b} {s} p q h) =
    rw (cut_behind (a ∷ b ∷ []) s (suc (suc n)) n (omega arith) (peek-IsSanitary h))
      (two p q (take-step_back-IsSanitary n h))
take-step_back-IsSanitary (suc zero) (three {a} {b} {c} {s} p q r h) =
    cut_inside a (b ∷ c ∷ []) s 1 (tail_byte b q, (tail_byte c r, tt)) (omega arith)
take-step_back-IsSanitary (suc (suc zero)) (three {a} {b} {c} {s} p q r h) =
    cut_inside a (b ∷ c ∷ []) s 2 (tail_byte b q, (tail_byte c r, tt)) (omega arith)
take-step_back-IsSanitary (suc (suc (suc n))) (three {a} {b} {c} {s} p q r h) =
    rw (cut_behind (a ∷ b ∷ c ∷ []) s (suc (suc (suc n))) n (omega arith) (peek-IsSanitary h))
      (three p q r (take-step_back-IsSanitary n h))
take-step_back-IsSanitary (suc zero) (four {a} {b} {c} {d} {s} p q r o h) =
    cut_inside a (b ∷ c ∷ d ∷ []) s 1 (tail_byte b q, (tail_byte c r, (tail_byte d o, tt)))
      (omega arith)
take-step_back-IsSanitary (suc (suc zero)) (four {a} {b} {c} {d} {s} p q r o h) =
    cut_inside a (b ∷ c ∷ d ∷ []) s 2 (tail_byte b q, (tail_byte c r, (tail_byte d o, tt)))
      (omega arith)
take-step_back-IsSanitary (suc (suc (suc zero))) (four {a} {b} {c} {d} {s} p q r o h) =
    cut_inside a (b ∷ c ∷ d ∷ []) s 3 (tail_byte b q, (tail_byte c r, (tail_byte d o, tt)))
      (omega arith)
take-step_back-IsSanitary (suc (suc (suc (suc n)))) (four {a} {b} {c} {d} {s} p q r o h) =
    rw
      (cut_behind (a ∷ b ∷ c ∷ d ∷ []) s (suc (suc (suc (suc n)))) n (omega arith)
        (peek-IsSanitary h))
      (four p q r o (take-step_back-IsSanitary n h))

-- `k` is the last index up to `n` at which a character starts, or 0.
abbrev pub IsStart : Bytes → ℕ → ℕ → Type 0
IsStart s n k =
    (k ≤ n)
    × (0 < k → is_tail (get_or s k 0) ≡ false)
    × ((i : ℕ) → k < i → i ≤ n → is_tail (get_or s i 0) ≡ true)

step_back-IsStart : (s : Bytes) (n : ℕ) → IsStart s n (step_back s n)
unfolding step_back
step_back-IsStart s zero = (omega arith, λ h. absurd (omega arith), λ i h k. absurd (omega arith))
step_back-IsStart s (suc n) = elim (Bool-cases (is_tail (get_or s (suc n) 0))) [
  | inr e ↦ rw e (omega arith, λ h. e, λ i h k. absurd (omega arith))
  | inl e ↦
      let (le, stop, more) = step_back-IsStart s n in
      rw e (omega arith, stop, step_back-more s n (step_back s n) e more)
]

-- util_utf8_truncate_len keeps a text that fits. Of a longer one it keeps the bytes in front of
-- the last character that starts at or before the bound, so that a text of whole characters is
-- cut into whole characters.
pub truncate_len_lem :
    (s : Bytes) (max_bytes : ℕ)
    → (length s ≤ max_bytes → truncate_len s max_bytes ≡ length s)
      × (max_bytes < length s → IsStart s max_bytes (truncate_len s max_bytes))
      × (IsSanitary s → IsSanitary (take (truncate_len s max_bytes) s))
unfolding truncate_len
truncate_len_lem s max_bytes = elim (Bool-cases (leb (length s) max_bytes)) [
  | inl e ↦
      rw e (λ h. refl, λ h. absurd (ground arith), λ h. rw (take_all (length s) s (omega arith)) h)
  | inr e ↦ rw e (
    λ h. absurd (ground arith),
    λ h. step_back-IsStart s max_bytes,
    λ h. take-step_back-IsSanitary max_bytes h,
  )
]
