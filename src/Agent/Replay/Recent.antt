-- ===== src/Agent/Replay/Recent.antt =====
-- find_recent_turn_start_offset: the ring of offsets keeps the last ones.
use native.Mathlib.Nat.{div-add-mod, mod-eq-sub-mod, mod-eq_of_lt, mod-lt, mul-le-mul_left}
use bash_agent.Agent.Replay.{
  Ring, find_recent_turn_start_offset, ring_add, ring_fill, ring_start, turn_offsets, user_mark,
}
use bash_agent.Base.{
  Bool-cases, Bytes, List, [], ap, append-nil, append_assoc, arith, c_string, contains, false,
  get_or, if◌then◌else◌, inl, inr, leb, leb→le, length, length-append, refl, replicate, set, strstr,
  suc, sym, zero, ℕ, ◌%◌, ◌*◌, ◌++◌, ◌+◌, ◌-◌, ◌/◌, ◌<◌, ◌==◌, ◌∙◌, ◌∷◌, ◌≡◌, ◌≢◌, ◌≤◌,
}
use bash_agent.Tools.Files.{split_from}
use bash_agent.Transport.Lines.{feed}

module _ {ℓ} {A : Type ℓ} (d : A) where
  get_or-set_self : (xs : List A) (i : ℕ) (v : A) → i < length xs → get_or (set xs i v) i d ≡ v
  get_or-set_self [] i v h = absurd (omega arith)
  get_or-set_self (x ∷ xs) zero v h = refl
  get_or-set_self (x ∷ xs) (suc i) v h = get_or-set_self xs i v (omega arith)

  get_or-set_other :
      (xs : List A) (i j : ℕ) (v : A) → i ≢ j → get_or (set xs i v) j d ≡ get_or xs j d
  get_or-set_other [] i j v h = refl
  get_or-set_other (x ∷ xs) zero zero v h = absurd (h refl)
  get_or-set_other (x ∷ xs) zero (suc j) v h = refl
  get_or-set_other (x ∷ xs) (suc i) zero v h = refl
  get_or-set_other (x ∷ xs) (suc i) (suc j) v h = get_or-set_other xs i j v (λ e. h (ap suc e))

  length-set : (xs : List A) (i : ℕ) (v : A) → length (set xs i v) ≡ length xs
  length-set [] i v = refl
  length-set (x ∷ xs) zero v = refl
  length-set (x ∷ xs) (suc i) v = ap suc (length-set xs i v)

  get_or-append_left :
      (xs ys : List A) (i : ℕ) → i < length xs → get_or (xs ++ ys) i d ≡ get_or xs i d
  get_or-append_left [] ys i h = absurd (omega arith)
  get_or-append_left (x ∷ xs) ys zero h = refl
  get_or-append_left (x ∷ xs) ys (suc i) h = get_or-append_left xs ys i (omega arith)

  get_or-append_last : (xs : List A) (v : A) → get_or (xs ++ v ∷ []) (length xs) d ≡ v
  get_or-append_last [] v = refl
  get_or-append_last (x ∷ xs) v = get_or-append_last xs v

  length-replicate : (n : ℕ) (v : A) → length (replicate n v) ≡ n
  length-replicate zero v = refl
  length-replicate (suc n) v = ap suc (length-replicate n v)

-- two numbers less than `m` apart have different rests
mod_apart : (m i s : ℕ) → i < s → s < i + m → s % m ≢ i % m
mod_apart m i s h k e = elim (Bool-cases (leb (s / m) (i / m))) [
  | inl le ↦
      let below = mul-le-mul_left m (leb→le (s / m) (i / m) le) in
      absurd (omega (arith, div-add-mod s m, div-add-mod i m, below))
  | inr gt ↦
      let above : suc (i / m) ≤ s / m = ground arith in
      let far : m * suc (i / m) ≤ m * (s / m) = mul-le-mul_left m above in
      let more : m * suc (i / m) ≡ m * (i / m) + m = grind arith in
      absurd (omega (arith, div-add-mod s m, div-add-mod i m, far, more))
]

-- The ring after the offsets `seen`: each of the last ones stands at its place.
record Holds (m : ℕ) (r : Ring) (seen : List ℕ) : Type 0 where
  counted : r.seen ≡ length seen
  size : length r.offsets ≡ m
  kept :
      (i : ℕ) → i < length seen → length seen ≤ i + m → get_or r.offsets (i % m) 0 ≡ get_or seen i 0

Holds-start : (m : ℕ) → Holds m (record { offsets = replicate m 0; seen = 0 }) []
Holds-start m = record {
  counted = refl;
  size = length-replicate 0 m 0;
  kept = λ i h k. absurd (omega arith);
}

Holds-add :
    (m : ℕ) (r : Ring) (seen : List ℕ) (at : ℕ)
    → 0 < m
    → Holds m r seen
    → Holds m (ring_add m r at) (seen ++ at ∷ [])
unfolding ring_add
Holds-add m r seen at positive h = record {
  counted = omega (arith, h.counted, length-append seen (at ∷ []));
  size = length-set 0 r.offsets (r.seen % m) at ∙ h.size;
  kept = λ i lt near.
      kept i (omega (arith, length-append seen (at ∷ [])))
        (omega (arith, length-append seen (at ∷ [])));
}
  where
    kept :
        (i : ℕ)
        → i < length seen + 1
        → length seen + 1 ≤ i + m
        → get_or (set r.offsets (r.seen % m) at) (i % m) 0 ≡ get_or (seen ++ at ∷ []) i 0
    kept i lt near = elim (Bool-cases (i == length seen)) [
      | inl last ↦
          let same : i ≡ length seen = ground arith in
          rw (same, h.counted)
            (get_or-set_self 0 r.offsets (length seen % m) at
                (omega (arith, h.size, mod-lt (length seen) positive))
              ∙ sym (get_or-append_last 0 seen at))
      | inr other ↦
          let earlier : i < length seen = ground arith in
          get_or-set_other 0 r.offsets (r.seen % m) (i % m) at
            (rw h.counted (mod_apart m i (length seen) earlier (omega arith)))
          ∙ h.kept i earlier (omega arith)
          ∙ sym (get_or-append_left 0 seen (at ∷ []) i earlier)
    ]

Holds-fill :
    (m : ℕ) (r : Ring) (seen more : List ℕ)
    → 0 < m
    → Holds m r seen
    → Holds m (ring_fill m r more) (seen ++ more)
unfolding ring_fill
Holds-fill m r seen [] positive h = rw append-nil h
Holds-fill m r seen (at ∷ more) positive h = rw (append_assoc seen (at ∷ []) more) at (
    Holds-fill m (ring_add m r at) (seen ++ at ∷ []) more positive
      (Holds-add m r seen at positive h))

ring_start-Holds :
    (m : ℕ) (r : Ring) (seen : List ℕ)
    → 0 < m
    → Holds m r seen
    → ring_start m r ≡ get_or seen (length seen - m) 0
unfolding ring_start
ring_start-Holds m r [] positive h = rw h.counted refl
ring_start-Holds m r (at ∷ seen) positive h =
    let n : ℕ = suc (length seen) in
    let some_seen : (n == 0) ≡ false = ground arith in
    rw h.counted (elim (Bool-cases (leb m n)) [
      | inl full ↦
          let le = leb→le m n full in
          rw (full, some_seen)
            (ap (λ j. get_or r.offsets j 0) (mod-eq-sub-mod le)
              ∙ h.kept (n - m) (omega arith) (omega arith))
      | inr short ↦
          let none_over : n - m ≡ 0 = ground arith in
          rw (short, some_seen, none_over)
            (ap (λ j. get_or r.offsets j 0) (sym (mod-eq_of_lt positive))
              ∙ h.kept 0 (omega arith) (ground arith))
    ])

-- where the lines of user inputs begin; `at` is where the first of the lines does
abbrev pub turn_starts : ℕ → List Bytes → List ℕ
turn_starts at [] = []
turn_starts at (l ∷ ls) =
    (if contains (c_string l) user_mark then at ∷ [] else []) ++ turn_starts (at + length l + 1) ls

turn_offsets-nil :
    (at : ℕ) (line : Bytes) → turn_offsets at line [] ≡ turn_starts at (split_from line [])
unfolding turn_offsets split_from strstr
turn_offsets-nil at [] = refl
turn_offsets-nil at (c ∷ line) = sym (append-nil _)

turn_offsets-turn_starts :
    (at : ℕ) (line s : Bytes) → turn_offsets at line s ≡ turn_starts at (split_from line s)
unfolding turn_offsets split_from
turn_offsets-turn_starts at line [] = turn_offsets-nil at line
turn_offsets-turn_starts at line (c ∷ s) = elim (Bool-cases (c == b'\n')) [
  | inr other ↦ rw other (turn_offsets-turn_starts at (line ++ c ∷ []) s)
  | inl feed ↦
      let rest = turn_offsets-turn_starts (at + length line + 1) [] s in
      rw (feed, rest)
        (elim (Bool-cases (contains (c_string line) user_mark)) [
          | inl e ↦ rw e refl
          | inr e ↦ rw e refl
        ])
]

-- The replay starts at the line of the user input that is `max_turns` from the end, at the first
-- one if there are fewer, and at 0 if there is none; a bound of 0 counts as 10. The lines are
-- those of the file, and each begins behind the line feed of the one in front.
pub find_recent_turn_start_offset_lem :
    (file : Bytes) (max_turns : ℕ)
    → let starts = turn_starts 0 (split_from [] file) in
      find_recent_turn_start_offset file max_turns
      ≡ get_or starts (length starts - (if max_turns == 0 then 10 else max_turns)) 0
unfolding find_recent_turn_start_offset
find_recent_turn_start_offset_lem file max_turns =
    let bound = if max_turns == 0 then 10 else max_turns in
    let offsets = turn_offsets 0 [] file in
    let positive : 0 < bound = ground arith in
    let none_yet : Ring = record { offsets = replicate bound 0; seen = 0 } in
    rw⁻¹ (turn_offsets-turn_starts 0 [] file) (
      ring_start-Holds bound (ring_fill bound none_yet offsets) offsets positive
        (Holds-fill bound none_yet [] offsets positive (Holds-start bound)))
