-- ===== src/Util/Paths/Joined.antt =====
-- The path and text helpers of c/util.c.
use bash_agent.Base.{
  Bool-cases, Bytes, [], ap, append-nil, append_assoc, arith, false, get_or, if◌then◌else◌, inl,
  inr, length, ltb, none, not, peek, refl, some, suc, sym, take, true, within, zero, ℕ, ◌*◌, ◌++◌,
  ◌<◌, ◌==◌, ◌||◌, ◌∙◌, ◌∷◌, ◌≡◌, ◌≤◌,
}
use bash_agent.Util.Decimal.{decimal, peek-decimal, read_digits-decimal}
use bash_agent.Util.Paths.{
  is_blank, is_space, last_byte, needs_slash, parse_size, path_join, rtrim, sized, skip_slashes,
  skip_space, strtol_positive, trimmed_len,
}

skip_slashes-plain : (b : Bytes) → (peek b == b'/') ≡ false → skip_slashes b ≡ b
unfolding skip_slashes
skip_slashes-plain [] h = refl
skip_slashes-plain (c ∷ b) h = rw h refl

last_byte-append : (a : Bytes) (c : ℕ) (s : Bytes) → last_byte (a ++ c ∷ s) ≡ last_byte (c ∷ s)
last_byte-append [] c s = refl
last_byte-append (b ∷ []) c s = refl
last_byte-append (b ∷ d ∷ a) c s = last_byte-append (d ∷ a) c s

needs_slash-append :
    (a : Bytes) (c : ℕ) (s : Bytes) → needs_slash (a ++ c ∷ s) ≡ not (last_byte (c ∷ s) == b'/')
needs_slash-append [] c s = refl
needs_slash-append (b ∷ a) c s = ap (λ x. not (x == b'/')) (last_byte-append (b ∷ a) c s)

-- the first name of a path in front of the second
abbrev with_slash : Bytes → Bytes
with_slash a = if needs_slash a then a ++ b'/' ∷ [] else a

with_slash-append :
    (a : Bytes) (c : ℕ) (s : Bytes) → with_slash (a ++ c ∷ s) ≡ a ++ with_slash (c ∷ s)
with_slash-append a c s = elim (Bool-cases (last_byte (c ∷ s) == b'/')) [
  | inl e ↦ rw (needs_slash-append a c s, e) refl
  | inr e ↦ rw (needs_slash-append a c s, e) (append_assoc a (c ∷ s) (b'/' ∷ []))
]

peek-with_slash : (c : ℕ) (s t : Bytes) → peek (with_slash (c ∷ s) ++ t) ≡ c
peek-with_slash c s t = elim (Bool-cases (last_byte (c ∷ s) == b'/')) [
  | inl e ↦ rw e refl
  | inr e ↦ rw e refl
]

-- util_path_join is associative where the middle part is not empty and does not begin with a
-- slash, and a joined path has exactly one slash between the parts: leading slashes of the second
-- part are dropped, and one is added only behind a first part that does not end in one.
pub path_join_lem :
    (a : Bytes) (d : ℕ) (b c : Bytes)
    → (d == b'/') ≡ false
    → (path_join (path_join a (d ∷ b)) c ≡ path_join a (path_join (d ∷ b) c))
      × (path_join a (b'/' ∷ c) ≡ path_join a c)
      × (path_join (a ++ b'/' ∷ []) (d ∷ b) ≡ a ++ b'/' ∷ d ∷ b)
      × (needs_slash a ≡ true → path_join a (d ∷ b) ≡ a ++ b'/' ∷ d ∷ b)
unfolding path_join
path_join_lem a d b c h =
    let plain = skip_slashes-plain (d ∷ b) h in
    (
      rw
          (
            plain,
            skip_slashes-plain (with_slash (d ∷ b) ++ skip_slashes c)
                (ap (λ x. x == b'/') (peek-with_slash d b (skip_slashes c)) ∙ h),
          )
          (ap (λ x. x ++ skip_slashes c) (with_slash-append (with_slash a) d b)
            ∙ append_assoc (with_slash a) (with_slash (d ∷ b)) (skip_slashes c)),
      refl,
      rw (plain, needs_slash-append a b'/' []) (append_assoc a (b'/' ∷ []) (d ∷ b)),
      λ e. rw (plain, e) (append_assoc a (b'/' ∷ []) (d ∷ b)),
    )

trimmed_len_lem :
    (s : Bytes) (n : ℕ)
    → ((i : ℕ) → suc i ≡ trimmed_len s n → is_blank (get_or s i 0) ≡ false)
      × ((i : ℕ) → trimmed_len s n ≤ i → i < n → is_blank (get_or s i 0) ≡ true)
unfolding trimmed_len
trimmed_len_lem s zero = (λ i k. absurd (omega arith), λ i k l. absurd (omega arith))
trimmed_len_lem s (suc n) = elim (Bool-cases (is_blank (get_or s n 0))) [
  | inr e ↦ rw e (λ i k. let same : i ≡ n = omega arith in rw same e, λ i k l. absurd (omega arith))
  | inl e ↦
      let (stop, blank) = trimmed_len_lem s n in
      rw e (
        stop,
        λ i k l. elim (Bool-cases (i == n)) [
          | inl d ↦ let same : i ≡ n = ground arith in rw same e
          | inr d ↦ let below : i < n = ground arith in blank i k below
        ],
      )
]

-- util_rtrim removes blanks from the end and nothing else: what is left is a prefix whose last
-- byte is no blank, and all bytes behind it are blanks.
pub rtrim_lem :
    (s : Bytes)
    → let n = trimmed_len s (length s) in
      (rtrim s ≡ take n s)
      × ((i : ℕ) → suc i ≡ n → is_blank (get_or s i 0) ≡ false)
      × ((i : ℕ) → n ≤ i → i < length s → is_blank (get_or s i 0) ≡ true)
unfolding rtrim
rtrim_lem s = let (stop, blank) = trimmed_len_lem s (length s) in (refl, stop, blank)

skip_space-plain : (s : Bytes) → is_space (peek s) ≡ false → skip_space s ≡ s
unfolding skip_space
skip_space-plain [] h = refl
skip_space-plain (c ∷ s) h = rw h refl

strtol_positive-decimal :
    (n : ℕ) (rest : Bytes)
    → within b'0' b'9' (peek rest) ≡ false
    → strtol_positive (decimal n ++ rest) ≡ (if ltb 0 n then some (n, rest) else none)
unfolding strtol_positive
strtol_positive-decimal n rest h =
    let t = decimal n ++ rest in
    let digit : within b'0' b'9' (peek t) ≡ true = peek-decimal n rest in
    let no_space : is_space (peek t) ≡ false = ground arith in
    let no_plus : (peek t == b'+') ≡ false = ground arith in
    rw (skip_space-plain t no_space, no_plus, read_digits-decimal n rest h) refl

sized-end : (n : ℕ) → sized (some (n, [])) ≡ some n
sized-end n = ap some (omega arith)

sized-unit :
    (n c : ℕ)
    → 0 < c
    → sized (some (n, c ∷ [])) ≡ (
        if c == b'k' || c == b'K'
        then some (n * 1000)
        else if c == b'm' || c == b'M'
        then some (n * 1000000)
        else if c == b'g' || c == b'G'
        then some (n * 1000000000)
        else none)
sized-unit n c h = ground arith

sized-more : (n c d : ℕ) (s : Bytes) → 0 < c → 0 < d → sized (some (n, c ∷ d ∷ s)) ≡ none
sized-more n c d s h k = ground arith

-- util_parse_size reads a printed positive number, and multiplies it by the unit behind it: k, m
-- and g in either case are thousands, millions and thousands of millions. Zero, and anything else
-- behind the number, are refused.
pub parse_size_lem :
    (n : ℕ) (c d : ℕ) (s : Bytes)
    → 0 < n
    → 0 < c
    → 0 < d
    → within b'0' b'9' c ≡ false
    → (parse_size (some (decimal n)) ≡ some n)
      × (parse_size (some (decimal n ++ c ∷ [])) ≡ (
          if c == b'k' || c == b'K'
          then some (n * 1000)
          else if c == b'm' || c == b'M'
          then some (n * 1000000)
          else if c == b'g' || c == b'G'
          then some (n * 1000000000)
          else none))
      × (parse_size (some (decimal n ++ c ∷ d ∷ s)) ≡ none)
      × (parse_size (some (decimal 0)) ≡ none)
unfolding parse_size
parse_size_lem n c d s p q o h =
    let positive : ltb 0 n ≡ true = ground arith in
    let alone =
      ap (λ x. sized (strtol_positive x)) (sym (append-nil (decimal n)))
      ∙ ap sized (strtol_positive-decimal n [] refl) in
    (
      alone ∙ rw positive (sized-end n),
      ap sized (strtol_positive-decimal n (c ∷ []) h) ∙ rw positive (sized-unit n c q),
      ap sized (strtol_positive-decimal n (c ∷ d ∷ s) h) ∙ rw positive (sized-more n c d s q o),
      ap (λ x. sized (strtol_positive x)) (sym (append-nil (decimal 0)))
          ∙ ap sized (strtol_positive-decimal 0 [] refl),
    )
