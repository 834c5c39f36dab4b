-- ===== src/Tools/Policy/Separated.antt =====
-- How bash_classify_required_mode cuts a command line at the separators of commands.
use bash_agent.Base.{
  Bool, Bool-cases, Bytes, List, [], ap, append_assoc, arith, codes, false, if◌then◌else◌, inl, inr,
  not, refl, sym, true, ℕ, ◌&&◌, ◌++◌, ◌==◌, ◌||◌, ◌∙◌, ◌∷◌, ◌≡◌,
}
use bash_agent.Tools.Policy.Commands.{join_lines, pieces, pieces_from, split_commands, with_piece}
use bash_agent.Tools.Policy.Scan.{lower, to_lower}

abbrev is_feed : ℕ → Bool
is_feed c = c == b'\n'

lower-append : (s t : Bytes) → lower (s ++ t) ≡ lower s ++ lower t
lower-append [] t = refl
lower-append (c ∷ s) t = ap (◌∷◌ (to_lower c)) (lower-append s t)

if-append {ℓ} :
    {A : Type ℓ} (b : Bool) (x y : List A) {u v : List A} (z : List A)
    → u ≡ x ++ z
    → v ≡ y ++ z
    → (if b then u else v) ≡ (if b then x else y) ++ z
if-append true x y z e d = e
if-append false x y z e d = d

-- no character of a separator, no backslash and no line feed
abbrev pub is_plain : ℕ → Bool
is_plain c = not (c == b'&' || c == b'|' || c == b';' || c == b'\\' || c == b'\n')

-- a command that ends with such a character
abbrev pub EndsPlain : Bytes → Type 0
EndsPlain s = (p : Bytes) × (x : ℕ) × (s ≡ p ++ x ∷ []) × (is_plain x ≡ true)

-- What separates a command from the next one. In front of `&&` and `||` the command ends with a
-- plain character, such as a space.
pub data Joins (s : Bytes) : Bytes → Type 0 where
  semicolon : Joins s (codes ";")
  both : EndsPlain s → Joins s (codes "&&")
  either : EndsPlain s → Joins s (codes "||")

-- a character that join_lines does not join
abbrev unjoined : ℕ → Bool
unjoined x = not (x == b'\\' || x == b'\n')

join_lines-front : (x : ℕ) (t : Bytes) → unjoined x ≡ true → join_lines (x ∷ t) ≡ x ∷ join_lines t
unfolding join_lines
join_lines-front x [] h = refl
join_lines-front x (d ∷ t) h =
    let same : (x == b'\\' && d == b'\n') ≡ false = ground arith in rw same refl

join_lines-append :
    (s : Bytes) (x : ℕ) (t : Bytes)
    → unjoined x ≡ true
    → join_lines (s ++ x ∷ t) ≡ join_lines s ++ x ∷ join_lines t
unfolding join_lines
join_lines-append [] x t h = join_lines-front x t h
join_lines-append (c ∷ []) x t h =
    let same : (c == b'\\' && x == b'\n') ≡ false = ground arith in
    rw same (ap (◌∷◌ c) (join_lines-front x t h))
join_lines-append (c ∷ d ∷ s) x t h =
    if-append (c == b'\\' && d == b'\n') (b' ' ∷ b' ' ∷ join_lines s) (c ∷ join_lines (d ∷ s))
      (x ∷ join_lines t) (ap (λ y. b' ' ∷ b' ' ∷ y) (join_lines-append s x t h))
      (ap (◌∷◌ c) (join_lines-append (d ∷ s) x t h))

split_commands-front :
    (x : ℕ) (t : Bytes) → is_plain x ≡ true → split_commands (x ∷ t) ≡ x ∷ split_commands t
unfolding split_commands
split_commands-front x [] h = let same : (x == b';') ≡ false = ground arith in rw same refl
split_commands-front x (d ∷ t) h =
    let no_pair : (x == b'&' && d == b'&' || x == b'|' && d == b'|') ≡ false = ground arith in
    let same : (x == b';') ≡ false = ground arith in rw (no_pair, same) refl

-- a character that does not pair with the one in front of it
abbrev unpaired : ℕ → Bool
unpaired x = not (x == b'&' || x == b'|')

split_commands-append :
    (s : Bytes) (x y : ℕ) (t u : Bytes)
    → unpaired x ≡ true
    → split_commands (x ∷ t) ≡ y ∷ u
    → split_commands (s ++ x ∷ t) ≡ split_commands s ++ y ∷ u
unfolding split_commands
split_commands-append [] x y t u h e = e
split_commands-append (c ∷ []) x y t u h e =
    let same : (c == b'&' && x == b'&' || c == b'|' && x == b'|') ≡ false = ground arith in
    rw (same, e) (elim (Bool-cases (c == b';')) [ inl d ↦ rw d refl | inr d ↦ rw d refl ])
split_commands-append (c ∷ d ∷ s) x y t u h e =
    let z = y ∷ u in
    let first = b'\n' ∷ split_commands (d ∷ s) in
    let other = c ∷ split_commands (d ∷ s) in
    if-append (c == b'&' && d == b'&' || c == b'|' && d == b'|') (b'\n' ∷ b'\n' ∷ split_commands s)
      (if c == b';' then first else other) z
      (ap (λ l. b'\n' ∷ b'\n' ∷ l) (split_commands-append s x y t u h e))
      (if-append (c == b';') first other z
        (ap (◌∷◌ b'\n') (split_commands-append (d ∷ s) x y t u h e))
        (ap (◌∷◌ c) (split_commands-append (d ∷ s) x y t u h e)))

split_commands-semicolon : (t : Bytes) → split_commands (b';' ∷ t) ≡ b'\n' ∷ split_commands t
unfolding split_commands
split_commands-semicolon [] = refl
split_commands-semicolon (d ∷ t) = refl

nothing_split : (x : ℕ) → x ∷ split_commands [] ≡ x ∷ []
unfolding split_commands
nothing_split x = refl

-- behind a plain character, `&&` and `||` become two line feeds
split_commands-pair :
    (s p t v : Bytes) (x : ℕ)
    → s ≡ p ++ x ∷ []
    → is_plain x ≡ true
    → split_commands v ≡ b'\n' ∷ b'\n' ∷ split_commands t
    → split_commands (s ++ v) ≡ split_commands s ++ b'\n' ∷ b'\n' ∷ split_commands t
split_commands-pair s p t v x e h d =
    let plain : unpaired x ≡ true = ground arith in
    let whole : s ++ v ≡ p ++ x ∷ v = ap (λ l. l ++ v) e ∙ append_assoc p (x ∷ []) v in
    let alone : split_commands s ≡ split_commands p ++ x ∷ [] =
      ap split_commands e
      ∙ split_commands-append p x x [] [] plain (split_commands-front x [] h ∙ nothing_split x) in
    ap split_commands whole
    ∙ split_commands-append p x x v (b'\n' ∷ b'\n' ∷ split_commands t) plain
        (split_commands-front x v h ∙ ap (◌∷◌ x) d)
    ∙ sym (append_assoc (split_commands p) (x ∷ []) (b'\n' ∷ b'\n' ∷ split_commands t))
    ∙ ap (λ l. l ++ b'\n' ∷ b'\n' ∷ split_commands t) (sym alone)

split_commands-and :
    (t : Bytes) → split_commands (b'&' ∷ b'&' ∷ t) ≡ b'\n' ∷ b'\n' ∷ split_commands t
unfolding split_commands
split_commands-and t = refl

split_commands-or :
    (t : Bytes) → split_commands (b'|' ∷ b'|' ∷ t) ≡ b'\n' ∷ b'\n' ∷ split_commands t
unfolding split_commands
split_commands-or t = refl

with_piece-append :
    (p : Bytes) (qs rs : List Bytes) → with_piece p (qs ++ rs) ≡ with_piece p qs ++ rs
with_piece-append [] qs rs = refl
with_piece-append (c ∷ p) qs rs = refl

pieces_from-append :
    (p s t : Bytes)
    → pieces_from is_feed p (s ++ b'\n' ∷ t) ≡ pieces_from is_feed p s ++ pieces is_feed t
unfolding pieces_from pieces
pieces_from-append p [] t = with_piece-append p [] (pieces is_feed t)
pieces_from-append p (c ∷ s) t =
    if-append (is_feed c) (with_piece p (pieces_from is_feed [] s))
      (pieces_from is_feed (p ++ c ∷ []) s) (pieces is_feed t)
      (ap (with_piece p) (pieces_from-append [] s t)
        ∙ with_piece-append p (pieces_from is_feed [] s) (pieces is_feed t))
      (pieces_from-append (p ++ c ∷ []) s t)

-- the segments of a text of joined lines
abbrev pub segments : Bytes → List Bytes
segments s = pieces is_feed (split_commands s)

pieces-pair :
    (a b : Bytes) → pieces is_feed (a ++ b'\n' ∷ b'\n' ∷ b) ≡ pieces is_feed a ++ pieces is_feed b
unfolding pieces pieces_from
pieces-pair a b = pieces_from-append [] a (b'\n' ∷ b)

-- The segments of two separated commands are those of both.
pub segments-append :
    (s sep t : Bytes) → Joins s sep → segments (s ++ (sep ++ t)) ≡ segments s ++ segments t
unfolding pieces
segments-append s _ t semicolon =
    ap (pieces is_feed)
      (split_commands-append s b';' b'\n' t (split_commands t) refl (split_commands-semicolon t))
    ∙ pieces_from-append [] (split_commands s) (split_commands t)
segments-append s _ t (both (p, x, e, h)) =
    ap (pieces is_feed) (split_commands-pair s p t (b'&' ∷ b'&' ∷ t) x e h (split_commands-and t))
    ∙ pieces-pair (split_commands s) (split_commands t)
segments-append s _ t (either (p, x, e, h)) =
    ap (pieces is_feed) (split_commands-pair s p t (b'|' ∷ b'|' ∷ t) x e h (split_commands-or t))
    ∙ pieces-pair (split_commands s) (split_commands t)

to_lower-plain : (x : ℕ) → is_plain x ≡ true → is_plain (to_lower x) ≡ true
to_lower-plain x h = ground arith

nothing_joined : (x : ℕ) → x ∷ join_lines [] ≡ x ∷ []
unfolding join_lines
nothing_joined x = refl

-- the end of a command stays plain
flat-EndsPlain : (s : Bytes) → EndsPlain s → EndsPlain (join_lines (lower s))
flat-EndsPlain s (p, x, e, h) =
    let plain = to_lower-plain x h in
    (
      join_lines (lower p),
      to_lower x,
      ap (λ l. join_lines (lower l)) e
          ∙ ap join_lines (lower-append p (x ∷ []))
          ∙ join_lines-append (lower p) (to_lower x) [] (ground arith)
          ∙ ap (λ l. join_lines (lower p) ++ l) (nothing_joined (to_lower x)),
      plain,
    )

pub flat-Joins : (s sep : Bytes) → Joins s sep → Joins (join_lines (lower s)) sep
flat-Joins s _ semicolon = semicolon
flat-Joins s _ (both h) = both (flat-EndsPlain s h)
flat-Joins s _ (either h) = either (flat-EndsPlain s h)

join_lines-pair :
    (s t : Bytes) (x : ℕ)
    → unjoined x ≡ true
    → join_lines (s ++ x ∷ x ∷ t) ≡ join_lines s ++ x ∷ x ∷ join_lines t
join_lines-pair s t x h =
    join_lines-append s x (x ∷ t) h ∙ ap (λ l. join_lines s ++ x ∷ l) (join_lines-front x t h)

pub join_lines-chained :
    (cmd sep more : Bytes)
    → Joins cmd sep
    → join_lines (lower (cmd ++ (sep ++ more)))
      ≡ join_lines (lower cmd) ++ (sep ++ join_lines (lower more))
join_lines-chained cmd _ more semicolon =
    ap join_lines (lower-append cmd (b';' ∷ more))
    ∙ join_lines-append (lower cmd) b';' (lower more) refl
join_lines-chained cmd _ more (both h) =
    ap join_lines (lower-append cmd (b'&' ∷ b'&' ∷ more))
    ∙ join_lines-pair (lower cmd) (lower more) b'&' refl
join_lines-chained cmd _ more (either h) =
    ap join_lines (lower-append cmd (b'|' ∷ b'|' ∷ more))
    ∙ join_lines-pair (lower cmd) (lower more) b'|' refl
