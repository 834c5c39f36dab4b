-- ===== src/Tools/Files/Lines.antt =====
-- Which lines tool_read of c/tools.c gives.
use bash_agent.Base.{
  Bytes, List, [], ap, append-nil, append_assoc, arith, c_string, drop, false, if◌then◌else◌, leb,
  length, ltb, max, none, refl, some, suc, sym, take, true, zero, ℕ, ◌&&◌, ◌++◌, ◌+◌, ◌-◌, ◌<◌, ◌^◌,
  ◌∙◌, ◌∷◌, ◌≡◌, ◌≤◌,
}
use bash_agent.Store.Conversation.Lines.{IsComplete, IsOneLine, no_lines, whole_line}
use bash_agent.Tools.Files.{read_lines, select_lines, split_from}

-- lines, each with its line feed
abbrev pub render : List Bytes → Bytes
render [] = []
render (l ∷ ls) = l ++ b'\n' ∷ render ls

abbrev pub text_lines : Bytes → List Bytes
text_lines s = split_from [] s

take_nothing : (n : ℕ) → take {A = Bytes} n [] ≡ []
take_nothing zero = refl
take_nothing (suc n) = refl

drop_nothing : (n : ℕ) → drop {A = Bytes} n [] ≡ []
drop_nothing zero = refl
drop_nothing (suc n) = refl

drop-take :
    (a b : ℕ) (ls : List Bytes) (n : ℕ) → n ≡ a + b → drop a (take n ls) ≡ take b (drop a ls)
drop-take zero b ls n e = ap (λ x. take x ls) (omega arith)
drop-take (suc a) b [] zero e = absurd (omega arith)
drop-take (suc a) b [] (suc n) e = sym (take_nothing b)
drop-take (suc a) b (l ∷ ls) zero e = absurd (omega arith)
drop-take (suc a) b (l ∷ ls) (suc n) e = drop-take a b ls n (omega arith)

render-part : (l : Bytes) (r : Bytes) → (l ++ b'\n' ∷ []) ++ r ≡ l ++ b'\n' ∷ r
render-part l r = append_assoc l (b'\n' ∷ []) r

-- the end of the loop, where no line is left below the bound
select_lines-next :
    (start last n j k : ℕ) (ls : List Bytes)
    → j ≡ start - (n + 1)
    → k ≡ last + 1 - (n + 1)
    → select_lines start (some last) (n + 1) ls ≡ render (drop j (take k ls))
    → (if ltb last (n + 1) then [] else select_lines start (some last) (n + 1) ls)
      ≡ render (drop j (take k ls))
select_lines-next start last n j zero ls d e h =
    let end : ltb last (n + 1) ≡ true = ground arith in rw end (sym (ap render (drop_nothing j)))
select_lines-next start last n j (suc k) ls d e h =
    let goes_on : ltb last (n + 1) ≡ false = ground arith in rw goes_on h

select_lines-bounded :
    (start last n j k : ℕ) (ls : List Bytes)
    → j ≡ start - n
    → k ≡ last + 1 - n
    → select_lines start (some last) n ls ≡ render (drop j (take k ls))
unfolding select_lines
select_lines-bounded start last n j k [] d e =
    sym (ap render (ap (drop j) (take_nothing k) ∙ drop_nothing j))
select_lines-bounded start last n j zero (l ∷ ls) d e =
    let above : leb n last ≡ false = ground arith in
    let end : ltb last (n + 1) ≡ true = ground arith in
    let skip : (leb start n && false) ≡ false = ground arith in
    rw (above, end, skip) (sym (ap render (drop_nothing j)))
select_lines-bounded start last n zero (suc k) (l ∷ ls) d e =
    let here : (leb start n && leb n last) ≡ true = ground arith in
    rw here (
      render-part l _
      ∙ ap (λ x. l ++ b'\n' ∷ x)
          (select_lines-next start last n zero k ls (omega arith) (omega arith)
            (select_lines-bounded start last (n + 1) zero k ls (omega arith) (omega arith))))
select_lines-bounded start last n (suc j) (suc k) (l ∷ ls) d e =
    let skip : (leb start n && leb n last) ≡ false = ground arith in
    rw skip (
      select_lines-next start last n j k ls (omega arith) (omega arith)
        (select_lines-bounded start last (n + 1) j k ls (omega arith) (omega arith)))

select_lines-open :
    (start n j : ℕ) (ls : List Bytes)
    → j ≡ start - n
    → select_lines start none n ls ≡ render (drop j ls)
unfolding select_lines
select_lines-open start n j [] d = sym (ap render (drop_nothing j))
select_lines-open start n zero (l ∷ ls) d =
    let here : leb start n ≡ true = ground arith in
    rw here (
      render-part l _
      ∙ ap (λ x. l ++ b'\n' ∷ x) (select_lines-open start (n + 1) zero ls (omega arith)))
select_lines-open start n (suc j) (l ∷ ls) d =
    let skip : leb start n ≡ false = ground arith in
    rw skip (select_lines-open start (n + 1) j ls (omega arith))

-- A text before its first line feed is a line.
pub split_from-line :
    (line l s : Bytes) → IsOneLine l → split_from line (l ++ b'\n' ∷ s) ≡ (line ++ l) ∷ text_lines s
unfolding split_from
split_from-line line [] s h = ap (λ x. x ∷ text_lines s) (sym (append-nil line))
split_from-line line (c ∷ l) s (e, h) = rw e (
    split_from-line (line ++ c ∷ []) l s h
    ∙ ap (λ x. x ∷ text_lines s) (append_assoc line (c ∷ []) l))

-- a text of whole lines is its lines
render-text_lines : {s : Bytes} → IsComplete s → render (text_lines s) ≡ s
unfolding split_from
render-text_lines no_lines = refl
render-text_lines (whole_line {s} l h r) =
    ap render (split_from-line [] l s h) ∙ ap (λ x. l ++ b'\n' ∷ x) (render-text_lines r)

-- tool_read gives the lines from `offset` on, each with its line feed: `limit` of them where that
-- is positive, and otherwise all. Without an offset it starts at the first line, and with neither
-- it gives a file of whole lines unchanged. The number of the last line that `limit` allows and
-- the number of lines of the file are taken to fit into an int.
pub read_lines_lem :
    (offset limit : ℕ) (content : Bytes)
    → max offset 1 + limit ≤ 2 ^ 31
    → length (text_lines (c_string content)) < 2 ^ 31
    → let from = drop (offset - 1) (text_lines (c_string content)) in
      (0 < limit → read_lines offset limit content ≡ render (take limit from))
      × (read_lines offset 0 content ≡ render from)
      × (IsComplete (c_string content) → read_lines 0 0 content ≡ c_string content)
unfolding read_lines
read_lines_lem offset limit content fits few =
    let start = if ltb 0 offset then offset else 1 in
    let lines = text_lines (c_string content) in
    let starts : offset - 1 ≡ start - 1 = ground arith in
    let first : 0 < start = ground arith in
    (
      λ h.
          let bounded : ltb 0 limit ≡ true = ground arith in
          rw bounded (
            select_lines-bounded start (start + limit - 1) 1 (offset - 1) (offset - 1 + limit) lines
              starts (omega arith)
            ∙ ap render (drop-take (offset - 1) limit lines (offset - 1 + limit) refl)),
      select_lines-open start 1 (offset - 1) lines starts,
      λ h. select_lines-open 1 1 0 lines refl ∙ render-text_lines h,
    )
