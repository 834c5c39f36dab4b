-- ===== src/Store/Conversation/Lines.antt =====
-- Files of records: what jsonl_append adds and file_lines reads back.
use bash_agent.Base.{
  All, Bytes, [], ap, append-nil, append_assoc, false, refl, sym, ◌++◌, ◌==◌, ◌∙◌, ◌∷◌, ◌≡◌,
}
use bash_agent.Store.Conversation.{file_lines, jsonl_append, lines_from}

-- no line feed
abbrev pub IsOneLine : Bytes → Type 0
IsOneLine = All (λ c. (c == b'\n') ≡ false)

lines_from-line :
    (line s rest : Bytes)
    → IsOneLine s
    → lines_from line (s ++ b'\n' ∷ rest) ≡ (line ++ s) ∷ file_lines rest
unfolding lines_from file_lines
lines_from-line line [] rest h = rw append-nil
lines_from-line line (c ∷ s) rest (e, h) =
    rw (e, lines_from) (lines_from-line (line ++ c ∷ []) s rest h ∙ rw append_assoc)

-- A line in front of a file is its first record.
pub file_lines-line : (l s : Bytes) → IsOneLine l → file_lines (l ++ b'\n' ∷ s) ≡ l ∷ file_lines s
unfolding file_lines
file_lines-line l s h = lines_from-line [] l s h

pub file_lines-nil : file_lines [] ≡ []
unfolding file_lines
file_lines-nil = refl

-- A file of whole lines: empty, or ended by a line feed.
pub data IsComplete : Bytes → Type 0 where
  no_lines : IsComplete []
  whole_line : {s : Bytes} (l : Bytes) → IsOneLine l → IsComplete s → IsComplete (l ++ b'\n' ∷ s)

-- Whole lines in front of a file are its first records.
pub file_lines-append :
    {a : Bytes} → IsComplete a → (b : Bytes) → file_lines (a ++ b) ≡ file_lines a ++ file_lines b
file_lines-append no_lines b = rw file_lines-nil
file_lines-append (whole_line {s} l h r) b =
    ap file_lines (append_assoc l (b'\n' ∷ s) b)
    ∙ file_lines-line l (s ++ b) h
    ∙ ap (◌∷◌ l) (file_lines-append r b)
    ∙ ap (λ x. x ++ file_lines b) (sym (file_lines-line l s h))

IsComplete-append : {a b : Bytes} → IsComplete a → IsComplete b → IsComplete (a ++ b)
IsComplete-append no_lines h = h
IsComplete-append {b} (whole_line {s} l h r) k =
    rw (append_assoc l (b'\n' ∷ s) b) (whole_line l h (IsComplete-append r k))

-- Appending one record to a file of whole records adds it as the last one, and leaves the file
-- whole.
pub jsonl_append_lem :
    {file : Bytes} (l : Bytes)
    → IsComplete file
    → IsOneLine l
    → (file_lines (jsonl_append file l) ≡ file_lines file ++ l ∷ [])
      × IsComplete (jsonl_append file l)
unfolding jsonl_append
jsonl_append_lem l c h = (
  file_lines-append c (l ++ b'\n' ∷ []) ∙ rw (file_lines-line l [] h, file_lines-nil),
  IsComplete-append c (whole_line l h no_lines),
)
