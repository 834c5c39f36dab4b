-- ===== src/Store/Conversation/Trim.antt =====
-- store_conv_trim_tail: what is kept, what is archived, and that nothing is lost.
use bash_agent.Base.{
  ==_iff, Bool-cases, Bytes, IsText, [], ap, arith, c_string_text, drop, false, inl, inr, leb,
  length, refl, some, suc, sym, take, take-append-drop, true, zero, ℕ, ◌++◌, ◌+◌, ◌-◌, ◌<◌, ◌==◌,
  ◌∙◌, ◌∷◌, ◌≡◌, ◌≤◌,
}
use bash_agent.Json.Value.{text}
use bash_agent.Store.Conversation.{
  Files, count_feeds, end_offset, file_lines, lines_from, trim_tail,
}
use bash_agent.Store.Conversation.Lines.{IsComplete, file_lines-append, no_lines, whole_line}
use bash_agent.Util.FileSystem.{Access, in_full, no_access}

length-lines_from : (line s : Bytes) → length (lines_from line s) ≡ count_feeds s
unfolding lines_from count_feeds
length-lines_from line [] = refl
length-lines_from line (c ∷ s) = elim (Bool-cases (c == b'\n')) [
  | inl e ↦ rw (e, lines_from) (omega (arith, length-lines_from [] s))
  | inr e ↦ rw (e, lines_from) (omega (arith, length-lines_from (line ++ c ∷ []) s))
]

-- The number of records is the number of line feeds.
pub length-file_lines : (s : Bytes) → length (file_lines s) ≡ count_feeds s
unfolding file_lines
length-file_lines s = length-lines_from [] s

IsComplete-cons :
    {s : Bytes} (c : ℕ) → (c == b'\n') ≡ false → IsComplete s → 0 < length s → IsComplete (c ∷ s)
IsComplete-cons c h no_lines p = absurd (omega arith)
IsComplete-cons c h (whole_line l k r) p = whole_line (c ∷ l) (h, k) r

IsComplete-feed : {s : Bytes} (c : ℕ) → (c == b'\n') ≡ true → IsComplete s → IsComplete (c ∷ s)
IsComplete-feed c e h = rw ((==_iff c b'\n').0 e) (whole_line [] tt h)

-- The first `n` lines end behind a line feed, and the rest holds the other line feeds.
end_offset_lem :
    (n : ℕ) (s : Bytes)
    → n ≤ count_feeds s
    → IsComplete (take (end_offset n s) s)
      × (count_feeds (drop (end_offset n s) s) + n ≡ count_feeds s)
      × (n ≤ length (take (end_offset n s) s))
unfolding end_offset count_feeds
end_offset_lem zero s h = (no_lines, omega arith, omega arith)
end_offset_lem (suc n) [] h = absurd (omega arith)
end_offset_lem (suc n) (c ∷ s) h = elim (Bool-cases (c == b'\n')) [
  | inl e ↦
      let less : n ≤ count_feeds s = omega (arith, rw e at h) in
      let (whole, feeds, size) = end_offset_lem n s less in
      rw e (IsComplete-feed c e whole, omega (arith, feeds), omega (arith, size))
  | inr e ↦
      let less : suc n ≤ count_feeds s = omega (arith, rw e at h) in
      let (whole, feeds, size) = end_offset_lem (suc n) s less in
      rw e
        (IsComplete-cons c e whole (omega (arith, size)), omega (arith, feeds), omega (arith, size))
]

-- how a trimmed file is divided
record Divides (file : Bytes) (keep : ℕ) (archived kept : Bytes) : Type 0 where
  whole : archived ++ kept ≡ file
  lines : file_lines file ≡ file_lines archived ++ file_lines kept
  count : length (file_lines kept) ≡ keep

end_offset-Divides :
    (file : Bytes) (keep : ℕ)
    → keep < count_feeds file
    → let at = end_offset (count_feeds file - keep) file in
      Divides file keep (take at file) (drop at file)
end_offset-Divides file keep h =
    let n = count_feeds file - keep in
    let at = end_offset n file in
    let (whole, feeds, size) = end_offset_lem n file (omega arith) in
    record {
      whole = take-append-drop at file;
      lines =
          ap file_lines (sym (take-append-drop at file)) ∙ file_lines-append whole (drop at file);
      count = omega (arith, length-file_lines (drop at file), feeds);
    }

-- store_conv_trim_tail on a conversation without NUL bytes that has more than `keep` records, can
-- be written in full, and has an archive that can be opened and written in full: the call
-- succeeds, the file is
-- divided into what is appended to the archive and what is kept, byte for byte, and what is kept
-- are the last `keep` records.
pub trim_tail_divides :
    (file archive : Bytes) (keep : ℕ)
    → IsText file
    → keep < length (file_lines file)
    → (archived kept : Bytes) × (trim_tail
          (record { conversation = some file; archive = some archive; writable = in_full })
          keep
        ≡ (
          true,
          record {
            conversation = some kept;
            archive = some (archive ++ archived);
            writable = in_full;
          },
        ))
      × (archived ++ kept ≡ file)
      × (file_lines file ≡ file_lines archived ++ file_lines kept)
      × (length (file_lines kept) ≡ keep)
unfolding trim_tail
trim_tail_divides file archive keep text h =
    let more : keep < count_feeds file = omega (arith, length-file_lines file) in
    let at = end_offset (count_feeds file - keep) file in
    let d = end_offset-Divides file keep more in
    let more_feeds : leb (count_feeds file) keep ≡ false = ground arith in
    (
      take at file,
      drop at file,
      rw (c_string_text file text, more_feeds),
      d.whole,
      d.lines,
      d.count,
    )

-- A conversation without NUL bytes, of at most `keep` records, is left alone, and the call
-- succeeds. Where the file cannot be opened for writing and its archive can be opened and
-- written in full, a longer one is left alone too, but the call fails and the archive has already grown.
pub trim_tail_unchanged :
    (file archive : Bytes) (writable : Access) (keep : ℕ)
    → IsText file
    → let fs : Files = record {
      conversation = some file;
      archive = some archive;
      writable = writable;
    } in
      (length (file_lines file) ≤ keep → trim_tail fs keep ≡ (true, fs))
      × (keep < length (file_lines file)
          → writable ≡ no_access
          → (grown : Bytes) × (trim_tail fs keep
              ≡ (false, record fs { archive = some (archive ++ grown) }))
            × (0 < length grown))
unfolding trim_tail
trim_tail_unchanged file archive writable keep text = (
  λ h.
      let short : leb (count_feeds file) keep ≡ true = ground (arith, length-file_lines file) in
      rw (c_string_text file text, short),
  λ h w.
      let more : leb (count_feeds file) keep ≡ false = ground (arith, length-file_lines file) in
      let n = count_feeds file - keep in
      let (whole, feeds, size) = end_offset_lem n file (omega arith) in
      (
        take (end_offset n file) file,
        rw (c_string_text file text, more, w),
        omega (arith, size, length-file_lines file),
      ),
)
