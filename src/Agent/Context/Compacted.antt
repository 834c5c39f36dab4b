-- ===== src/Agent/Context/Compacted.antt =====
-- agent_compact_context: what it leaves.
use bash_agent.Agent.Compact.{Double}
use bash_agent.Agent.Context.{
  CompactConfig, Reply, Session, agent_compact_context, compact_lines, compacted, finish, has_usage,
  is_forced, need_compact, record_compact, summarize, with_summary,
}
use bash_agent.Agent.Context.Chosen.{Fits, IsKept, chosen_keep-Fits}
use bash_agent.Agent.Events.{Log}
use bash_agent.Base.{
  Bool, Bool-cases, Bytes, IsText, List, Option, [], ap, append-nil, arith, false, if◌then◌else◌,
  inl, inr, leb, length, ltb, none, pos, refl, some, sym, ℕ, ℤ, ◌++◌, ◌<◌, ◌≡◌, ◌≤◌, ◌⊎◌,
}
use bash_agent.Json.Value.{text}
use bash_agent.Store.Conversation.{Files, file_lines, lines_from, trim_tail}
use bash_agent.Store.Conversation.Trim.{trim_tail_divides}
use bash_agent.Transport.Events.{Accumulator}
use bash_agent.Util.FileSystem.{World, in_full}

-- how a conversation of which `keep` records are kept is divided
pub record IsDivided (file archive : Bytes) (keep : ℕ) (after : Files) : Type 0 where
  pub archived : Bytes
  pub kept : Bytes
  pub conversation_after : after.conversation ≡ some kept
  pub archive_after : after.archive ≡ some (archive ++ archived)
  pub whole : archived ++ kept ≡ file
  pub records : file_lines file ≡ file_lines archived ++ file_lines kept
  pub count : length (file_lines kept) ≡ keep

abbrev pub open_files : Bytes → Option Bytes → Files
open_files file archive = record { conversation = some file; archive = archive; writable = in_full }

-- the trim of a compaction
abbrev trimmed : Bytes → Option Bytes → ℕ → Files
trimmed file archive keep =
    if ltb keep (length (file_lines file))
    then (trim_tail (open_files file archive) keep).1
    else open_files file archive

file_lines-empty : file_lines [] ≡ []
unfolding file_lines lines_from
file_lines-empty = refl

trimmed-IsDivided :
    (file archive : Bytes) (keep : ℕ)
    → IsText file
    → keep ≤ length (file_lines file)
    → IsDivided file archive keep (trimmed file (some archive) keep)
trimmed-IsDivided file archive keep text h =
    elim (Bool-cases (ltb keep (length (file_lines file)))) [
      | inl e ↦
          let (archived, kept, run, whole, records, count) =
            trim_tail_divides file archive keep text (ground arith) in
          rw (e, run)
            (record {
              archived = archived;
              kept = kept;
              conversation_after = refl;
              archive_after = refl;
              whole = whole;
              records = records;
              count = count;
            })
      | inr e ↦ rw e (record {
        archived = [];
        kept = file;
        conversation_after = refl;
        archive_after = ap some (sym (append-nil archive));
        whole = refl;
        records = rw file_lines-empty refl;
        count = ground arith;
      })
    ]

-- the start of a compaction
abbrev pub before : Bytes → Option Bytes → World → Log → Session
before file archive w log = record { files = open_files file archive; world = w; log = log }

record_compact-files :
    (stats now : Bytes) (st : Session) (acc : Accumulator)
    → (record_compact stats now st acc).files ≡ st.files
unfolding record_compact
record_compact-files stats now st acc = elim (Bool-cases (has_usage acc)) [
  | inl e ↦ rw e refl
  | inr e ↦ rw e refl
]

module _ (f : Double) (setup : CompactConfig f.D) (ask : List Bytes → Reply) where
  -- what a call that compacts leaves
  pub record IsCompacted (file archive : Bytes) (forced : Bool) (files : Files) : Type 0 where
    pub keep : ℕ
    pub long_enough : 4 < length (file_lines file)
    pub starts : IsKept (file_lines file) keep
    pub shortens : forced ≡ false → keep < length (file_lines file)
    pub divided : IsDivided file archive keep files

  -- a call that changes nothing, or returns 0 and compacts
  abbrev pub Outcome : Bytes → Bytes → World → Log → Bytes → ℤ × Session → Type 0
  Outcome file archive w log trigger (code, after) =
      (after ≡ before file (some archive) w log)
      ⊎ ((code ≡ pos 0) × IsCompacted file archive (is_forced trigger) after.files)

  compacted-files :
      (file : Bytes) (archive : Option Bytes) (w : World) (log : Log) (trigger : Bytes) (keep : ℕ)
      (acc : Accumulator)
      → (compacted f setup
          (before file archive w log)
          trigger
          (length (file_lines file))
          keep
          acc).files
        ≡ trimmed file archive keep
  unfolding compacted with_summary
  compacted-files file archive w log trigger keep acc =
      record_compact-files setup.stats setup.now
        (with_summary f setup (before file archive w log) (length (file_lines file)) keep acc) acc

  finish-Outcome :
      (file archive : Bytes) (w : World) (log : Log) (trigger : Bytes) (keep : ℕ)
      (reply : Option Accumulator)
      → IsText file
      → 4 < length (file_lines file)
      → Fits (file_lines file) (is_forced trigger) (some keep)
      → Outcome file archive w log trigger (
          finish f setup
            (before file (some archive) w log)
            trigger
            (length (file_lines file))
            keep
            reply)
  finish-Outcome file archive w log trigger keep none text long fits = inl refl
  finish-Outcome file archive w log trigger keep (some acc) text long (starts, shortens) = inr (
    refl,
    record {
      keep = keep;
      long_enough = long;
      starts = starts;
      shortens = shortens;
      divided =
          rw (compacted-files file (some archive) w log trigger keep acc)
            (trimmed-IsDivided file archive keep text starts.within);
    },
  )

  summarize-Outcome :
      (file archive : Bytes) (w : World) (log : Log) (trigger : Bytes) (chosen : Option ℕ)
      → IsText file
      → 4 < length (file_lines file)
      → Fits (file_lines file) (is_forced trigger) chosen
      → Outcome file archive w log trigger (
          summarize f setup ask (before file (some archive) w log) trigger (file_lines file) chosen)
  summarize-Outcome file archive w log trigger none text long fits = inl refl
  summarize-Outcome file archive w log trigger (some keep) text long fits =
      finish-Outcome file archive w log trigger keep _ text long fits

  -- agent_compact_context on a conversation without NUL bytes that can be read and written in
  -- full, and whose archive can be opened and written in
  -- full, either changes nothing, or returns 0. In the second case the conversation had more than four records; what
  -- is appended to the archive and what is kept are together the conversation, byte for byte and
  -- record for record; and the kept records are all of them, or begin at a message of the user,
  -- or there are none since no line is such a message. All are kept only where the trigger
  -- forces the compaction.
  pub agent_compact_context_lem :
      (file archive : Bytes) (w : World) (log : Log) (trigger : Bytes)
      → IsText file
      → Outcome file archive w log trigger
          (agent_compact_context f setup ask (before file (some archive) w log) trigger)
  unfolding agent_compact_context compact_lines
  agent_compact_context_lem file archive w log trigger text =
      let ls = file_lines file in
      let forced = is_forced trigger in
      elim (Bool-cases (need_compact f setup w ls forced)) [
        | inr e ↦ rw e (inl refl)
        | inl e ↦ elim (Bool-cases (leb (length ls) 4)) [
          | inl short ↦ rw (e, short) (inl refl)
          | inr long ↦
              rw (e, long)
                (summarize-Outcome file archive w log trigger _ text (ground arith)
                  (chosen_keep-Fits f setup w ls forced))
        ]
      ]
