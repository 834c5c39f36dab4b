-- ===== src/Tools/Files/Edited.antt =====
-- What tool_edit of c/tools.c does to a file.
use mathlib.Core.Path.{ap₂, subst}
use bash_agent.Base.{
  Bool-cases, Bytes, List, Option, Option-cases, [], ap, arith, c_string, codes, contains, drop,
  drop-append, false, inl, inr, leb, length, length-append, ltb, next, none, peek, refl, some,
  starts_with, starts_with_sound, strstr, sym, take, take-append, take_all, true, ℕ, ◌++◌, ◌-◌, ◌<◌,
  ◌==◌, ◌∙◌, ◌∷◌, ◌≡◌, ◌≢◌, ◌≤◌,
}
use bash_agent.Tools.Files.{
  ToolResult, edit_content, edit_path, edit_saved, fails, missing_text, replace_at, save_edit,
  succeeds,
}
use bash_agent.Transport.Events.{or_else}
use bash_agent.Util.FileSystem.{
  Access, World, cut_off, in_full, no_access, put, write_as, write_file,
}

-- what strstr promises of its result
abbrev FoundIn : Bytes → Bytes → Option Bytes → Type 0
FoundIn s n none = Unit
FoundIn s n (some place) = (p : Bytes) × (p ++ place ≡ s) × (starts_with place n ≡ true)

FoundIn-cons : (c : ℕ) (s n : Bytes) (o : Option Bytes) → FoundIn s n o → FoundIn (c ∷ s) n o
FoundIn-cons c s n none h = tt
FoundIn-cons c s n (some place) (p, e, h) = (c ∷ p, ap (◌∷◌ c) e, h)

strstr-FoundIn : (s n : Bytes) → FoundIn s n (strstr s n)
unfolding strstr
strstr-FoundIn [] n = elim (Bool-cases (starts_with [] n)) [
  | inl d ↦ rw d ([], refl, d)
  | inr d ↦ rw d tt
]
strstr-FoundIn (c ∷ s) n = elim (Bool-cases (starts_with (c ∷ s) n)) [
  | inl d ↦ rw d ([], refl, d)
  | inr d ↦ rw d (FoundIn-cons c s n (strstr s n) (strstr-FoundIn s n))
]

-- `n` occurs in `content` between `before` and `after`, and nowhere else
pub record IsOnlyPlace (content n before after : Bytes) : Type 0 where
  pub there : before ++ (n ++ after) ≡ content
  pub only : (p q : Bytes) → p ++ (n ++ q) ≡ content → length p ≡ length before

starts_with-itself : (n q : Bytes) → starts_with (n ++ q) n ≡ true
starts_with-itself [] q = refl
starts_with-itself (c ∷ n) q = ground (arith, starts_with-itself n q)

contains-start : (s n : Bytes) → starts_with s n ≡ true → contains s n ≡ true
unfolding strstr
contains-start [] n h = rw h refl
contains-start (c ∷ s) n h = rw h refl

contains-later : (c : ℕ) (s n : Bytes) → contains s n ≡ true → contains (c ∷ s) n ≡ true
unfolding strstr
contains-later c s n h = elim (Bool-cases (starts_with (c ∷ s) n)) [
  | inl d ↦ rw d refl
  | inr d ↦ rw d h
]

contains-occurs : (p n q : Bytes) → contains (p ++ (n ++ q)) n ≡ true
contains-occurs [] n q = contains-start (n ++ q) n (starts_with-itself n q)
contains-occurs (c ∷ p) n q = contains-later c (p ++ (n ++ q)) n (contains-occurs p n q)

-- A place behind `before` is found in what follows the first byte there.
contains-behind_place :
    (before p n q t : Bytes)
    → p ++ (n ++ q) ≡ before ++ t
    → length before < length p
    → contains (next t) n ≡ true
contains-behind_place before [] n q t e h = absurd (omega arith)
contains-behind_place [] (c ∷ p) n q t e h =
    ap (λ s. contains (next s) n) (sym e) ∙ contains-occurs p n q
contains-behind_place (b ∷ before) (c ∷ p) n q t e h =
    contains-behind_place before p n q t (ap next e) (omega arith)

-- strstr finds the first place.
strstr-first :
    (s n p q place : Bytes)
    → strstr s n ≡ some place
    → p ++ (n ++ q) ≡ s
    → length (n ++ q) ≤ length place
unfolding strstr
strstr-first [] n p q place h e = omega (arith, ap (length {A = ℕ}) e, length-append p (n ++ q))
strstr-first (c ∷ s) n [] q place h e =
    let d : starts_with (c ∷ s) n ≡ true =
      ap (λ x. starts_with x n) (sym e) ∙ starts_with-itself n q in
    let same : c ∷ s ≡ place = ap (λ o. or_else o []) (rw d at h) in
    omega (arith, ap (length {A = ℕ}) same, ap (length {A = ℕ}) e)
strstr-first (c ∷ s) n (x ∷ p) q place h e = elim (Bool-cases (starts_with (c ∷ s) n)) [
  | inl d ↦
      let same : c ∷ s ≡ place = ap (λ o. or_else o []) (rw d at h) in
      omega (arith, ap (length {A = ℕ}) same, ap (length {A = ℕ}) e, length-append (x ∷ p) (n ++ q))
  | inr d ↦ strstr-first s n p q place (rw d at h) (ap next e)
]

strstr-IsOnlyPlace :
    (content n before after : Bytes)
    → strstr content n ≡ some (n ++ after)
    → before ++ (n ++ after) ≡ content
    → contains (next (n ++ after)) n ≡ false
    → IsOnlyPlace content n before after
strstr-IsOnlyPlace content n before after h e none_behind = record {
  there = e;
  only = λ p q d.
      let not_before = strstr-first content n p q (n ++ after) h d in
      let whole = ap (length {A = ℕ}) d in
      let parts = ap (length {A = ℕ}) e in
      let size = length-append p (n ++ q) in
      let size_there = length-append before (n ++ after) in
      elim (Bool-cases (ltb (length before) (length p))) [
        | inl far ↦
            let found =
              contains-behind_place before p n q (n ++ after) (d ∙ sym e) (ground arith) in
            absurd (let bad : true ≡ false = sym found ∙ none_behind in cc (bad))
        | inr near ↦
            let le : length p ≤ length before = ground arith in
            omega (arith, not_before, le, whole, parts, size, size_there)
      ];
}

-- How an edit ends. The text of the edited file is `before ++ (new_str ++ after)`, where `before`
-- and `after` are what stands around a place of the old string.
pub data EditEnd (w : World) (path content old_str new_str : Bytes)
    : World × ToolResult → Type 0 where
  not_there :
      contains content old_str ≡ false
      → EditEnd w path content old_str new_str (w, fails (missing_text path))
  not_alone :
      (before after : Bytes)
      → before ++ (old_str ++ after) ≡ content
      → contains (next (old_str ++ after)) old_str ≡ true
      → EditEnd w path content old_str new_str
          (w, fails (codes "Error: old_string found multiple times, must be unique"))
  empties :
      (before after : Bytes)
      → before ++ (old_str ++ after) ≡ content
      → peek (before ++ (new_str ++ after)) ≡ 0
      → EditEnd w path content old_str new_str
          (w, fails (codes "Error: edit produced empty result"))
  not_opened :
      w.writable path ≡ no_access
      → EditEnd w path content old_str new_str (w, fails (codes "Error: cannot write file"))
  cut_short :
      (before after : Bytes) (place : IsOnlyPlace content old_str before after) (n : ℕ)
      → w.writable path ≡ cut_off n
      → n < length (before ++ (new_str ++ after))
      → EditEnd w path content old_str new_str (
        put w path (take n (before ++ (new_str ++ after))),
        fails (codes "Error: cannot write file"),
      )
  replaced :
      (message before after : Bytes) (place : IsOnlyPlace content old_str before after)
      → w.writable path ≢ no_access
      → EditEnd w path content old_str new_str
          (put w path (before ++ (new_str ++ after)), succeeds message)

section_prefix : (p place : Bytes) → take (length (p ++ place) - length place) (p ++ place) ≡ p
section_prefix p place =
    let size : length (p ++ place) - length place ≡ length p =
      omega (arith, length-append p place) in
    rw size (take-append p place)

module _ (diff : Bytes → Bytes → List Bytes) (w : World)
    (path content old_str new_str : Bytes) where
  -- what the end of an edit is, with the write of the new text
  saved :
      (before after : Bytes) (place : IsOnlyPlace content old_str before after) (a : Access)
      → w.writable path ≡ a
      → let new_content = before ++ (new_str ++ after) in
        EditEnd w path content old_str new_str
          (edit_saved diff path content new_content (write_as a w path new_content))
  saved before after place in_full h =
      replaced _ before after place
        (λ e. absurd (let bad : in_full ≡ no_access = sym h ∙ e in cc (bad)))
  saved before after place no_access h = not_opened h
  saved before after place (cut_off n) h =
      let new_content = before ++ (new_str ++ after) in
      elim (Bool-cases (leb (length new_content) n)) [
        | inr e ↦ rw e (cut_short before after place n h (ground arith))
        | inl e ↦
            let all : take n new_content ≡ new_content = take_all n new_content (ground arith) in
            rw (e, all)
              (replaced _ before after place
                (λ d. absurd (let bad : cut_off n ≡ no_access = sym h ∙ d in cc (bad))))
      ]

  save_edit-EditEnd :
      (before after : Bytes) (place : IsOnlyPlace content old_str before after)
      → EditEnd w path content old_str new_str
          (save_edit diff w path content (before ++ (new_str ++ after)))
  unfolding write_file
  save_edit-EditEnd before after place = saved before after place (w.writable path) refl

  replace_at-EditEnd :
      (before after : Bytes)
      → strstr content old_str ≡ some (old_str ++ after)
      → before ++ (old_str ++ after) ≡ content
      → EditEnd w path content old_str new_str
          (replace_at diff w path content (old_str ++ after) old_str new_str)
  unfolding replace_at
  replace_at-EditEnd before after found e =
      let prefix : take (length content - length (old_str ++ after)) content ≡ before =
        subst (λ c. take (length c - length (old_str ++ after)) c ≡ before) e
          (section_prefix before (old_str ++ after)) in
      let same : take (length content - length (old_str ++ after)) content
            ++ (new_str ++ drop (length old_str) (old_str ++ after))
          ≡ before ++ (new_str ++ after) =
        ap₂ (λ x y. x ++ (new_str ++ y)) prefix (drop-append old_str after) in
      rw same (elim (Bool-cases (contains (next (old_str ++ after)) old_str)) [
        | inl d ↦ rw d (not_alone before after e d)
        | inr d ↦ rw d (elim (Bool-cases (peek (before ++ (new_str ++ after)) == 0)) [
          | inl z ↦ rw z (empties before after e (ground arith))
          | inr z ↦ rw z (
              save_edit-EditEnd before after
                (strstr-IsOnlyPlace content old_str before after found e d))
        ])
      ])

  edit_found :
      (place : Bytes)
      → strstr content old_str ≡ some place
      → FoundIn content old_str (some place)
      → EditEnd w path content old_str new_str
          (replace_at diff w path content place old_str new_str)
  edit_found place found (before, e, h) =
      let after = drop (length old_str) place in
      let at : place ≡ old_str ++ after = starts_with_sound place old_str h in
      subst
        (λ x.
          EditEnd w path content old_str new_str (replace_at diff w path content x old_str new_str))
        (sym at)
        (replace_at-EditEnd before after (found ∙ ap some at) (ap (λ x. before ++ x) (sym at) ∙ e))

not_contained : (s n : Bytes) → strstr s n ≡ none → contains s n ≡ false
not_contained s n h = rw h refl

-- tool_edit on a file that is there ends in one of six ways. In four it changes no file and fails
-- with a message of its own: the old string does not occur, it occurs again behind the first byte
-- of one of its places, the edited text would be empty, or the file cannot be opened for writing.
-- In the other two the old string has just one place: either the file then holds the text with the
-- new string there, and the call succeeds; or the write breaks off behind fewer bytes than that
-- text has, the file holds only these, and the call fails.
pub edit_path_lem :
    (diff : Bytes → Bytes → List Bytes) (w : World) (path old_str new_str : Bytes) {content : Bytes}
    → w.files path ≡ some content
    → EditEnd w path (c_string content) old_str new_str (edit_path diff w path old_str new_str)
unfolding edit_path
edit_path_lem diff w path old_str new_str {content} e =
    let found = strstr-FoundIn (c_string content) old_str in
    rw (e, edit_path)
      (elim (Option-cases (strstr (c_string content) old_str)) [
        | inl d ↦ rw (d, edit_content) (not_there (not_contained (c_string content) old_str d))
        | inr (place, d) ↦
            rw (d, edit_content)
              (edit_found diff w path (c_string content) old_str new_str place d (rw d at found))
      ])
