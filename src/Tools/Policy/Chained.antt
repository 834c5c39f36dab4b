-- ===== src/Tools/Policy/Chained.antt =====
-- Commands that are chained behind one another, in bash_classify_required_mode.
use bash_agent.Base.{
  Bool, Bool-cases, Bytes, Option, [], arith, codes, contains, false, if◌then◌else◌, inl, inr, refl,
  some, starts_with, strstr, sym, true, ℕ, ◌++◌, ◌∙◌, ◌∷◌, ◌≡◌,
}
use bash_agent.Tools.Policy.{
  Mask, add_mode, in_network, in_workspace, mode_allows, mode_text, no_mask, perms_both, perms_read,
}
use bash_agent.Tools.Policy.Allowed.{
  Within, covers_complete, covers_sound, granted, mode_allows-mode_text,
}
use bash_agent.Tools.Policy.Commands.{
  classify_required_mode, command_mask, is_no_mask, join_lines, or_reads, scan_commands,
}
use bash_agent.Tools.Policy.Grows.{scan_commands-Grows, scan_commands-append}
use bash_agent.Tools.Policy.Scan.{Surroundings, lower}
use bash_agent.Tools.Policy.Separated.{
  Joins, flat-Joins, join_lines-chained, segments, segments-append,
}
use bash_agent.Tools.Policy.Within.{Within_refl, Within_trans, add_mode-Grows, if-Grows, same-Grows}

starts_with-append : (s t p : Bytes) → starts_with s p ≡ true → starts_with (s ++ t) p ≡ true
starts_with-append s t [] h = refl
starts_with-append [] t (p ∷ ps) h = absurd (ground arith)
starts_with-append (c ∷ s) t (p ∷ ps) h = ground (arith, starts_with-append s t ps)

contains-nil : (t : Bytes) → contains t [] ≡ true
unfolding strstr
contains-nil [] = refl
contains-nil (c ∷ t) = refl

contains-append : (s t n : Bytes) → contains s n ≡ true → contains (s ++ t) n ≡ true
unfolding strstr
contains-append [] t [] h = contains-nil t
contains-append [] t (x ∷ n) h = absurd (ground arith)
contains-append (c ∷ s) t n h = elim (Bool-cases (starts_with (c ∷ s) n)) [
  | inl e ↦ rw (starts_with-append (c ∷ s) t n e) refl
  | inr e ↦ elim (Bool-cases (starts_with (c ∷ (s ++ t)) n)) [
    | inl d ↦ rw d refl
    | inr d ↦ rw d (contains-append s t n (rw e at h))
  ]
]

contains-behind : (s t n : Bytes) → contains t n ≡ true → contains (s ++ t) n ≡ true
unfolding strstr
contains-behind [] t n h = h
contains-behind (c ∷ s) t n h = elim (Bool-cases (starts_with (c ∷ (s ++ t)) n)) [
  | inl e ↦ rw e refl
  | inr e ↦ rw e (contains-behind s t n h)
]

-- what the scan starts from
abbrev first_mask : Bytes → Mask
first_mask s =
    if contains s (codes "/dev/tcp") then add_mode no_mask in_network perms_both else no_mask

contains-chained :
    (s sep t : Bytes)
    → contains t (codes "/dev/tcp") ≡ true
    → contains (s ++ (sep ++ t)) (codes "/dev/tcp") ≡ true
contains-chained s sep t h =
    contains-behind s (sep ++ t) (codes "/dev/tcp") (contains-behind sep t (codes "/dev/tcp") h)

no_mask-Within : (m : Mask) → Within no_mask m
no_mask-Within m = record {
  system = (λ h. absurd cc, λ h. absurd cc, λ h. absurd cc);
  external = (λ h. absurd cc, λ h. absurd cc, λ h. absurd cc);
  network = (λ h. absurd cc, λ h. absurd cc, λ h. absurd cc);
  workspace = (λ h. absurd cc, λ h. absurd cc, λ h. absurd cc);
}

if-Within :
    (b d : Bool) (m : Mask)
    → (b ≡ true → d ≡ true)
    → Within (if b then m else no_mask) (if d then m else no_mask)
if-Within false d m h = no_mask-Within (if d then m else no_mask)
if-Within true d m h = rw (h refl) (Within_refl m)

first_mask-Within :
    (s t : Bytes)
    → (contains s (codes "/dev/tcp") ≡ true → contains t (codes "/dev/tcp") ≡ true)
    → Within (first_mask s) (first_mask t)
first_mask-Within s t h =
    if-Within (contains s (codes "/dev/tcp")) (contains t (codes "/dev/tcp"))
      (add_mode no_mask in_network perms_both) h

-- `mask` behind the loop over the segments of a text
masked : Surroundings → Bytes → Mask
masked env s = scan_commands env (first_mask s) (segments s)

masked-chained :
    (env : Surroundings) (s sep t : Bytes)
    → Joins s sep
    → Within (masked env s) (masked env (s ++ (sep ++ t)))
      × Within (masked env t) (masked env (s ++ (sep ++ t)))
unfolding masked
masked-chained env s sep t j =
    let all = first_mask (s ++ (sep ++ t)) in
    let behind_s = scan_commands env all (segments s) in
    let s_grows = scan_commands-Grows env (segments s) in
    let t_grows = scan_commands-Grows env (segments t) in
    rw (segments-append s sep t j, scan_commands-append env all (segments s) (segments t))
      (
        Within_trans
            (s_grows.keeps (
              first_mask-Within s (s ++ (sep ++ t))
                (contains-append s (sep ++ t) (codes "/dev/tcp"))))
            (t_grows.more behind_s),
        t_grows.keeps (
            Within_trans (first_mask-Within t (s ++ (sep ++ t)) (contains-chained s sep t))
              (s_grows.more all)),
      )

command_mask-masked :
    (env : Surroundings) (cmd : Bytes) → command_mask env cmd ≡ masked env (join_lines (lower cmd))
unfolding command_mask masked
command_mask-masked env cmd = refl

-- A command that is followed by `;`, `&&` or `||` and another: each of the two requires no
-- permission that the chain does not require.
pub command_mask-chained :
    (env : Surroundings) (cmd sep more : Bytes)
    → Joins cmd sep
    → Within (command_mask env cmd) (command_mask env (cmd ++ (sep ++ more)))
      × Within (command_mask env more) (command_mask env (cmd ++ (sep ++ more)))
command_mask-chained env cmd sep more j =
    rw
      (
        command_mask-masked env cmd,
        command_mask-masked env more,
        command_mask-masked env (cmd ++ (sep ++ more)),
        join_lines-chained cmd sep more j,
      )
      (masked-chained env (join_lines (lower cmd)) sep (join_lines (lower more))
        (flat-Joins cmd sep j))

or_reads-none : (m : Mask) → is_no_mask m ≡ false → or_reads m ≡ m
or_reads-none m h = rw h refl

Within-or_reads : (m : Mask) → Within m (or_reads m)
Within-or_reads m =
    (if-Grows (is_no_mask m) (add_mode-Grows in_workspace perms_read) same-Grows).more m

mode_allows-within :
    (allowed : Option Bytes) (m n : Mask)
    → Within m n
    → mode_allows allowed (some (mode_text n)) ≡ true
    → mode_allows allowed (some (mode_text m)) ≡ true
mode_allows-within allowed m n h k =
    mode_allows-mode_text allowed m
    ∙ covers_complete (granted allowed) m (
        Within_trans h
          (covers_sound (granted allowed) n (sym (mode_allows-mode_text allowed n) ∙ k)))

-- Where the policy lets a chain of two commands pass, which are separated by `;`, or by `&&` or
-- `||` where the first one ends with a character other than those of separators, a backslash and a
-- line feed: it lets each of them pass that requires a permission at all.
pub classify-chained :
    (env : Surroundings) (allowed : Option Bytes) (c d : ℕ) (cmd sep more : Bytes)
    → Joins (c ∷ cmd) sep
    → mode_allows allowed
        (some (classify_required_mode env (some (c ∷ (cmd ++ (sep ++ d ∷ more))))))
      ≡ true
    → (is_no_mask (command_mask env (c ∷ cmd)) ≡ false
        → mode_allows allowed (some (classify_required_mode env (some (c ∷ cmd)))) ≡ true)
      × (is_no_mask (command_mask env (d ∷ more)) ≡ false
          → mode_allows allowed (some (classify_required_mode env (some (d ∷ more)))) ≡ true)
unfolding classify_required_mode
classify-chained env allowed c d cmd sep more j k =
    let all = command_mask env (c ∷ (cmd ++ (sep ++ d ∷ more))) in
    let (first, second) = command_mask-chained env (c ∷ cmd) sep (d ∷ more) j in
    let pass : (m : Mask)
        → Within m all
        → is_no_mask m ≡ false
        → mode_allows allowed (some (mode_text (or_reads m))) ≡ true =
      λ m h some_bit.
        rw (or_reads-none m some_bit)
          (mode_allows-within allowed m (or_reads all) (Within_trans h (Within-or_reads all)) k) in
    (pass (command_mask env (c ∷ cmd)) first, pass (command_mask env (d ∷ more)) second)
