-- ===== src/Tools/Commands/Guarded.antt =====
-- The safety policy in front of the tools of c/tools.c.
use bash_agent.Base.{
  Bool-cases, Bytes, Option, [], ap, arith, codes, contains, false, if◌then◌else◌, inl, inr,
  is_some, none, peek, refl, some, starts_with, str_eq, take, true, ℕ, ◌&&◌, ◌++◌, ◌<◌, ◌==◌, ◌||◌,
  ◌∙◌, ◌∷◌, ◌≡◌,
}
use bash_agent.Json.Parse.{json_parse_root}
use bash_agent.Json.Query.{json_get_string}
use bash_agent.Json.Value.{Val, ok}
use bash_agent.Tools.Commands.{
  Setup, blocked, guard_command, guard_probe, guard_target, is_guarded, native_file_mode_guard,
  no_objection, policy_allows, run_tool, tool_dispatch,
}
use bash_agent.Tools.Files.{ToolResult, given, is_missing}
use bash_agent.Util.FileSystem.{World}

-- what the guard says of a command
guard_blocks :
    (setup : Setup) (cmd : Bytes)
    → policy_allows setup cmd ≡ false
    → guard_command setup (some cmd) ≡ blocked setup cmd
guard_blocks setup cmd h = rw h refl

guard_passes :
    (setup : Setup) (cmd : Bytes)
    → policy_allows setup cmd ≡ true
    → guard_command setup (some cmd) ≡ no_objection
guard_passes setup cmd h = rw h refl

-- The path that an access is checked for: the given one, as far as it is a path from a root, from
-- the home directory or from a directory that is named by dots, and otherwise one in the working
-- directory; at most 2047 bytes of it.
pub data Target : Bytes → Bytes → Type 0 where
  absolute : (s : Bytes) → Target (b'/' ∷ s) (take 2047 (b'/' ∷ s))
  home_itself : Target (codes "~") (codes "~")
  in_home : (s : Bytes) → Target (codes "~/" ++ s) (take 2047 (codes "~/" ++ s))
  from_here : (s : Bytes) → Target (codes "./" ++ s) (take 2047 (codes "./" ++ s))
  from_above : (s : Bytes) → Target (codes "../" ++ s) (take 2047 (codes "../" ++ s))
  relative :
      {s : Bytes}
      → (peek s == b'/') ≡ false
      → str_eq s (codes "~") ≡ false
      → starts_with s (codes "~/") ≡ false
      → starts_with s (codes "./") ≡ false
      → starts_with s (codes "../") ≡ false
      → Target s (take 2047 (codes "./" ++ s))

Target-guard_target : {raw target : Bytes} → Target raw target → guard_target raw ≡ target
Target-guard_target (absolute s) = refl
Target-guard_target home_itself = refl
Target-guard_target (in_home s) = refl
Target-guard_target (from_here s) = refl
Target-guard_target (from_above s) = refl
Target-guard_target (relative a b c d e) = rw (a, b, c, d, e) refl

-- a missing or empty argument
pub data Absent : Option Bytes → Type 0 where
  null_argument : Absent none
  empty_argument : Absent (some [])

-- the argument of the path, or else the working directory
pub data PathOf : Option Bytes → Bytes → Type 0 where
  working_directory : {path : Option Bytes} → Absent path → PathOf path (codes ".")
  given_path : (c : ℕ) (s : Bytes) → 0 < c → PathOf (some (c ∷ s)) (c ∷ s)

-- a pattern that may leave the working directory
abbrev pub Leaves : Option Bytes → Type 0
Leaves none = ⊥
Leaves (some pattern) = (peek pattern == b'/' || contains pattern (codes "..")) ≡ true

-- The command that stands for the access of a tool to a path, with a pattern: reading the path
-- for Read and Grep, writing it for Write and Edit; for Glob, reading the root where the pattern
-- may leave the working directory and there is no path, and otherwise reading the path.
pub data Probes (path pattern : Option Bytes) : Bytes → Bytes → Type 0 where
  read_probe :
      {raw target : Bytes}
      → PathOf path raw
      → Target raw target
      → Probes path pattern (codes "Read") (take 2099 (codes "cat " ++ target))
  grep_probe :
      {raw target : Bytes}
      → PathOf path raw
      → Target raw target
      → Probes path pattern (codes "Grep") (take 2099 (codes "cat " ++ target))
  write_probe :
      {raw target : Bytes}
      → PathOf path raw
      → Target raw target
      → Probes path pattern (codes "Write") (take 2099 (codes ": > " ++ target))
  edit_probe :
      {raw target : Bytes}
      → PathOf path raw
      → Target raw target
      → Probes path pattern (codes "Edit") (take 2099 (codes ": > " ++ target))
  root_probe : Absent path → Leaves pattern → Probes path pattern (codes "Glob") (codes "cat /")
  glob_probe :
      {raw target : Bytes}
      → (Absent path → ¬ Leaves pattern)
      → PathOf path raw
      → Target raw target
      → Probes path pattern (codes "Glob") (take 2099 (codes "cat " ++ target))

Absent-is_missing : {path : Option Bytes} → Absent path → is_missing path ≡ true
Absent-is_missing null_argument = refl
Absent-is_missing empty_argument = refl

PathOf-given :
    {path : Option Bytes} {raw : Bytes}
    → PathOf path raw
    → (if is_missing path then codes "." else given path) ≡ raw
PathOf-given (working_directory a) = rw (Absent-is_missing a) refl
PathOf-given (given_path c s h) = let full : (c == 0) ≡ false = ground arith in rw full refl

target_lem :
    {path : Option Bytes} {raw target : Bytes}
    → PathOf path raw
    → Target raw target
    → guard_target (if is_missing path then codes "." else given path) ≡ target
target_lem p t = ap guard_target (PathOf-given p) ∙ Target-guard_target t

Leaves-tests :
    (pattern : Option Bytes)
    → Leaves pattern
    → (is_some pattern && (peek (given pattern) == b'/' || contains (given pattern) (codes "..")))
      ≡ true
Leaves-tests none h = absurd h
Leaves-tests (some pattern) h = h

-- the test of the pattern, where it stays in the working directory
stays :
    (path pattern : Option Bytes)
    → (Absent path → ¬ Leaves pattern)
    → (raw : Bytes) → PathOf path raw
    → (is_missing path
        && is_some pattern
        && (peek (given pattern) == b'/' || contains (given pattern) (codes "..")))
      ≡ false
stays path none h raw p = elim (Bool-cases (is_missing path)) [
  | inl e ↦ rw e refl
  | inr e ↦ rw e refl
]
stays path (some pattern) h raw (given_path c s positive) =
    let full : (c == 0) ≡ false = ground arith in rw full refl
stays path (some pattern) h raw (working_directory a) =
    elim (Bool-cases (peek pattern == b'/' || contains pattern (codes ".."))) [
      | inl e ↦ absurd (h a e)
      | inr e ↦ rw (Absent-is_missing a, e) refl
    ]

pub Probes-guard_probe :
    {path pattern : Option Bytes} {name cmd : Bytes}
    → Probes path pattern name cmd
    → (is_guarded name ≡ true) × (guard_probe name path pattern ≡ some cmd)
unfolding guard_probe
Probes-guard_probe (read_probe p t) =
    (refl, ap (λ x. some (take 2099 (codes "cat " ++ x))) (target_lem p t))
Probes-guard_probe (grep_probe p t) =
    (refl, ap (λ x. some (take 2099 (codes "cat " ++ x))) (target_lem p t))
Probes-guard_probe (write_probe p t) =
    (refl, ap (λ x. some (take 2099 (codes ": > " ++ x))) (target_lem p t))
Probes-guard_probe (edit_probe p t) =
    (refl, ap (λ x. some (take 2099 (codes ": > " ++ x))) (target_lem p t))
Probes-guard_probe {pattern = pattern} (root_probe a l) =
    (refl, rw (Absent-is_missing a, Leaves-tests pattern l) refl)
Probes-guard_probe {path} {pattern} (glob_probe {raw} h p t) = (
  refl,
  rw (stays path pattern h raw p) (ap (λ x. some (take 2099 (codes "cat " ++ x))) (target_lem p t)),
)

native_guard :
    (setup : Setup) (name : Bytes) (input : Option Bytes) {v : Val} {rest cmd : Bytes}
    (r : ToolResult)
    → json_parse_root input ≡ ok v rest
    → guard_probe name (json_get_string v (codes "path")) (json_get_string v (codes "pattern"))
      ≡ some cmd
    → guard_command setup (some cmd) ≡ r
    → native_file_mode_guard setup name input ≡ some r
unfolding native_file_mode_guard
native_guard setup name input r e p h = rw (e, p) (ap some h)

-- A call of Read, Grep, Write, Edit or Glob with an input that is JSON. Where the policy does not
-- allow the command that stands for its access to the path and the pattern of the input, no file
-- changes, no program runs, and the result is the refusal, with exit code 1; where it allows that
-- command, the tool runs.
pub tool_dispatch_guarded :
    (setup : Setup) (timeout : ℕ) (w : World) (name : Bytes) (input : Option Bytes) {v : Val}
    {rest cmd : Bytes}
    → json_parse_root input ≡ ok v rest
    → Probes (json_get_string v (codes "path")) (json_get_string v (codes "pattern")) name cmd
    → (policy_allows setup cmd ≡ false
        → tool_dispatch setup timeout w name input ≡ some (w, blocked setup cmd))
      × (policy_allows setup cmd ≡ true
          → tool_dispatch setup timeout w name input ≡ run_tool setup timeout w name input)
unfolding tool_dispatch
tool_dispatch_guarded setup timeout w name input {cmd} e probes =
    let (g, p) = Probes-guard_probe probes in
    (
      λ h.
          rw (g, native_guard setup name input (blocked setup cmd) e p (guard_blocks setup cmd h))
            refl,
      λ h. rw (g, native_guard setup name input no_objection e p (guard_passes setup cmd h)) refl,
    )
