-- ===== src/Tools/Policy/Commands.antt =====
-- c/tools.c: bash_scan_segment and bash_classify_required_mode.
use bash_agent.Base.{
  Bool, Bytes, List, Option, [], codes, contains, drop, false, if◌then◌else◌, none, not, peek, some,
  starts_with, str_eq, strstr, true, ℕ, ◌&&◌, ◌++◌, ◌==◌, ◌||◌, ◌∷◌,
}
use bash_agent.Tools.Policy.{
  Mask, Perms, Scope, add_mode, in_network, in_system, in_workspace, mode_text, no_mask, perms_both,
  perms_execute, perms_read, perms_write,
}
use bash_agent.Tools.Policy.Scan.{
  Surroundings, add_path, contains_any, is_block_device_path, is_sensitive_path, lower,
  starts_with_any,
}
use bash_agent.Util.Paths.{is_space, skip_space}

-- a piece that is not empty, in front of the others
abbrev pub with_piece : Bytes → List Bytes → List Bytes
with_piece [] rest = rest
with_piece (c ∷ s) rest = (c ∷ s) ∷ rest

-- the pieces of strtok_r, with the bytes of the piece that is being read
unfoldable pub pieces_from : (ℕ → Bool) → Bytes → Bytes → List Bytes
pieces_from is_end piece [] = with_piece piece []
pieces_from is_end piece (c ∷ s) =
    let rest = pieces_from is_end [] s in
    let longer = pieces_from is_end (piece ++ c ∷ []) s in
    if is_end c then with_piece piece rest else longer

-- the calls of strtok_r until there is no piece left
unfoldable pub pieces : (ℕ → Bool) → Bytes → List Bytes
unfolding pieces_from
pieces is_end s = pieces_from is_end [] s

-- " \t\r\n"
abbrev pub is_gap : ℕ → Bool
is_gap c = c == b' ' || c == b'\t' || c == b'\r' || c == b'\n'

abbrev pub when : Bool → Scope → Perms → Mask → Mask
when b scope perms m = if b then add_mode m scope perms else m

abbrev pub gains_root : Bytes → Bool
gains_root seg =
    str_eq seg (codes "sudo")
    || starts_with seg (codes "sudo ")
    || str_eq seg (codes "su")
    || starts_with seg (codes "su ")
    || str_eq seg (codes "doas")
    || starts_with_any seg
        (codes "doas " ∷ codes "shutdown" ∷ codes "reboot" ∷ codes "halt" ∷ codes "poweroff" ∷ [])

abbrev pub changes_disks : Bytes → Bool
changes_disks seg =
    starts_with_any seg
      (codes "mkfs" ∷ codes "fdisk" ∷ codes "diskutil" ∷ codes "mount " ∷ codes "umount " ∷ [])

abbrev pub fetches : Bytes → Bool
fetches seg =
    contains_any seg
      (codes "curl " ∷ codes "wget " ∷ codes "http " ∷ codes "https://" ∷ codes "http://" ∷ [])
    || starts_with_any seg
        (codes "git clone" ∷ codes "git fetch" ∷ codes "git pull" ∷ codes "git ls-remote" ∷ [])

abbrev pub sends : Bytes → Bool
sends seg =
    starts_with seg (codes "git push")
    || contains_any seg (
        codes "scp "
        ∷ codes "curl -d "
        ∷ codes "curl --data"
        ∷ codes "curl -f "
        ∷ codes "curl -t "
        ∷ [])

abbrev pub runs_fetched : Bytes → Bool
runs_fetched seg =
    contains_any seg (
      codes "| bash"
      ∷ codes "| sh"
      ∷ codes "eval "
      ∷ codes "source <("
      ∷ codes "bash -c $("
      ∷ codes "sh -c $("
      ∷ [])
    && contains_any seg (codes "curl " ∷ codes "wget " ∷ codes "http://" ∷ codes "https://" ∷ [])

abbrev pub removes_root : Bytes → Bool
removes_root seg = contains_any seg (codes "rm -rf /" ∷ codes "rm -fr /" ∷ [])

abbrev pub writes_device : Bytes → Bool
writes_device seg =
    is_block_device_path seg
    && contains_any seg (codes "of=/dev/" ∷ codes "> /dev/" ∷ codes ">/dev/" ∷ [])

abbrev pub runs_code : Bytes → Bool
runs_code seg =
    starts_with_any seg (
      codes "./"
      ∷ codes "bash "
      ∷ codes "sh "
      ∷ codes "zsh "
      ∷ codes "python"
      ∷ codes "node "
      ∷ codes "ruby "
      ∷ codes "perl "
      ∷ codes "npm test"
      ∷ codes "npm run"
      ∷ codes "make"
      ∷ codes "cargo test"
      ∷ codes "cargo build"
      ∷ codes "go test"
      ∷ codes "git commit"
      ∷ codes "git add"
      ∷ codes "git checkout"
      ∷ codes "git merge"
      ∷ codes "git rebase"
      ∷ codes "git stash"
      ∷ codes "git cherry-pick"
      ∷ [])
    || contains_any seg (codes "function " ∷ codes "()" ∷ codes "{" ∷ codes " if " ∷ [])
    || starts_with seg (codes "if ")
    || contains seg (codes " for ")
    || starts_with seg (codes "for ")
    || contains seg (codes " while ")
    || starts_with seg (codes "while ")
    || contains seg (codes " case ")
    || starts_with seg (codes "case ")
    || contains seg (codes ":(){:|:&};:")

-- the test that sets `path_bits` to 6 and `flags` to 1
abbrev pub changes_files : Bytes → Bool
changes_files seg =
    contains_any seg (codes ">" ∷ codes "tee " ∷ [])
    || starts_with_any seg
        (codes "mkdir " ∷ codes "touch " ∷ codes "cp " ∷ codes "mv " ∷ codes "rm " ∷ [])
    || contains_any seg (codes " rm " ∷ codes "sed -i" ∷ codes " -delete" ∷ [])
    || starts_with_any seg (
        codes "git fetch"
        ∷ codes "git pull"
        ∷ codes "git clone"
        ∷ codes "npm install"
        ∷ codes "pnpm install"
        ∷ codes "yarn install"
        ∷ codes "cargo build"
        ∷ codes "git commit"
        ∷ codes "git add"
        ∷ codes "git checkout"
        ∷ codes "git merge"
        ∷ codes "git rebase"
        ∷ codes "git stash"
        ∷ codes "go test"
        ∷ codes "npm test"
        ∷ [])

-- the additions of bash_scan_segment in front of its loop
unfoldable pub scan_words : Mask → Bytes → Mask
unfolding add_mode strstr is_block_device_path
scan_words m seg =
    let root =
      if gains_root seg
      then add_mode m in_system perms_execute
      else when (changes_disks seg) in_system perms_write m in
    let fetched = when (fetches seg) in_network perms_read root in
    let sent =
      if sends seg
      then add_mode fetched in_network perms_write
      else when (runs_fetched seg) in_network perms_execute fetched in
    let removed = when (removes_root seg) in_system perms_write sent in
    let written = when (writes_device seg) in_system perms_write removed in
    when (runs_code seg) in_workspace perms_execute written

-- the variables of the loop over the words: `redir`, where `none` is 0, and whether `flags` is 3
pub record Words : Type 0 where
  pub mask : Mask
  pub redir : Option Perms
  pub seen_path : Bool

-- while (*tok == '>') tok++
abbrev pub skip_arrows : Bytes → Bytes
skip_arrows [] = []
skip_arrows (c ∷ s) = if c == b'>' then skip_arrows s else c ∷ s

abbrev pub adds_path : Surroundings → Words → Bytes → Perms → Words
adds_path env w path perms = record {
  mask = add_path env w.mask path perms;
  redir = none;
  seen_path = true;
}

abbrev pub is_path_word : Bytes → Bool
is_path_word tok =
    peek tok == b'/'
    || starts_with tok (codes "./")
    || starts_with tok (codes "../")
    || starts_with tok (codes "~/")

-- one round of the loop at a word that stands behind no redirection
unfoldable pub scan_word : Surroundings → Perms → Words → Bytes → Words
unfolding add_path is_sensitive_path
scan_word env path_bits w tok =
    if str_eq tok (codes ">")
      || str_eq tok (codes ">>")
      || str_eq tok (codes "1>")
      || str_eq tok (codes "1>>")
    then record w { redir = some perms_write }
    else if str_eq tok (codes "<>")
    then record w { redir = some perms_both }
    else if starts_with tok (codes "2>")
    then w
    else if peek tok == b'>'
    then adds_path env w (skip_arrows tok) perms_write
    else if starts_with tok (codes "<>")
    then adds_path env w (drop 2 tok) perms_both
    else if is_path_word tok
    then adds_path env w tok path_bits
    else if is_sensitive_path tok
    then adds_path env w tok path_bits
    else w

-- one round of the loop, with the value of `redir` in front of it
unfoldable pub at_redir : Surroundings → Perms → Option Perms → Words → Bytes → Words
unfolding add_path scan_word
at_redir env path_bits (some perms) w tok = adds_path env w tok perms
at_redir env path_bits none w tok = scan_word env path_bits w tok

unfoldable pub scan_token : Surroundings → Perms → Words → Bytes → Words
unfolding at_redir
scan_token env path_bits w tok = at_redir env path_bits w.redir w tok

-- the loop of bash_scan_segment
unfoldable pub scan_tokens : Surroundings → Perms → Words → List Bytes → Words
unfolding scan_token
scan_tokens env path_bits w [] = w
scan_tokens env path_bits w (tok ∷ toks) =
    scan_tokens env path_bits (scan_token env path_bits w tok) toks

-- bash_scan_segment
unfoldable pub scan_segment : Surroundings → Mask → Bytes → Mask
unfolding add_mode scan_words scan_tokens pieces strstr
scan_segment env m seg =
    let changes = changes_files seg in
    let w =
      scan_tokens env (if changes then perms_both else perms_read)
        (record { mask = scan_words m seg; redir = none; seen_path = false }) (pieces is_gap seg) in
    when (changes && not w.seen_path) in_workspace perms_write w.mask

-- a backslash in front of a line feed, and the line feed, become spaces
unfoldable pub join_lines : Bytes → Bytes
join_lines [] = []
join_lines (c ∷ []) = c ∷ []
join_lines (c ∷ d ∷ s) =
    let rest = join_lines (d ∷ s) in
    let joined = b' ' ∷ b' ' ∷ join_lines s in if c == b'\\' && d == b'\n' then joined else c ∷ rest

-- `&&`, `||` and `;` become line feeds
unfoldable pub split_commands : Bytes → Bytes
split_commands [] = []
split_commands (c ∷ []) = (if c == b';' then b'\n' else c) ∷ []
split_commands (c ∷ d ∷ s) =
    let rest = split_commands (d ∷ s) in
    let split = b'\n' ∷ b'\n' ∷ split_commands s in
    if c == b'&' && d == b'&' || c == b'|' && d == b'|'
    then split
    else if c == b';'
    then b'\n' ∷ rest
    else c ∷ rest

-- the bytes of isspace are skipped at both ends of a segment
abbrev pub trim_end : Bytes → Bytes
trim_end [] = []
trim_end (c ∷ s) = elim (trim_end s) [ [] ↦ if is_space c then [] else c ∷ [] | d ∷ t ↦ c ∷ d ∷ t ]

-- one round of the loop over the segments
unfoldable pub scan_command : Surroundings → Mask → Bytes → Mask
unfolding scan_segment skip_space
scan_command env m piece =
    let seg = trim_end (skip_space piece) in if peek seg == 0 then m else scan_segment env m seg

unfoldable pub scan_commands : Surroundings → Mask → List Bytes → Mask
unfolding scan_command
scan_commands env m [] = m
scan_commands env m (piece ∷ ps) = scan_commands env (scan_command env m piece) ps

-- `mask` behind the loop of bash_classify_required_mode
unfoldable pub command_mask : Surroundings → Bytes → Mask
unfolding add_mode strstr join_lines split_commands pieces scan_commands
command_mask env cmd =
    let flat = join_lines (lower cmd) in
    let start =
      if contains flat (codes "/dev/tcp")
      then add_mode no_mask in_network perms_both
      else no_mask in
    scan_commands env start (pieces (λ c. c == b'\n') (split_commands flat))

abbrev pub is_no_perms : Perms → Bool
is_no_perms p = not p.reads && not p.writes && not p.executes

-- !mask
abbrev pub is_no_mask : Mask → Bool
is_no_mask m =
    is_no_perms m.system
    && is_no_perms m.external
    && is_no_perms m.network
    && is_no_perms m.workspace

-- a command that asks for nothing reads the workspace
abbrev pub or_reads : Mask → Mask
or_reads m = if is_no_mask m then add_mode m in_workspace perms_read else m

-- bash_classify_required_mode; `none` is NULL
unfoldable pub classify_required_mode : Surroundings → Option Bytes → Bytes
unfolding add_mode mode_text command_mask
classify_required_mode env none = codes "0000"
classify_required_mode env (some []) = codes "0000"
classify_required_mode env (some (c ∷ s)) = mode_text (or_reads (command_mask env (c ∷ s)))
