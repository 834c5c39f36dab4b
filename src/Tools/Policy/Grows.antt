-- ===== src/Tools/Policy/Grows.antt =====
-- The mode that a command requires only grows along bash_classify_required_mode.
use bash_agent.Base.{
  Bool, Bytes, List, Option, [], codes, drop, false, if◌then◌else◌, none, not, peek, refl, some,
  starts_with, str_eq, true, ◌&&◌, ◌++◌, ◌==◌, ◌||◌, ◌∷◌, ◌≡◌,
}
use bash_agent.Tools.Policy.{
  Mask, Perms, in_network, in_system, in_workspace, perms_both, perms_execute, perms_read,
  perms_write,
}
use bash_agent.Tools.Policy.Allowed.{Within}
use bash_agent.Tools.Policy.Commands.{
  Words, adds_path, at_redir, changes_disks, changes_files, fetches, gains_root, is_gap,
  is_path_word, pieces, removes_root, runs_code, runs_fetched, scan_command, scan_commands,
  scan_segment, scan_token, scan_tokens, scan_word, scan_words, sends, skip_arrows, trim_end,
  writes_device,
}
use bash_agent.Tools.Policy.Scan.{Surroundings, add_path, bare_path, is_sensitive_path, path_scope}
use bash_agent.Tools.Policy.Within.{
  Grows, Within_refl, Within_trans, add_mode-Grows, if-Grows, same-Grows, then-Grows, when-Grows,
}
use bash_agent.Util.Paths.{skip_space}

scan_words-Grows : (seg : Bytes) → Grows (λ m. scan_words m seg)
unfolding scan_words
scan_words-Grows seg =
    then-Grows
      (then-Grows
        (then-Grows
          (then-Grows
            (then-Grows
              (if-Grows (gains_root seg) (add_mode-Grows in_system perms_execute)
                (when-Grows (changes_disks seg) in_system perms_write))
              (when-Grows (fetches seg) in_network perms_read))
            (if-Grows (sends seg) (add_mode-Grows in_network perms_write)
              (when-Grows (runs_fetched seg) in_network perms_execute)))
          (when-Grows (removes_root seg) in_system perms_write))
        (when-Grows (writes_device seg) in_system perms_write))
      (when-Grows (runs_code seg) in_workspace perms_execute)

add_path-Grows :
    (env : Surroundings) (path : Bytes) (p : Perms) → Grows (λ m. add_path env m path p)
unfolding add_path
add_path-Grows env path p =
    let buf = bare_path path in
    if-Grows (peek path == 0) same-Grows (
      if-Grows (peek buf == 0 || str_eq buf (codes "/dev/null") || peek buf == b'&') same-Grows
        (add_mode-Grows (path_scope env buf) p))

-- the same words so far, and no less asked for
record WordsWithin (w v : Words) : Type 0 where
  mask : Within w.mask v.mask
  redir : w.redir ≡ v.redir
  seen_path : w.seen_path ≡ v.seen_path

if-WordsWithin :
    (b : Bool) {w v w' v' : Words}
    → WordsWithin w v
    → WordsWithin w' v'
    → WordsWithin (if b then w else w') (if b then v else v')
if-WordsWithin true h k = h
if-WordsWithin false h k = k

adds_path-WordsWithin :
    (env : Surroundings) (w v : Words) (path : Bytes) (p : Perms)
    → WordsWithin w v
    → WordsWithin (adds_path env w path p) (adds_path env v path p)
adds_path-WordsWithin env w v path p h = record {
  mask = (add_path-Grows env path p).keeps h.mask;
  redir = refl;
  seen_path = refl;
}

scan_word-WordsWithin :
    (env : Surroundings) (bits : Perms) (w v : Words) (tok : Bytes)
    → WordsWithin w v
    → WordsWithin (scan_word env bits w tok) (scan_word env bits v tok)
unfolding scan_word
scan_word-WordsWithin env bits w v tok h =
    if-WordsWithin
      (str_eq tok (codes ">")
        || str_eq tok (codes ">>")
        || str_eq tok (codes "1>")
        || str_eq tok (codes "1>>"))
      (record { mask = h.mask; redir = refl; seen_path = h.seen_path })
      (if-WordsWithin (str_eq tok (codes "<>"))
        (record { mask = h.mask; redir = refl; seen_path = h.seen_path })
        (if-WordsWithin (starts_with tok (codes "2>")) h (
          if-WordsWithin (peek tok == b'>')
            (adds_path-WordsWithin env w v (skip_arrows tok) perms_write h)
            (if-WordsWithin (starts_with tok (codes "<>"))
              (adds_path-WordsWithin env w v (drop 2 tok) perms_both h)
              (if-WordsWithin (is_path_word tok) (adds_path-WordsWithin env w v tok bits h) (
                if-WordsWithin (is_sensitive_path tok) (adds_path-WordsWithin env w v tok bits h)
                  h))))))

at_redir-WordsWithin :
    (env : Surroundings) (bits : Perms) (r : Option Perms) (w v : Words) (tok : Bytes)
    → WordsWithin w v
    → WordsWithin (at_redir env bits r w tok) (at_redir env bits r v tok)
unfolding at_redir
at_redir-WordsWithin env bits none w v tok h = scan_word-WordsWithin env bits w v tok h
at_redir-WordsWithin env bits (some p) w v tok h = adds_path-WordsWithin env w v tok p h

at_redirs-WordsWithin :
    (env : Surroundings) (bits : Perms) (r o : Option Perms) (w v : Words) (tok : Bytes)
    → r ≡ o
    → WordsWithin w v
    → WordsWithin (at_redir env bits r w tok) (at_redir env bits o v tok)
at_redirs-WordsWithin env bits r o w v tok e h = rw e (at_redir-WordsWithin env bits o w v tok h)

scan_token-WordsWithin :
    (env : Surroundings) (bits : Perms) (w v : Words) (tok : Bytes)
    → WordsWithin w v
    → WordsWithin (scan_token env bits w tok) (scan_token env bits v tok)
unfolding scan_token
scan_token-WordsWithin env bits w v tok h =
    at_redirs-WordsWithin env bits w.redir v.redir w v tok h.redir h

scan_tokens-WordsWithin :
    (env : Surroundings) (bits : Perms) (w v : Words) (toks : List Bytes)
    → WordsWithin w v
    → WordsWithin (scan_tokens env bits w toks) (scan_tokens env bits v toks)
unfolding scan_tokens
scan_tokens-WordsWithin env bits w v [] h = h
scan_tokens-WordsWithin env bits w v (tok ∷ toks) h =
    scan_tokens-WordsWithin env bits (scan_token env bits w tok) (scan_token env bits v tok) toks
      (scan_token-WordsWithin env bits w v tok h)

-- no less asked for than `m`
record AsksMore (m : Mask) (w : Words) : Type 0 where
  within : Within m w.mask

if-AsksMore :
    (b : Bool) {m : Mask} {w v : Words}
    → AsksMore m w
    → AsksMore m v
    → AsksMore m (if b then w else v)
if-AsksMore true h k = h
if-AsksMore false h k = k

adds_path-AsksMore :
    (env : Surroundings) (w : Words) (path : Bytes) (p : Perms)
    → AsksMore w.mask (adds_path env w path p)
adds_path-AsksMore env w path p = record { within = (add_path-Grows env path p).more w.mask }

scan_word-AsksMore :
    (env : Surroundings) (bits : Perms) (w : Words) (tok : Bytes)
    → AsksMore w.mask (scan_word env bits w tok)
unfolding scan_word
scan_word-AsksMore env bits w tok =
    let same = Within_refl w.mask in
    if-AsksMore
      (str_eq tok (codes ">")
        || str_eq tok (codes ">>")
        || str_eq tok (codes "1>")
        || str_eq tok (codes "1>>"))
      (record { within = same })
      (if-AsksMore (str_eq tok (codes "<>")) (record { within = same })
        (if-AsksMore (starts_with tok (codes "2>")) (record { within = same })
          (if-AsksMore (peek tok == b'>') (adds_path-AsksMore env w (skip_arrows tok) perms_write) (
            if-AsksMore (starts_with tok (codes "<>"))
              (adds_path-AsksMore env w (drop 2 tok) perms_both)
              (if-AsksMore (is_path_word tok) (adds_path-AsksMore env w tok bits) (
                if-AsksMore (is_sensitive_path tok) (adds_path-AsksMore env w tok bits)
                  (record { within = same })))))))

at_redir-more :
    (env : Surroundings) (bits : Perms) (r : Option Perms) (w : Words) (tok : Bytes)
    → Within w.mask (at_redir env bits r w tok).mask
unfolding at_redir
at_redir-more env bits none w tok = (scan_word-AsksMore env bits w tok).within
at_redir-more env bits (some p) w tok = (add_path-Grows env tok p).more w.mask

scan_token-more :
    (env : Surroundings) (bits : Perms) (w : Words) (tok : Bytes)
    → Within w.mask (scan_token env bits w tok).mask
unfolding scan_token
scan_token-more env bits w tok = at_redir-more env bits w.redir w tok

scan_tokens-more :
    (env : Surroundings) (bits : Perms) (w : Words) (toks : List Bytes)
    → Within w.mask (scan_tokens env bits w toks).mask
unfolding scan_tokens
scan_tokens-more env bits w [] = Within_refl w.mask
scan_tokens-more env bits w (tok ∷ toks) =
    Within_trans (scan_token-more env bits w tok)
      (scan_tokens-more env bits (scan_token env bits w tok) toks)

scan_segment-Grows : (env : Surroundings) (seg : Bytes) → Grows (λ m. scan_segment env m seg)
unfolding scan_segment
scan_segment-Grows env seg =
    let changes = changes_files seg in
    let bits = if changes then perms_both else perms_read in
    let start : Mask → Words =
      λ m. record { mask = scan_words m seg; redir = none; seen_path = false } in
    let behind : Mask → Words = λ m. scan_tokens env bits (start m) (pieces is_gap seg) in
    record {
      more = λ m. Within_trans ((scan_words-Grows seg).more m) (
          Within_trans (scan_tokens-more env bits (start m) (pieces is_gap seg)) (
            (when-Grows (changes && not (behind m).seen_path) in_workspace perms_write).more
              (behind m).mask));
      keeps = λ {m} {n} h.
          let w =
            scan_tokens-WordsWithin env bits (start m) (start n) (pieces is_gap seg)
              (record { mask = (scan_words-Grows seg).keeps h; redir = refl; seen_path = refl }) in
          rw w.seen_path (
            (when-Grows (changes && not (behind n).seen_path) in_workspace perms_write).keeps
              w.mask);
    }

scan_command-Grows : (env : Surroundings) (piece : Bytes) → Grows (λ m. scan_command env m piece)
unfolding scan_command
scan_command-Grows env piece =
    let seg = trim_end (skip_space piece) in
    if-Grows (peek seg == 0) same-Grows (scan_segment-Grows env seg)

pub scan_commands-Grows :
    (env : Surroundings) (ps : List Bytes) → Grows (λ m. scan_commands env m ps)
unfolding scan_commands
scan_commands-Grows env [] = same-Grows
scan_commands-Grows env (p ∷ ps) =
    then-Grows (scan_command-Grows env p) (scan_commands-Grows env ps)

pub scan_commands-append :
    (env : Surroundings) (m : Mask) (ps qs : List Bytes)
    → scan_commands env m (ps ++ qs) ≡ scan_commands env (scan_commands env m ps) qs
unfolding scan_commands
scan_commands-append env m [] qs = refl
scan_commands-append env m (p ∷ ps) qs = scan_commands-append env (scan_command env m p) ps qs
