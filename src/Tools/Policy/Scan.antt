-- ===== src/Tools/Policy/Scan.antt =====
-- c/tools.c: the scan of a shell command for the mode that it requires.
use bash_agent.Base.{
  Bool, Bytes, List, [], codes, contains, drop, false, if◌then◌else◌, leb, length, map, next, none,
  not, peek, some, starts_with, str_eq, strstr, take, within, ℕ, ◌&&◌, ◌++◌, ◌+◌, ◌-◌, ◌==◌, ◌||◌,
  ◌∷◌,
}
use bash_agent.Tools.Policy.{
  Mask, Perms, Scope, add_mode, in_external, in_network, in_system, in_workspace, trusted,
}

-- what the scan reads of its surroundings: g_cwd, which is empty where getcwd fails, and the home
-- directory, `BASH_AGENT_HOME` or `HOME`
pub record Surroundings : Type 0 where
  pub cwd : Bytes
  pub home : Bytes

-- tolower
abbrev pub to_lower : ℕ → ℕ
to_lower c = if within b'A' b'Z' c then c + 32 else c

abbrev pub lower : Bytes → Bytes
lower = map to_lower

-- s starts with one of the prefixes, as a chain of ||
abbrev pub starts_with_any : Bytes → List Bytes → Bool
starts_with_any s [] = false
starts_with_any s (p ∷ ps) = starts_with s p || starts_with_any s ps

abbrev pub contains_any : Bytes → List Bytes → Bool
contains_any s [] = false
contains_any s (p ∷ ps) = contains s p || contains_any s ps

-- the path is `dir` or stands below it
abbrev pub is_below : Bytes → Bytes → Bool
is_below path dir =
    let rest = drop (length dir) path in
    starts_with path dir && (peek rest == 0 || peek rest == b'/')

abbrev pub is_below_any : Bytes → List Bytes → Bool
is_below_any path [] = false
is_below_any path (d ∷ ds) = is_below path d || is_below_any path ds

-- bash_is_system_path
unfoldable pub is_system_path : Bytes → Bool
is_system_path path = is_below_any path (
    codes "/etc"
    ∷ codes "/usr"
    ∷ codes "/bin"
    ∷ codes "/sbin"
    ∷ codes "/var"
    ∷ codes "/library"
    ∷ codes "/system"
    ∷ codes "/dev"
    ∷ [])

-- len >= 4 && strcmp(path + len - 4, ending) == 0
abbrev pub ends_with_four : Bytes → Bytes → Bool
ends_with_four path ending = leb 4 (length path) && str_eq (drop (length path - 4) path) ending

-- bash_is_sensitive_path
unfoldable pub is_sensitive_path : Bytes → Bool
unfolding strstr
is_sensitive_path path =
    contains path (codes "/.ssh")
    || contains path (codes "/.gnupg")
    || contains path (codes "/.aws")
    || contains path (codes "/.docker")
    || ends_with_four path (codes ".env")
    || ends_with_four path (codes ".pem")
    || ends_with_four path (codes ".key")
    || contains path (codes "token")
    || contains path (codes "credential")
    || contains path (codes "secret")

-- the bytes that bash_add_path drops at the end of a path
abbrev pub is_closing : ℕ → Bool
is_closing c = c == b'"' || c == b'\'' || c == b';' || c == b',' || c == b')'

unfoldable pub drop_closing : Bytes → Bytes
drop_closing [] = []
drop_closing (c ∷ s) =
    let rest = drop_closing s in
    elim rest [ [] ↦ if is_closing c then [] else c ∷ [] | d ∷ t ↦ c ∷ d ∷ t ]

-- the path that bash_add_path looks at: `buf` before its tests
unfoldable pub bare_path : Bytes → Bytes
unfolding drop_closing
bare_path path =
    let buf = take 1023 path in
    let unquoted = if peek buf == b'"' || peek buf == b'\'' then next buf else buf in
    let stripped = drop_closing unquoted in
    if starts_with stripped (codes "of=") then drop 3 stripped else stripped

-- `projects` of bash_add_path
abbrev pub projects_dir : Surroundings → Bytes
projects_dir env = lower (take 1023 (env.home ++ codes "/.bash-agent/projects"))

-- a directory in which every access is trusted
abbrev pub is_trusted_root : Surroundings → Bytes → Bool
is_trusted_root env buf =
    str_eq buf (codes "/tmp")
    || starts_with buf (codes "/tmp/")
    || str_eq buf (projects_dir env)
    || starts_with buf (projects_dir env) && peek (drop (length (projects_dir env)) buf) == b'/'

abbrev pub is_in_cwd : Surroundings → Bytes → Bool
is_in_cwd env buf =
    not (peek env.cwd == 0)
    && (str_eq buf env.cwd || starts_with buf env.cwd && peek (drop (length env.cwd) buf) == b'/')

-- the chain that sets `scope`
unfoldable pub path_scope : Surroundings → Bytes → Scope
unfolding is_system_path is_sensitive_path strstr
path_scope env buf =
    if is_trusted_root env buf
    then (if contains buf (codes "..") then in_system else trusted)
    else if starts_with buf (codes "/dev/tcp")
    then in_network
    else if str_eq buf (codes "/")
        || str_eq buf (codes "/*")
        || is_sensitive_path buf
        || is_system_path buf
    then in_system
    else if is_in_cwd env buf
    then in_workspace
    else if peek buf == b'/' && not (peek (next buf) == 0)
        || starts_with buf (codes "~/")
        || starts_with buf (codes "$home")
        || contains buf (codes "..")
    then in_external
    else in_workspace

-- bash_add_path, on a path that is not NULL
unfoldable pub add_path : Surroundings → Mask → Bytes → Perms → Mask
unfolding bare_path path_scope
add_path env m path perms =
    let buf = bare_path path in
    if peek path == 0
    then m
    else if peek buf == 0 || str_eq buf (codes "/dev/null") || peek buf == b'&'
    then m
    else add_mode m (path_scope env buf) perms

-- bash_is_block_device_path
unfoldable pub is_block_device_path : Bytes → Bool
unfolding strstr
is_block_device_path path = elim (strstr path (codes "/dev/")) [
  | none ↦ false
  | some at ↦ starts_with_any (drop 5 at) (
      codes "sd"
      ∷ codes "vd"
      ∷ codes "hd"
      ∷ codes "xvd"
      ∷ codes "disk"
      ∷ codes "rdisk"
      ∷ codes "nvme"
      ∷ [])
]
