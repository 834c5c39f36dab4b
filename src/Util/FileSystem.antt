-- ===== src/Util/FileSystem.antt =====
-- c/util.c: util_read_file and util_write_file. The files are a function from paths to contents.
use mathlib.Core.Option
use bash_agent.Base.{
  Bool, Bytes, Option, c_string, false, if◌then◌else◌, leb, length, refl, some, str_eq, take, true,
  ℕ, ◌≡◌,
}

-- How a write to a file ends: in full, or behind so many bytes of a file that was opened, and so
-- emptied, or with no file opened.
pub data Access : Type 0 where
  in_full : Access
  cut_off : ℕ → Access
  no_access : Access

-- the files, and how a write to each path ends
pub record World : Type 0 where
  pub files : Bytes → Option Bytes
  pub writable : Bytes → Access

-- the files with `content` at `path`
abbrev pub put : World → Bytes → Bytes → World
put w path content = record w { files = λ p. if str_eq p path then some content else w.files p }

abbrev pub write_as : Access → World → Bytes → Bytes → Bool × World
write_as in_full w path content = (true, put w path content)
write_as (cut_off n) w path content = (leb (length content) n, put w path (take n content))
write_as no_access w path content = (false, w)

-- util_write_file; the flag is a return of 0
unfoldable pub write_file : World → Bytes → Bytes → Bool × World
write_file w path content = write_as (w.writable path) w path content

-- util_read_file, as the C string that its caller sees
abbrev pub read_file : World → Bytes → Option Bytes
read_file w path = Option.map c_string (w.files path)

write_as-other :
    (a : Access) (w : World) (path content p : Bytes)
    → str_eq p path ≡ false
    → (write_as a w path content).1.files p ≡ w.files p
write_as-other in_full w path content p other = rw other refl
write_as-other (cut_off n) w path content p other = rw other refl
write_as-other no_access w path content p other = refl

-- However a write ends, the other files stay.
pub write_file-other :
    (w : World) (path content p : Bytes)
    → str_eq p path ≡ false
    → (write_file w path content).1.files p ≡ w.files p
unfolding write_file
write_file-other w path content p other = write_as-other (w.writable path) w path content p other
