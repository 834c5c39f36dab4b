-- ===== src/Base/Text.antt =====
-- C strings. A string is the list of the bytes before its terminator, and a pointer into it is a
-- suffix: `*p` is `peek`, which reads the terminator 0 at the end, and `p++` is `next`.
use Prim.Native.Nat.{ℕ, ◌<◌}
use Prim.Native.Char.{code}
use Prim.Native.String.{String}
use mathlib.Core.Path.{◌≡◌, refl}
use mathlib.Core.Bool.{Bool, true, false, ◌&&◌}
use mathlib.Core.Option.{Option, none, some}
use mathlib.Core.List.{List, [], ◌∷◌, ◌++◌}
use native.Mathlib.Omega.{arith}
use bash_agent.Base.Tests.{◌==◌, if◌then◌else◌}
use bash_agent.Base.Lists.{All, length, drop}

abbrev pub Bytes : Type 0
Bytes = List ℕ

-- the bytes of an ASCII literal
abbrev pub codes : String → Bytes
codes String.[] = []
codes (String.◌∷◌ c s) = code c ∷ codes s

-- bytes of which none is the terminator
abbrev pub IsText : Bytes → Type 0
IsText = All (λ c. (0 < c) × (c < 256))

abbrev pub peek : Bytes → ℕ
peek [] = 0
peek (c ∷ s) = c

abbrev pub next : Bytes → Bytes
next [] = []
next (c ∷ s) = s

-- what `strlen` and the functions built on it see of a buffer: the bytes before the first 0
abbrev pub c_string : Bytes → Bytes
c_string [] = []
c_string (c ∷ s) = if c == 0 then [] else c ∷ c_string s

-- strncmp(s, prefix, strlen(prefix)) == 0
abbrev pub starts_with : Bytes → Bytes → Bool
starts_with s [] = true
starts_with [] (p ∷ ps) = false
starts_with (c ∷ s) (p ∷ ps) = c == p && starts_with s ps

-- strcmp(s, t) == 0
abbrev pub str_eq : Bytes → Bytes → Bool
str_eq [] [] = true
str_eq (c ∷ s) [] = false
str_eq [] (d ∷ t) = false
str_eq (c ∷ s) (d ∷ t) = c == d && str_eq s t

-- strstr: the suffix at the first occurrence
unfoldable pub strstr : Bytes → Bytes → Option Bytes
strstr [] n = if starts_with [] n then some [] else none
strstr (c ∷ s) n = if starts_with (c ∷ s) n then some (c ∷ s) else strstr s n

abbrev pub is_some {ℓ} : {A : Type ℓ} → Option A → Bool
is_some none = false
is_some (some a) = true

-- strstr(s, n) != NULL
abbrev pub contains : Bytes → Bytes → Bool
contains s n = is_some (strstr s n)

-- s && strcmp(s, t) == 0
abbrev pub text_is : Option Bytes → Bytes → Bool
text_is none t = false
text_is (some s) t = str_eq s t

pub str_eq_refl : (s : Bytes) → str_eq s s ≡ true
str_eq_refl [] = refl
str_eq_refl (c ∷ s) = ground (arith, str_eq_refl s)

pub str_eq_sound : (s t : Bytes) → str_eq s t ≡ true → s ≡ t
str_eq_sound [] [] h = refl
str_eq_sound (c ∷ s) [] h = cc
str_eq_sound [] (d ∷ t) h = cc
str_eq_sound (c ∷ s) (d ∷ t) h = ground (arith, str_eq_sound s t)

pub c_string_text : (s : Bytes) → IsText s → c_string s ≡ s
c_string_text [] h = refl
c_string_text (c ∷ s) (p, h) = ground (arith, c_string_text s h)

-- A prefix found is there.
pub starts_with_sound : (s p : Bytes) → starts_with s p ≡ true → s ≡ p ++ drop (length p) s
starts_with_sound s [] h = refl
starts_with_sound [] (p ∷ ps) h = cc
starts_with_sound (c ∷ s) (p ∷ ps) h = ground (arith, starts_with_sound s ps)
