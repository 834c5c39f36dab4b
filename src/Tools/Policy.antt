-- ===== src/Tools/Policy.antt =====
-- c/tools.c: the safety policy of shell commands. A mode is four octal digits, the permissions
-- that are used in the system, outside of the workspace, on the network and in the workspace.
pub mod Scan
pub mod Commands
pub mod Allowed
pub mod Within
pub mod Grows
pub mod Separated
pub mod Chained
use bash_agent.Base.{
  Bool, Bytes, Option, [], codes, false, if◌then◌else◌, none, not, some, true, within, ℕ, ◌%◌, ◌&&◌,
  ◌*◌, ◌+◌, ◌-◌, ◌/◌, ◌==◌, ◌||◌, ◌∷◌,
}

-- the three bits of a digit: 4, 2 and 1
pub record Perms : Type 0 where
  pub reads : Bool
  pub writes : Bool
  pub executes : Bool

-- The bits of `mask`. The `perms` that the source passes are below 8, so that the shifts by 9, 6, 3
-- and 0 fill digits of their own.
pub record Mask : Type 0 where
  pub system : Perms
  pub external : Perms
  pub network : Perms
  pub workspace : Perms

-- the scopes 8, 4, 2, 1, and 0
pub data Scope : Type 0 where
  in_system in_external in_network in_workspace trusted : Scope

abbrev pub no_perms : Perms
no_perms = record { reads = false; writes = false; executes = false }

abbrev pub no_mask : Mask
no_mask = record {
  system = no_perms;
  external = no_perms;
  network = no_perms;
  workspace = no_perms;
}

abbrev pub perms_read : Perms
perms_read = record { reads = true; writes = false; executes = false }

abbrev pub perms_write : Perms
perms_write = record { reads = false; writes = true; executes = false }

abbrev pub perms_execute : Perms
perms_execute = record { reads = false; writes = false; executes = true }

abbrev pub perms_both : Perms
perms_both = record { reads = true; writes = true; executes = false }

-- a | b
abbrev pub join_perms : Perms → Perms → Perms
join_perms a b = record {
  reads = a.reads || b.reads;
  writes = a.writes || b.writes;
  executes = a.executes || b.executes;
}

-- bash_add_mode
unfoldable pub add_mode : Mask → Scope → Perms → Mask
add_mode m in_system p = record m { system = join_perms m.system p }
add_mode m in_external p = record m { external = join_perms m.external p }
add_mode m in_network p = record m { network = join_perms m.network p }
add_mode m in_workspace p = record m { workspace = join_perms m.workspace p }
add_mode m trusted p = m

-- the bit of a Boolean
abbrev pub bit : Bool → ℕ
bit true = 1
bit false = 0

-- one digit of `%04o`
abbrev pub digit : Perms → ℕ
digit p = b'0' + (4 * bit p.reads + 2 * bit p.writes + bit p.executes)

-- snprintf(out, 5, "%04o", mask)
unfoldable pub mode_text : Mask → Bytes
mode_text m = digit m.system ∷ digit m.external ∷ digit m.network ∷ digit m.workspace ∷ []

abbrev pub is_octal : ℕ → Bool
is_octal = within b'0' b'7'

-- what bash_mode_normalize makes of a mode that is not empty
unfoldable pub normalized : Bytes → Bytes
normalized (a ∷ b ∷ c ∷ d ∷ []) =
    if is_octal a && is_octal b && is_octal c && is_octal d
    then a ∷ b ∷ c ∷ d ∷ []
    else codes "0000"
normalized _ = codes "0000"

-- bash_mode_normalize; `none` is NULL
unfoldable pub mode_normalize : Option Bytes → Bytes
unfolding normalized
mode_normalize none = codes "0467"
mode_normalize (some []) = codes "0467"
mode_normalize (some (c ∷ s)) = normalized (c ∷ s)

-- the bits of an octal digit
abbrev pub digit_perms : ℕ → Perms
digit_perms c = record {
  reads = (c - b'0') / 4 % 2 == 1;
  writes = (c - b'0') / 2 % 2 == 1;
  executes = (c - b'0') % 2 == 1;
}

-- strtol of a normalized mode in base 8, as bits
unfoldable pub mode_mask : Bytes → Mask
mode_mask (a ∷ b ∷ c ∷ d ∷ s) = record {
  system = digit_perms a;
  external = digit_perms b;
  network = digit_perms c;
  workspace = digit_perms d;
}
mode_mask _ = no_mask

-- no bit of `b` that is not in `a`
abbrev pub covers_perms : Perms → Perms → Bool
covers_perms a b =
    not (b.reads && not a.reads)
    && not (b.writes && not a.writes)
    && not (b.executes && not a.executes)

-- (required & (4095 ^ allowed)) == 0
abbrev pub covers : Mask → Mask → Bool
covers a b =
    covers_perms a.system b.system
    && covers_perms a.external b.external
    && covers_perms a.network b.network
    && covers_perms a.workspace b.workspace

-- bash_mode_allows
unfoldable pub mode_allows : Option Bytes → Option Bytes → Bool
unfolding mode_normalize mode_mask
mode_allows allowed required =
    covers (mode_mask (mode_normalize allowed)) (mode_mask (mode_normalize required))
