-- ===== src/Tools/Policy/Within.antt =====
-- The order of the modes of c/tools.c, and steps that go up in it.
use bash_agent.Base.{Bool, arith, false, if◌then◌else◌, true}
use bash_agent.Tools.Policy.{
  Mask, Perms, Scope, add_mode, in_external, in_network, in_system, in_workspace, join_perms,
  trusted,
}
use bash_agent.Tools.Policy.Allowed.{PermsWithin, Within}
use bash_agent.Tools.Policy.Commands.{when}

pub PermsWithin-refl : (a : Perms) → PermsWithin a a
PermsWithin-refl a = (λ h. h, λ h. h, λ h. h)

pub Within_refl : (a : Mask) → Within a a
Within_refl a = record {
  system = PermsWithin-refl a.system;
  external = PermsWithin-refl a.external;
  network = PermsWithin-refl a.network;
  workspace = PermsWithin-refl a.workspace;
}

PermsWithin-trans : {a b c : Perms} → PermsWithin a b → PermsWithin b c → PermsWithin a c
PermsWithin-trans (f, g, h) (f', g', h') = (λ x. f' (f x), λ x. g' (g x), λ x. h' (h x))

pub Within_trans : {a b c : Mask} → Within a b → Within b c → Within a c
Within_trans h k = record {
  system = PermsWithin-trans h.system k.system;
  external = PermsWithin-trans h.external k.external;
  network = PermsWithin-trans h.network k.network;
  workspace = PermsWithin-trans h.workspace k.workspace;
}

PermsWithin-join : (a p : Perms) → PermsWithin a (join_perms a p)
PermsWithin-join a p = ground arith

PermsWithin-joins :
    {a b : Perms} (p : Perms) → PermsWithin a b → PermsWithin (join_perms a p) (join_perms b p)
PermsWithin-joins p h = ground arith

Within-add_mode : (m : Mask) (s : Scope) (p : Perms) → Within m (add_mode m s p)
unfolding add_mode
Within-add_mode m in_system p = record {
  system = PermsWithin-join m.system p;
  external = PermsWithin-refl m.external;
  network = PermsWithin-refl m.network;
  workspace = PermsWithin-refl m.workspace;
}
Within-add_mode m in_external p = record {
  system = PermsWithin-refl m.system;
  external = PermsWithin-join m.external p;
  network = PermsWithin-refl m.network;
  workspace = PermsWithin-refl m.workspace;
}
Within-add_mode m in_network p = record {
  system = PermsWithin-refl m.system;
  external = PermsWithin-refl m.external;
  network = PermsWithin-join m.network p;
  workspace = PermsWithin-refl m.workspace;
}
Within-add_mode m in_workspace p = record {
  system = PermsWithin-refl m.system;
  external = PermsWithin-refl m.external;
  network = PermsWithin-refl m.network;
  workspace = PermsWithin-join m.workspace p;
}
Within-add_mode m trusted p = Within_refl m

Within-add_modes :
    {m n : Mask} (s : Scope) (p : Perms) → Within m n → Within (add_mode m s p) (add_mode n s p)
unfolding add_mode
Within-add_modes in_system p h = record {
  system = PermsWithin-joins p h.system;
  external = h.external;
  network = h.network;
  workspace = h.workspace;
}
Within-add_modes in_external p h = record {
  system = h.system;
  external = PermsWithin-joins p h.external;
  network = h.network;
  workspace = h.workspace;
}
Within-add_modes in_network p h = record {
  system = h.system;
  external = h.external;
  network = PermsWithin-joins p h.network;
  workspace = h.workspace;
}
Within-add_modes in_workspace p h = record {
  system = h.system;
  external = h.external;
  network = h.network;
  workspace = PermsWithin-joins p h.workspace;
}
Within-add_modes trusted p h = h

-- A step that takes no permission back, and asks for more where more was asked for.
pub record Grows (f : Mask → Mask) : Type 0 where
  pub more : (m : Mask) → Within m (f m)
  pub keeps : {m n : Mask} → Within m n → Within (f m) (f n)

pub same-Grows : Grows (λ m. m)
same-Grows = record { more = Within_refl; keeps = λ h. h }

pub add_mode-Grows : (s : Scope) (p : Perms) → Grows (λ m. add_mode m s p)
add_mode-Grows s p = record { more = λ m. Within-add_mode m s p; keeps = Within-add_modes s p }

pub if-Grows :
    (b : Bool) {f g : Mask → Mask} → Grows f → Grows g → Grows (λ m. if b then f m else g m)
if-Grows true h k = h
if-Grows false h k = k

pub then-Grows : {f g : Mask → Mask} → Grows f → Grows g → Grows (λ m. g (f m))
then-Grows {f} h k = record {
  more = λ m. Within_trans (h.more m) (k.more (f m));
  keeps = λ l. k.keeps (h.keeps l);
}

pub when-Grows : (b : Bool) (s : Scope) (p : Perms) → Grows (when b s p)
when-Grows b s p = if-Grows b (add_mode-Grows s p) same-Grows
