-- ===== src/Tools/Policy/Allowed.antt =====
-- When bash_mode_allows lets a command pass.
use bash_agent.Base.{
  Bool, Bytes, Option, [], ap, arith, codes, false, length, refl, some, sym, true, ◌&&◌, ◌<◌, ◌↔◌,
  ◌∙◌, ◌∷◌, ◌≡◌, ◌≢◌,
}
use bash_agent.Tools.Policy.{
  Mask, Perms, covers, covers_perms, digit, digit_perms, is_octal, mode_allows, mode_mask,
  mode_normalize, mode_text, no_mask, normalized,
}

-- each permission of `a` is one of `b`
abbrev pub PermsWithin : Perms → Perms → Type 0
PermsWithin a b =
    (a.reads ≡ true → b.reads ≡ true)
    × (a.writes ≡ true → b.writes ≡ true)
    × (a.executes ≡ true → b.executes ≡ true)

-- so in each scope
pub record Within (a b : Mask) : Type 0 where
  pub system : PermsWithin a.system b.system
  pub external : PermsWithin a.external b.external
  pub network : PermsWithin a.network b.network
  pub workspace : PermsWithin a.workspace b.workspace

covers_perms_iff : (a b : Perms) → (covers_perms a b ≡ true) ↔ PermsWithin b a
covers_perms_iff a b = ground arith

and-true : (x y : Bool) → (x && y) ≡ true → (x ≡ true) × (y ≡ true)
and-true x y h = ground arith

pub covers_sound : (a b : Mask) → covers a b ≡ true → Within b a
covers_sound a b h =
    let (abc, d) = and-true _ _ h in
    let (ab, c) = and-true _ _ abc in
    let (first, second) = and-true _ _ ab in
    record {
      system = (covers_perms_iff a.system b.system).0 first;
      external = (covers_perms_iff a.external b.external).0 second;
      network = (covers_perms_iff a.network b.network).0 c;
      workspace = (covers_perms_iff a.workspace b.workspace).0 d;
    }

pub covers_complete : (a b : Mask) → Within b a → covers a b ≡ true
covers_complete a b h =
    let first = (covers_perms_iff a.system b.system).1 h.system in
    let second = (covers_perms_iff a.external b.external).1 h.external in
    let third = (covers_perms_iff a.network b.network).1 h.network in
    let fourth = (covers_perms_iff a.workspace b.workspace).1 h.workspace in
    rw (first, second, third, fourth) refl

digit-is_octal : (p : Perms) → is_octal (digit p) ≡ true
digit-is_octal p = ground arith

bits-digit :
    (r w x : Bool)
    → let p : Perms = record { reads = r; writes = w; executes = x } in digit_perms (digit p) ≡ p
bits-digit true true true = refl
bits-digit true true false = refl
bits-digit true false true = refl
bits-digit true false false = refl
bits-digit false true true = refl
bits-digit false true false = refl
bits-digit false false true = refl
bits-digit false false false = refl

digit_perms-digit : (p : Perms) → digit_perms (digit p) ≡ p
digit_perms-digit p = bits-digit p.reads p.writes p.executes

mode_mask-mode_text : (m : Mask) → mode_mask (mode_text m) ≡ m
unfolding mode_mask mode_text
mode_mask-mode_text m =
    rw
      (
        digit_perms-digit m.system,
        digit_perms-digit m.external,
        digit_perms-digit m.network,
        digit_perms-digit m.workspace,
      )
      refl

mode_normalize-mode_text : (m : Mask) → mode_normalize (some (mode_text m)) ≡ mode_text m
unfolding mode_normalize mode_text normalized
mode_normalize-mode_text m =
    rw
      (
        digit-is_octal m.system,
        digit-is_octal m.external,
        digit-is_octal m.network,
        digit-is_octal m.workspace,
      )
      refl

-- the permissions that an allowed mode grants
abbrev pub granted : Option Bytes → Mask
granted allowed = mode_mask (mode_normalize allowed)

pub mode_allows-mode_text :
    (allowed : Option Bytes) (m : Mask)
    → mode_allows allowed (some (mode_text m)) ≡ covers (granted allowed) m
unfolding mode_allows
mode_allows-mode_text allowed m = rw (mode_normalize-mode_text m, mode_mask-mode_text m) refl

-- bash_mode_allows on two printed modes says yes exactly if each permission that is required is
-- allowed in its scope; a mode that is printed and normalized is itself.
pub mode_allows_lem :
    (allowed required : Mask)
    → ((mode_allows (some (mode_text allowed)) (some (mode_text required)) ≡ true)
        ↔ Within required allowed)
      × (mode_normalize (some (mode_text allowed)) ≡ mode_text allowed)
mode_allows_lem allowed required =
    let same =
      mode_allows-mode_text (some (mode_text allowed)) required
      ∙ ap (λ x. covers (mode_mask x) required) (mode_normalize-mode_text allowed)
      ∙ ap (λ x. covers x required) (mode_mask-mode_text allowed) in
    (
      (
        λ h. covers_sound allowed required (sym same ∙ h),
        λ h. same ∙ covers_complete allowed required h,
      ),
      mode_normalize-mode_text allowed,
    )

normalized-other : (s : Bytes) → length s ≢ 4 → normalized s ≡ codes "0000"
unfolding normalized
normalized-other [] h = refl
normalized-other (a ∷ []) h = refl
normalized-other (a ∷ b ∷ []) h = refl
normalized-other (a ∷ b ∷ c ∷ []) h = refl
normalized-other (a ∷ b ∷ c ∷ d ∷ []) h = absurd (h refl)
normalized-other (a ∷ b ∷ c ∷ d ∷ e ∷ s) h = refl

mode_normalize-other :
    (s : Bytes) → 0 < length s → length s ≢ 4 → mode_normalize (some s) ≡ codes "0000"
unfolding mode_normalize
mode_normalize-other [] p h = absurd (omega arith)
mode_normalize-other (c ∷ s) p h = normalized-other (c ∷ s) h

zeros : mode_mask (codes "0000") ≡ no_mask
unfolding mode_mask
zeros = refl

-- An allowed mode that is not empty and has not the length of four digits allows only what
-- requires no permission.
pub mode_allows_bad :
    (s : Bytes) (required : Mask)
    → 0 < length s
    → length s ≢ 4
    → (mode_allows (some s) (some (mode_text required)) ≡ true) ↔ Within required no_mask
mode_allows_bad s required p h =
    let same =
      mode_allows-mode_text (some s) required
      ∙ ap (λ x. covers (mode_mask x) required) (mode_normalize-other s p h)
      ∙ ap (λ x. covers x required) zeros in
    (
      λ k. covers_sound no_mask required (sym same ∙ k),
      λ k. same ∙ covers_complete no_mask required k,
    )
