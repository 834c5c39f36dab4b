-- ===== src/Agent/Context/Chosen.antt =====
-- agent_compact_context: the number of lines that it keeps.
use bash_agent.Agent.Compact.{Double}
use bash_agent.Agent.Compact.Cut.{compact_dp_decision_lem}
use bash_agent.Agent.Compact.Turns.{compact_turn_keep_lem, count_users}
use bash_agent.Agent.Context.{
  CompactConfig, checked_keep, chosen_keep, decision, fallback_keep, near_limit, turn_keep,
}
use bash_agent.Agent.UserLines.{is_user_at}
use bash_agent.Base.{
  Bool, Bool-cases, Bytes, List, Option, arith, false, if◌then◌else◌, inl, inr, leb, length, none,
  not, some, true, ℕ, ◌&&◌, ◌-◌, ◌<◌, ◌==◌, ◌||◌, ◌≡◌, ◌≤◌, ◌⊎◌,
}
use bash_agent.Util.FileSystem.{World}

-- A number of lines that may be kept: all of them, or from a message of the user on, or none
-- where there is no such message.
pub record IsKept (ls : List Bytes) (keep : ℕ) : Type 0 where
  pub within : keep ≤ length ls
  pub begins :
      ((keep ≡ 0) × (count_users ls ≡ 0))
      ⊎ ((length ls - keep ≡ 0) ⊎ (is_user_at ls (length ls - keep) ≡ true))

-- what chosen_keep returns
abbrev pub Fits : List Bytes → Bool → Option ℕ → Type 0
Fits ls forced none = Unit
Fits ls forced (some keep) = IsKept ls keep × (forced ≡ false → keep < length ls)

module _ (f : Double) where
  open f use {D}

  turn_keep-IsKept : (setup : CompactConfig D) (ls : List Bytes) → IsKept ls (turn_keep f setup ls)
  turn_keep-IsKept setup ls = elim (compact_turn_keep_lem f ls setup.dp_cfg.min_keep_ratio) [
    | inl (no_users, nothing) ↦ record {
      within = omega (arith, nothing);
      begins = inl (nothing, no_users);
    }
    | inr (positive, within, at_user, count) ↦ record {
      within = within;
      begins = inr (inr at_user);
    }
  ]

  decision-IsKept :
      (setup : CompactConfig D) (w : World) (ls : List Bytes)
      → (decision f setup w ls ≡ 0) ⊎ IsKept ls (decision f setup w ls)
  decision-IsKept setup w ls = elim (compact_dp_decision_lem f setup.dp_cfg ls _ _ _ _) [
    | inl nothing ↦ inl nothing
    | inr cut ↦ inr (record { within = cut.within; begins = inr cut.at_user })
  ]

  last_test-Fits :
      (ls : List Bytes) (forced : Bool) (k : ℕ)
      → IsKept ls k
      → Fits ls forced (if leb (length ls) k && not forced then none else some k)
  last_test-Fits ls true k h = elim (Bool-cases (leb (length ls) k)) [
    | inl e ↦ rw e (h, λ e. absurd (cc (e)))
    | inr e ↦ rw e (h, λ e. absurd (cc (e)))
  ]
  last_test-Fits ls false k h = elim (Bool-cases (leb (length ls) k)) [
    | inl e ↦ rw e tt
    | inr e ↦ rw e (h, λ _. ground arith)
  ]

  checked_keep-Fits :
      (setup : CompactConfig D) (ls : List Bytes) (forced : Bool) (k : ℕ)
      → (k ≡ 0) ⊎ IsKept ls k
      → Fits ls forced (checked_keep f setup ls forced (some k))
  checked_keep-Fits setup ls forced k h = elim (Bool-cases (k == 0)) [
    | inl e ↦ rw e (last_test-Fits ls forced (turn_keep f setup ls) (turn_keep-IsKept setup ls))
    | inr e ↦ elim h [
      | inl nothing ↦ absurd (ground (arith, nothing))
      | inr start ↦ rw e (last_test-Fits ls forced k start)
    ]
  ]

  fallback_keep-Fits :
      (setup : CompactConfig D) (w : World) (ls : List Bytes) (forced : Bool)
      → Fits ls forced (checked_keep f setup ls forced (fallback_keep f setup w ls forced))
  fallback_keep-Fits setup w ls forced = elim (Bool-cases (forced || near_limit setup w)) [
    | inl e ↦ rw e (checked_keep-Fits setup ls forced _ (inr (turn_keep-IsKept setup ls)))
    | inr e ↦ rw e tt
  ]

  pub chosen_keep-Fits :
      (setup : CompactConfig D) (w : World) (ls : List Bytes) (forced : Bool)
      → Fits ls forced (chosen_keep f setup w ls forced)
  unfolding chosen_keep
  chosen_keep-Fits setup w ls forced =
      let k = decision f setup w ls in
      elim (Bool-cases ((k == 0) || leb (length ls) k)) [
        | inl e ↦ rw e (fallback_keep-Fits setup w ls forced)
        | inr e ↦ rw e (checked_keep-Fits setup ls forced _ (decision-IsKept setup w ls))
      ]
