-- ===== src/Agent/Compact/Turns.antt =====
-- compact_turn_keep: where it cuts.
use bash_agent.Agent.Compact.{Double, compact_turn_keep, rounded}
use bash_agent.Agent.UserLines.{is_real_user_line, is_user_at, user_indices}
use bash_agent.Base.{
  Bool-cases, Bytes, List, [], ap, arith, drop, false, get_or, if◌then◌else◌, inl, inr, length, max,
  min, pos, refl, suc, sym, true, zero, ℕ, ◌+◌, ◌-◌, ◌<◌, ◌==◌, ◌∙◌, ◌∷◌, ◌≡◌, ◌≤◌, ◌⊎◌,
}

-- the lines of user messages in some lines
abbrev pub count_users : List Bytes → ℕ
count_users [] = 0
count_users (l ∷ ls) = (if is_real_user_line l then 1 else 0) + count_users ls

user_indices-user :
    (i : ℕ) (l : Bytes) (ls : List Bytes)
    → is_real_user_line l ≡ true
    → user_indices i (l ∷ ls) ≡ i ∷ user_indices (i + 1) ls
unfolding user_indices
user_indices-user i l ls e = rw e refl

user_indices-other :
    (i : ℕ) (l : Bytes) (ls : List Bytes)
    → is_real_user_line l ≡ false
    → user_indices i (l ∷ ls) ≡ user_indices (i + 1) ls
unfolding user_indices
user_indices-other i l ls e = rw e refl

user_indices-count : (i : ℕ) (ls : List Bytes) → length (user_indices i ls) ≡ count_users ls
unfolding user_indices
user_indices-count i [] = refl
user_indices-count i (l ∷ ls) = elim (Bool-cases (is_real_user_line l)) [
  | inl e ↦ rw e (omega (arith, user_indices-count (i + 1) ls))
  | inr e ↦ rw e (omega (arith, user_indices-count (i + 1) ls))
]

-- What the index `at` of a user's message says of the lines that are numbered from `i` on:
-- `rest` user's messages stand from it on.
record IsUserIndex (i : ℕ) (ls : List Bytes) (at rest : ℕ) : Type 0 where
  offset : ℕ
  at_offset : at ≡ i + offset
  within : offset < length ls
  at_user : is_user_at ls offset ≡ true
  users_from : count_users (drop offset ls) ≡ rest

next_line :
    {i at rest : ℕ} {l : Bytes} {ls : List Bytes}
    → IsUserIndex (i + 1) ls at rest
    → IsUserIndex i (l ∷ ls) at rest
next_line u = record {
  offset = suc u.offset;
  at_offset = omega (arith, u.at_offset);
  within = omega (arith, u.within);
  at_user = u.at_user;
  users_from = u.users_from;
}

user_indices-none : (i k : ℕ) → ¬ (k < length (user_indices i []))
unfolding user_indices
user_indices-none i k h = omega arith

user_indices_lem :
    (i : ℕ) (ls : List Bytes) (k : ℕ)
    → k < length (user_indices i ls)
    → IsUserIndex i ls (get_or (user_indices i ls) k 0) (length (user_indices i ls) - k)
user_indices_lem i [] k h = absurd (user_indices-none i k h)
user_indices_lem i (l ∷ ls) zero h = elim (Bool-cases (is_real_user_line l)) [
  | inl e ↦ record {
    offset = 0;
    at_offset = rw (user_indices-user i l ls e) (omega arith);
    within = omega arith;
    at_user = e;
    users_from = omega (arith, user_indices-count i (l ∷ ls));
  }
  | inr e ↦
      let same = user_indices-other i l ls e in
      rw same (next_line (user_indices_lem (i + 1) ls zero (omega (arith, ap length same))))
]
user_indices_lem i (l ∷ ls) (suc k) h = elim (Bool-cases (is_real_user_line l)) [
  | inl e ↦
      let same = user_indices-user i l ls e in
      let fewer : suc (length (user_indices (i + 1) ls)) - suc k
          ≡ length (user_indices (i + 1) ls) - k =
        omega arith in
      rw (same, fewer) (next_line (user_indices_lem (i + 1) ls k (omega (arith, ap length same))))
  | inr e ↦
      let same = user_indices-other i l ls e in
      rw same (next_line (user_indices_lem (i + 1) ls (suc k) (omega (arith, ap length same))))
]

module _ (f : Double) where
  open f use {D, of_int, mul}

  -- compact_turn_keep returns 0 when no line is a user's message. Else it keeps as many lines
  -- from the end as hold `keep_turns` of them, or all of them, where `keep_turns` is the
  -- rounded part `ratio` of their number and at least 1; and it cuts at a user's message.
  pub compact_turn_keep_lem :
      (ls : List Bytes) (ratio : D)
      → let count = count_users ls in
        let keep = compact_turn_keep f ls ratio in
        let turns = max (rounded f (mul (of_int (pos count)) ratio)) 1 in
        ((count ≡ 0) × (keep ≡ 0))
        ⊎ ((0 < keep)
            × (keep ≤ length ls)
            × (is_user_at ls (length ls - keep) ≡ true)
            × (count_users (drop (length ls - keep) ls) ≡ min turns count))
  unfolding compact_turn_keep
  compact_turn_keep_lem ls ratio =
      let same = user_indices-count 0 ls in
      elim (Bool-cases (length (user_indices 0 ls) == 0)) [
        | inl e ↦ inl (sym same ∙ ground arith, rw e refl)
        | inr e ↦
            let count = length (user_indices 0 ls) in
            let turns = max (rounded f (mul (of_int (pos count)) ratio)) 1 in
            let u = user_indices_lem 0 ls (count - turns) (ground arith) in
            let at = get_or (user_indices 0 ls) (count - turns) 0 in
            let cut : length ls - (length ls - at) ≡ u.offset =
              omega (arith, u.at_offset, u.within) in
            let left : count_users (drop (length ls - (length ls - at)) ls) ≡ min turns count =
              rw cut (u.users_from ∙ omega arith) in
            rw (e, sym same)
              (inr (omega (arith, u.at_offset, u.within), omega arith, rw cut u.at_user, left))
      ]
