-- ===== src/Agent/Compact/Cut.antt =====
-- compact_dp_decision: where it cuts.
use bash_agent.Agent.Compact.{
  Costs, Double, DpConfig, aligned, benefit, better, compact_dp_decision, costs_of, if_worth,
  least_drop, max_keep_of, min_keep_of, search_best, zero_d,
}
use bash_agent.Agent.UserLines.{back_to_user, is_user_at, sum_tokens}
use bash_agent.Base.{
  Bool-cases, Bytes, List, [], arith, drop, false, inl, inr, length, ltb, max, refl, suc, sym, true,
  zero, ℕ, ℤ, ◌+◌, ◌-◌, ◌<◌, ◌==◌, ◌^◌, ◌∙◌, ◌∷◌, ◌≡◌, ◌≤◌, ◌⊎◌,
}

back_to_user_lem :
    (ls : List Bytes) (cut : ℕ)
    → (back_to_user ls cut ≤ cut)
      × ((back_to_user ls cut ≡ 0) ⊎ (is_user_at ls (back_to_user ls cut) ≡ true))
unfolding back_to_user
back_to_user_lem ls zero = (omega arith, inl refl)
back_to_user_lem ls (suc cut) = elim (Bool-cases (is_user_at ls (suc cut))) [
  | inl user ↦ rw user (omega arith, inr user)
  | inr other ↦ let (le, at) = back_to_user_lem ls cut in rw other (omega (arith, le), at)
]

-- What a number of kept lines meets.
pub record IsCut (f : Double) (cfg : DpConfig f.D) (ls : List Bytes) (k : ℕ) : Type 0 where
  pub positive : 0 < k
  pub within : k ≤ length ls
  pub below_ceiling : k ≤ max_keep_of f cfg (length ls)
  pub drops_enough : least_drop f cfg ≤ sum_tokens ls - sum_tokens (drop (length ls - k) ls)
  pub at_user : (length ls - k ≡ 0) ⊎ (is_user_at ls (length ls - k) ≡ true)

module _ (f : Double) (cfg : DpConfig f.D) where
  open f use {D, literal, sub, less, low_not_positive}

  aligned-IsCut :
      (ls : List Bytes) (best_k : ℕ)
      → 0 < best_k
      → 0 < length ls
      → (aligned f cfg ls best_k ≡ 0) ⊎ IsCut f cfg ls (aligned f cfg ls best_k)
  unfolding aligned
  aligned-IsCut ls best_k positive some_lines =
      let n = length ls in
      let back = back_to_user ls (n - best_k) in
      let (le, at) = back_to_user_lem ls (n - best_k) in
      let same : max (n - back) 1 ≡ n - back = omega (arith, le) in
      let start : n - (n - back) ≡ back = omega (arith, le) in
      rw same (elim (Bool-cases (ltb (max_keep_of f cfg n) (n - back))) [
        | inl over ↦ rw over (inl refl)
        | inr fits ↦
            elim (Bool-cases
              (ltb (sum_tokens ls - sum_tokens (drop (n - (n - back)) ls)) (least_drop f cfg))) [
                | inl short ↦ rw (fits, short) (inl refl)
                | inr enough ↦
                    rw (fits, enough)
                      (inr (record {
                        positive = omega (arith, le);
                        within = omega (arith, le);
                        below_ceiling = ground arith;
                        drops_enough = ground arith;
                        at_user = rw start at;
                      }))
              ]
      ])

  -- a number of lines that was chosen is not 0
  abbrev Chosen : ℕ × D → Type 0
  Chosen (k, b) = less (zero_d f) b ≡ true → 0 < k

  better-Chosen : (best : ℕ × D) (k : ℕ) (b : D) → 0 < k → Chosen best → Chosen (better f best k b)
  better-Chosen (best_k, best) k b h c = elim (Bool-cases (less best b)) [
    | inl e ↦ rw e (λ _. h)
    | inr e ↦ rw e c
  ]

  search_best-Chosen :
      (c : Costs f) (ls : List Bytes) (more k : ℕ) (best : ℕ × D)
      → 0 < k
      → Chosen best
      → Chosen (search_best f cfg c ls more k best)
  unfolding search_best
  search_best-Chosen c ls zero k best h e = e
  search_best-Chosen c ls (suc more) k best h e =
      let kept = sum_tokens (drop (length ls - k) ls) in
      search_best-Chosen c ls more (k + 1) _ (omega arith)
        (elim (Bool-cases (c.total - kept == 0)) [
          | inl none_left ↦ rw none_left e
          | inr some_left ↦
              rw some_left (better-Chosen best k (benefit f cfg c kept (c.total - kept)) h e)
        ])

  if_worth-IsCut :
      (ls : List Bytes) (best : ℕ × D)
      → 0 < length ls
      → Chosen best
      → (if_worth f cfg ls best ≡ 0) ⊎ IsCut f cfg ls (if_worth f cfg ls best)
  if_worth-IsCut ls (k, b) some_lines chosen = elim (Bool-cases (less (zero_d f) b)) [
    | inl worth ↦ rw worth (aligned-IsCut ls k (chosen worth) some_lines)
    | inr not_worth ↦ rw not_worth (inl refl)
  ]

  start-Chosen : Chosen (0, sub (zero_d f) (literal (10 ^ 18) 0))
  start-Chosen e =
      let impossible : true ≡ false = sym e ∙ low_not_positive in absurd (cc (impossible))

  -- compact_dp_decision returns 0, which means no compaction, or a number of lines such
  -- that the first kept line is a message of the user or the first line of all, at most
  -- `max_keep` lines are kept, and at least `h_min` tokens are dropped.
  pub compact_dp_decision_lem :
      (ls : List Bytes) (turn_count total_requests total_compact total_input : ℤ)
      → let k = compact_dp_decision f cfg ls turn_count total_requests total_compact total_input in
        (k ≡ 0) ⊎ IsCut f cfg ls k
  unfolding compact_dp_decision
  compact_dp_decision_lem [] turn_count total_requests total_compact total_input = inl refl
  compact_dp_decision_lem (l ∷ ls) turn_count total_requests total_compact total_input =
      let lines = l ∷ ls in
      let n = length lines in
      let low = min_keep_of f cfg n in
      let c =
        costs_of f cfg (sum_tokens lines) turn_count total_requests total_compact total_input in
      if_worth-IsCut lines _ (omega arith) (
        search_best-Chosen c lines (max_keep_of f cfg n + 1 - low) low _ (omega arith) start-Chosen)
