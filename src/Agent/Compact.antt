-- ===== src/Agent/Compact.antt =====
-- c/agent.c: compact_dp_decision and compact_turn_keep, which choose how many lines of the
-- conversation are kept. The arithmetic of `double` is a parameter; counts are taken not to
-- overflow.
pub mod Cut
pub mod Turns
use bash_agent.Agent.UserLines.{back_to_user, sum_tokens, user_indices}
use bash_agent.Base.{
  Bool, Bytes, List, [], drop, false, get_or, if◌then◌else◌, is_positive, length, ltb, ltz, max,
  min, opposite, pos, pos_part, suc, zero, ℕ, ℤ, ◌&&◌, ◌+ℤ◌, ◌+◌, ◌-◌, ◌/◌, ◌==◌, ◌^◌, ◌∷◌, ◌≡◌,
}

-- `double` as far as the decision uses it
pub record Double : Type 1 where
  pub D : Type 0
  -- n / 10 ^ k
  pub literal : ℕ → ℕ → D
  pub of_int : ℤ → D
  pub add : D → D → D
  pub sub : D → D → D
  pub mul : D → D → D
  pub div : D → D → D
  pub less : D → D → Bool
  -- the conversion to `int`
  pub truncated : D → ℤ
  -- 0 - 1e18 is not above 0
  pub low_not_positive : less (literal 0 0) (sub (literal 0 0) (literal (10 ^ 18) 0)) ≡ false

-- DPConfig
pub record DpConfig (D : Type 0) : Type 0 where
  pub baseline_e : ℤ
  pub e_fixed : ℤ
  pub l_fixed : D
  pub v : D
  pub p_input : D
  pub p_cache : D
  pub p_out : D
  pub s : D
  pub min_keep_ratio : D
  pub r : D
  pub beta : D
  pub quality_penalty : D
  pub max_context : ℤ

module _ (f : Double) where
  open f use {D, literal, of_int, add, sub, mul, div, less, truncated}

  abbrev pub zero_d : D
  zero_d = literal 0 0

  abbrev pub one_d : D
  one_d = literal 1 0

  abbrev pub million : D
  million = literal (10 ^ 6) 0

  -- the expected number of rounds that are left
  abbrev pub expected_rounds : DpConfig D → ℤ → D
  expected_rounds cfg turn_count =
      let remaining = cfg.baseline_e +ℤ opposite turn_count in
      let bound = if ltz (pos 1) cfg.baseline_e then pos (pos_part cfg.baseline_e / 2) else pos 2 in
      if is_positive cfg.e_fixed
      then of_int cfg.e_fixed
      else if is_positive cfg.baseline_e
      then (if ltz bound remaining then of_int remaining else of_int bound)
      else literal 2 0

  -- the average number of calls for each input of the user
  abbrev pub calls_per_input : DpConfig D → ℤ → ℤ → D
  calls_per_input cfg turn_count total_requests =
      let l =
        if less zero_d cfg.l_fixed
        then cfg.l_fixed
        else if is_positive turn_count && is_positive total_requests
        then div (of_int total_requests) (of_int turn_count)
        else literal 5 0 in
      if less l one_d then one_d else l

  -- the average number of input tokens of a request
  abbrev pub average_input : ℤ → ℤ → D
  average_input total_requests total_input =
      if is_positive total_requests && is_positive total_input
      then div (of_int total_input) (of_int total_requests)
      else literal 4000 0

  -- r_t: `n` factors, from `x` on
  unfoldable pub power_from : D → ℕ → D → D
  power_from r zero x = x
  power_from r (suc n) x = power_from r n (mul x r)

  -- the part of the information that is left after so many compactions
  abbrev pub retention : DpConfig D → ℤ → D
  retention cfg total_compact =
      let r_t = power_from cfg.r (pos_part (total_compact +ℤ pos 1)) one_d in
      if less r_t (literal 37 2) then literal 37 2 else r_t

  -- (int)(x + 0.5), where the negative results are 0: each use clamps them alike
  abbrev pub rounded : D → ℕ
  rounded x = pos_part (truncated (add x (literal 5 1)))

  abbrev pub min_keep_of : DpConfig D → ℕ → ℕ
  min_keep_of cfg n = min (max (rounded (mul (of_int (pos n)) cfg.min_keep_ratio)) 3) n

  abbrev pub max_keep_of : DpConfig D → ℕ → ℕ
  max_keep_of cfg n =
      let m = min (rounded (mul (of_int (pos n)) (sub one_d cfg.min_keep_ratio))) n in
      if ltb m (min_keep_of cfg n) then n else m

  -- the tokens that must be dropped at least
  abbrev pub least_drop : DpConfig D → ℕ
  least_drop cfg = pos_part (truncated (mul (literal 20 0) cfg.s))

  -- what does not depend on the number of lines that are kept
  pub record Costs : Type 0 where
    pub calls : D
    pub info_loss : D
    pub total : ℕ

  abbrev pub costs_of : DpConfig D → ℕ → ℤ → ℤ → ℤ → ℤ → Costs
  costs_of cfg total turn_count total_requests total_compact total_input =
      let calls =
        mul (expected_rounds cfg turn_count) (calls_per_input cfg turn_count total_requests) in
      let remaining = mul calls (average_input total_requests total_input) in
      record {
        calls = calls;
        info_loss =
            div
              (mul (mul (mul cfg.beta (sub one_d (retention cfg total_compact))) remaining)
                cfg.p_input)
              million;
        total = total;
      }

  -- the benefit of dropping `h` tokens and keeping `k`
  unfoldable pub benefit : DpConfig D → Costs → ℕ → ℕ → D
  benefit cfg c k h =
      let kd = of_int (pos k) in
      let hd = of_int (pos h) in
      let total = of_int (pos c.total) in
      let savings = div (mul (mul (sub c.calls one_d) cfg.p_cache) hd) million in
      let cache_miss = div (mul (add cfg.s kd) (sub cfg.p_input cfg.p_cache)) million in
      let compact_cost =
        div
          (add (add (mul cfg.p_cache cfg.v) (mul cfg.p_input (add hd (literal 70 0))))
            (mul cfg.p_out cfg.s))
          million in
      let v_plus_t = add cfg.v total in
      let v_plus_k = add cfg.v kd in
      let quality =
        if less (mul (of_int cfg.max_context) (literal 30 2)) total
        then div
            (mul (mul cfg.quality_penalty cfg.p_input)
              (sub (mul v_plus_t v_plus_t) (mul v_plus_k v_plus_k)))
            (mul (of_int cfg.max_context) million)
        else zero_d in
      add (sub (sub (sub savings cache_miss) compact_cost) c.info_loss) quality

  -- the better of a number of lines and the best one so far
  abbrev pub better : ℕ × D → ℕ → D → ℕ × D
  better (best_k, best) k b = if less best b then (k, b) else (best_k, best)

  -- the loop over the number of lines: `more` of them from `k` on
  unfoldable pub search_best : DpConfig D → Costs → List Bytes → ℕ → ℕ → ℕ × D → ℕ × D
  unfolding benefit sum_tokens
  search_best cfg c ls zero k best = best
  search_best cfg c ls (suc more) k best =
      let kept = sum_tokens (drop (length ls - k) ls) in
      let h = c.total - kept in
      search_best cfg c ls more (k + 1)
        (if h == 0 then best else better best k (benefit cfg c kept h))

  -- the cut moved back to a user message, unless too much is kept or too little is dropped then
  unfoldable pub aligned : DpConfig D → List Bytes → ℕ → ℕ
  unfolding back_to_user sum_tokens
  aligned cfg ls best_k =
      let n = length ls in
      let adj = max (n - back_to_user ls (n - best_k)) 1 in
      if ltb (max_keep_of cfg n) adj
      then 0
      else if ltb (sum_tokens ls - sum_tokens (drop (n - adj) ls)) (least_drop cfg)
      then 0
      else adj

  abbrev pub if_worth : DpConfig D → List Bytes → ℕ × D → ℕ
  if_worth cfg ls (best_k, best) = if less zero_d best then aligned cfg ls best_k else 0

  -- compact_dp_decision
  unfoldable pub compact_dp_decision : DpConfig D → List Bytes → ℤ → ℤ → ℤ → ℤ → ℕ
  unfolding search_best aligned
  compact_dp_decision cfg [] turn_count total_requests total_compact total_input = 0
  compact_dp_decision cfg (l ∷ ls) turn_count total_requests total_compact total_input =
      let lines = l ∷ ls in
      let n = length lines in
      let low = min_keep_of cfg n in
      let c = costs_of cfg (sum_tokens lines) turn_count total_requests total_compact total_input in
      if_worth cfg lines (
        search_best cfg c lines (max_keep_of cfg n + 1 - low) low
          (0, sub zero_d (literal (10 ^ 18) 0)))

  -- compact_turn_keep
  unfoldable pub compact_turn_keep : List Bytes → D → ℕ
  unfolding user_indices
  compact_turn_keep ls ratio =
      let users = user_indices 0 ls in
      let count = length users in
      let keep_turns = max (rounded (mul (of_int (pos count)) ratio)) 1 in
      if count == 0 then 0 else length ls - get_or users (count - keep_turns) 0
