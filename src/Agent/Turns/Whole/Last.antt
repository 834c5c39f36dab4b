-- ===== src/Agent/Turns/Whole/Last.antt =====
-- agent_loop: the last round.
use bash_agent.Agent.Compact.{Double}
use bash_agent.Agent.Results.{agent_drain_sub_results, drain_from}
use bash_agent.Agent.Turns.{LoopState, push, stopped_here}
use bash_agent.Agent.Turns.Loop.{LoopConfig, Outside, after_round, rounds, run_round}
use bash_agent.Agent.Turns.Whole.{end_turn, max_turns_reached}
use bash_agent.Base.{
  Bool, Option, [], ap, false, length, none, not, pos, refl, some, true, ℕ, ℤ, ◌&&◌, ◌==◌, ◌∙◌, ◌≡◌,
}
use bash_agent.Protocol.{display_msg_error}

never_both : (a b : Bool) → (a && (b && false)) ≡ false
never_both true true = refl
never_both true false = refl
never_both false b = refl

module _ (f : Double) (cfg : LoopConfig f.D) (out : Outside) where
  after_last :
      (later : LoopState → LoopState × Option ℤ × ℕ) (after : LoopState)
      → after.state.sub_results ≡ []
      → after_round f cfg out later 0 after stopped_here ≡ (after, none, 0)
  unfolding after_round agent_drain_sub_results drain_from
  after_last later after h = rw h refl

  -- Where the round in which the bound is reached is the one in which the model finishes, with
  -- no result of a sub-agent or a task left over: the loop still shows the error that the bound
  -- was reached, and it does not ask the judge of the goal; its result is 0.
  pub last_round_told :
      (st after : LoopState)
      → run_round f cfg out st ≡ (after, stopped_here)
      → after.state.sub_results ≡ []
      → end_turn f cfg out (rounds f cfg out 1 st)
        ≡ some (pos 0, push after (display_msg_error (some (max_turns_reached cfg.max_turns))), [])
  unfolding rounds end_turn
  last_round_told st after e h =
      rw
        (ap (λ r. after_round f cfg out (λ s. rounds f cfg out 0 s) 0 r.0 r.1) e
          ∙ after_last (λ s. rounds f cfg out 0 s) after h)
        (rw (never_both (not (length cfg.goal == 0)) (not after.interrupted)) refl)
