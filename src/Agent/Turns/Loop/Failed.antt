-- ===== src/Agent/Turns/Loop/Failed.antt =====
-- agent_loop: what a failed request leaves.
use bash_agent.Agent.Turns.{Ending, LoopState, push, returned}
use bash_agent.Base.{codes, false, is_some, negsuc, pos, some, true, ℤ, ◌≡◌, ◌≢◌, ◌⊎◌}
use bash_agent.Json.Query.{result}
use bash_agent.Protocol.{display_msg_error, display_msg_stop}
use bash_agent.Transport.Events.{Accumulator, or_else}

-- a request that failed, or whose stream told an error
abbrev pub HasFailed : ℤ → Accumulator → Type 0
HasFailed rc acc = (rc ≢ pos 0) ⊎ (is_some acc.error ≡ true)

-- the state without what is shown and recorded in events.jsonl
abbrev pub IsSameButLog : LoopState → LoopState → Type 0
IsSameButLog before after =
    (after.state.conversation ≡ before.state.conversation)
    × (after.state.world ≡ before.state.world)
    × (after.archive ≡ before.archive)
    × (after.state.sub_results ≡ before.state.sub_results)

-- what checked_answer makes of a failure
abbrev pub FailsWith : LoopState → ℤ → Accumulator → LoopState × Ending → Type 0
FailsWith st rc acc result =
    IsSameButLog st result.0
    × (((rc ≢ pos 0)
          × (st.interrupted ≡ true)
          × (result ≡ (push st (display_msg_stop (some (codes "interrupted"))), returned (pos 0))))
        ⊎ (((rc ≡ pos 0) ⊎ (st.interrupted ≡ false))
            × (result ≡ (
              push
                  (push st
                    (display_msg_error (some (or_else acc.error (codes "HTTP request failed")))))
                  (display_msg_stop (some (codes "error"))),
              returned (negsuc 0),
            ))))
