-- ===== src/Tests/Queue.antt =====
-- Runs of the modelled c/msgqueue.c on concrete inputs.
use bash_agent.Base.{List, [], false, none, refl, some, suc, true, zero, ℕ, ◌∷◌, ◌≡◌}
use bash_agent.Queue.{Queue, mq_count, mq_init, mq_pop, mq_push, mq_try_pop}
use bash_agent.Queue.Refined.{PopEnds, Refines, mq_init-Refines, queue_lem}

abbrev new_queue : Queue ℕ
new_queue = mq_init

queue_lem_example :
    (false ≡ false
      → ((mq_push new_queue 5 7).0 ≡ true) × Refines (mq_push new_queue 5 7).1 (7 ∷ []))
    × (false ≡ true → mq_push new_queue 5 7 ≡ (false, new_queue))
    × PopEnds [] (mq_try_pop new_queue)
    × PopEnds [] (mq_pop new_queue)
    × (mq_count new_queue ≡ 0)
queue_lem_example = queue_lem new_queue [] 5 7 mq_init-Refines refl

abbrev two_messages : Queue ℕ
two_messages = (mq_push (mq_push new_queue 5 7).1 9 8).1

-- the messages that a queue gives one after the other
abbrev drained : ℕ → Queue ℕ → List ℕ
drained zero q = []
drained (suc n) q = elim (mq_try_pop q) [ none ↦ [] | some (x, after) ↦ x ∷ drained n after ]

drained_in_order : drained 3 two_messages ≡ 7 ∷ 8 ∷ []
unfolding mq_push mq_try_pop
drained_in_order = refl
