-- ===== src/Queue.antt =====
-- c/msgqueue.c: the message queue, on a heap of nodes. Each operation runs under the mutex of the
-- queue, so that it is one step; a step that waits is one that is not taken yet.
pub mod Refined
use bash_agent.Base.{
  Bool, Option, false, if◌then◌else◌, is_some, none, some, true, ℕ, ◌+◌, ◌-◌, ◌==◌, ◌||◌,
}

-- MQNode; addresses are numbers
pub record Node (A : Type 0) : Type 0 where
  pub message : A
  pub next : Option ℕ

-- MsgQueue, and the nodes that are allocated
pub record Queue (A : Type 0) : Type 0 where
  pub head : Option ℕ
  pub tail : Option ℕ
  pub count : ℕ
  pub closed : Bool
  pub heap : ℕ → Option (Node A)

-- the heap with the node at `p` changed
abbrev pub set {ℓ} : {A : Type ℓ} → (ℕ → Option A) → ℕ → Option A → ℕ → Option A
set h p n q = if q == p then n else h q

-- q->tail->next = node, where there is a tail
abbrev pub link_node : {A : Type 0} → Option (Node A) → ℕ → Option (Node A)
link_node none p = none
link_node (some n) p = some (record n { next = some p })

module _ {A : Type 0} where
  -- mq_init, on a heap without nodes
  abbrev pub mq_init : Queue A
  mq_init = record { head = none; tail = none; count = 0; closed = false; heap = λ p. none }

  -- mq_close
  unfoldable pub mq_close : Queue A → Queue A
  mq_close q = record q { closed = true }

  -- the list behind the test of `closed`, with the new node at `p` in the heap
  unfoldable pub append_node : Option ℕ → Queue A → ℕ → Queue A
  append_node none q p = record q { head = some p; tail = some p; count = q.count + 1 }
  append_node (some t) q p = record q {
    heap = set q.heap t (link_node (q.heap t) p);
    tail = some p;
    count = q.count + 1;
  }

  -- mq_push with the address that malloc gives; the flag is a return of 0. A closed queue frees the
  -- new node again.
  unfoldable pub mq_push : Queue A → ℕ → A → Bool × Queue A
  unfolding append_node
  mq_push q p a =
      let filled : Queue A = record q {
        heap = set q.heap p (some (record { message = a; next = none }));
      } in
      if q.closed then (false, q) else (true, append_node q.tail filled p)

  -- what mq_pop and mq_try_pop do at a head: the message, and the queue without its node
  unfoldable pub take_node : Queue A → ℕ → Option (Node A) → Option (A × Queue A)
  take_node q p none = none
  take_node q p (some n) = some (
    n.message,
    record q {
      head = n.next;
      tail = if is_some n.next then q.tail else none;
      count = q.count - 1;
      heap = set q.heap p none;
    },
  )

  unfoldable pub pop_at : Queue A → Option ℕ → Option (A × Queue A)
  unfolding take_node
  pop_at q none = none
  pop_at q (some p) = take_node q p (q.heap p)

  -- mq_try_pop; `none` is a return of -1
  unfoldable pub mq_try_pop : Queue A → Option (A × Queue A)
  unfolding pop_at
  mq_try_pop q = pop_at q q.head

  -- mq_pop, once it does not wait: there is a head, or the queue is closed
  unfoldable pub may_pop : Queue A → Bool
  may_pop q = is_some q.head || q.closed

  unfoldable pub mq_pop : Queue A → Option (A × Queue A)
  unfolding pop_at
  mq_pop q = pop_at q q.head

  -- mq_count
  abbrev pub mq_count : Queue A → ℕ
  mq_count q = q.count
