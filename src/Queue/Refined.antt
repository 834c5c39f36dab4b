-- ===== src/Queue/Refined.antt =====
-- The queue of c/msgqueue.c is a first-in, first-out list of messages.
use mathlib.Core.Path.{subst}
use bash_agent.Base.{
  ==_refl, All, Bool, Bool-cases, List, Option, [], ap, arith, false, if◌then◌else◌, inl, inr,
  is_some, length, length-append, next, none, refl, some, sym, true, ℕ, ◌++◌, ◌+◌, ◌-◌, ◌==◌, ◌∙◌,
  ◌∷◌, ◌≡◌,
}
use bash_agent.Queue.{
  Node, Queue, append_node, link_node, mq_count, mq_init, mq_pop, mq_push, mq_try_pop, pop_at, set,
  take_node,
}

abbrev NotIn : ℕ → List ℕ → Type 0
NotIn p ps = All (λ q. (q == p) ≡ false) ps

some_injective : {a b : ℕ} → some a ≡ some b → a ≡ b
some_injective e = cc

NotIn-append : (p n : ℕ) (ps : List ℕ) → NotIn p ps → (n == p) ≡ false → NotIn p (ps ++ n ∷ [])
NotIn-append p n [] h e = (e, tt)
NotIn-append p n (q ∷ ps) (d, h) e = (d, NotIn-append p n ps h e)

differ : (p q : ℕ) → (p == q) ≡ false → (q == p) ≡ false
differ p q h = ground arith

if-false {ℓ} : {B : Type ℓ} (b : Bool) (x y : B) → b ≡ false → y ≡ (if b then x else y)
if-false b x y h = rw h refl

if-true {ℓ} : {B : Type ℓ} (b : Bool) (x y : B) → b ≡ true → (if b then x else y) ≡ x
if-true b x y h = rw h refl

module _ {A : Type 0} where
  -- The nodes from `p` to the tail stand at the addresses `ps`, which differ, and hold `xs`.
  data Chain (h : ℕ → Option (Node A)) (tail : Option ℕ) : ℕ → List ℕ → List A → Type 0 where
    last_node :
        {p : ℕ} {x : A}
        → h p ≡ some (record { message = x; next = none })
        → tail ≡ some p
        → Chain h tail p (p ∷ []) (x ∷ [])
    link_to :
        {p q : ℕ} {x : A} {ps : List ℕ} {xs : List A}
        → h p ≡ some (record { message = x; next = some q })
        → NotIn p ps
        → Chain h tail q ps xs
        → Chain h tail p (p ∷ ps) (x ∷ xs)

  -- the list of messages of a queue
  data Lists (q : Queue A) : List A → Type 0 where
    empty : q.head ≡ none → q.tail ≡ none → Lists q []
    filled :
        {p : ℕ} {ps : List ℕ} {xs : List A}
        → q.head ≡ some p
        → Chain q.heap q.tail p ps xs
        → Lists q xs

  pub record Refines (q : Queue A) (xs : List A) : Type 0 where
    lists : Lists q xs
    count : q.count ≡ length xs

  set-other :
      (h : ℕ → Option (Node A)) (p q : ℕ) (n : Option (Node A))
      → (q == p) ≡ false
      → set h p n q ≡ h q
  set-other h p q n e = rw e refl

  set-same : (h : ℕ → Option (Node A)) (p : ℕ) (n : Option (Node A)) → set h p n p ≡ n
  set-same h p n = rw (==_refl p) refl

  -- a change at an address that is not in the chain
  Chain-set :
      {h : ℕ → Option (Node A)} {tail : Option ℕ} {q : ℕ} {ps : List ℕ} {xs : List A} (p : ℕ)
      (n : Option (Node A))
      → Chain h tail q ps xs
      → NotIn p ps
      → Chain (set h p n) tail q ps xs
  Chain-set {h} p n (last_node {p = q} a t) (e, d) = last_node (set-other h p q n e ∙ a) t
  Chain-set {h} p n (link_to {p = q} a f c) (e, d) =
      link_to (set-other h p q n e ∙ a) f (Chain-set p n c d)

  apart :
      (h : ℕ → Option (Node A)) (p q : ℕ) {n : Node A}
      → h p ≡ none
      → h q ≡ some n
      → (q == p) ≡ false
  apart h p q {n} e a = elim (Bool-cases (q == p)) [
    | inr d ↦ d
    | inl d ↦
        let same : q ≡ p = ground arith in
        let clash : none ≡ some n = sym e ∙ ap h (sym same) ∙ a in absurd cc
  ]

  -- an address without a node is not in the chain
  fresh-NotIn :
      {h : ℕ → Option (Node A)} {tail : Option ℕ} {q : ℕ} {ps : List ℕ} {xs : List A} (p : ℕ)
      → h p ≡ none
      → Chain h tail q ps xs
      → NotIn p ps
  fresh-NotIn {h} p e (last_node {p = q} a t) = (apart h p q e a, tt)
  fresh-NotIn {h} p e (link_to {p = q} a f c) = (apart h p q e a, fresh-NotIn p e c)

  -- the tail is in the chain
  tail-apart :
      {h : ℕ → Option (Node A)} {tail : Option ℕ} {q : ℕ} {ps : List ℕ} {xs : List A} (t p : ℕ)
      → tail ≡ some t
      → Chain h tail q ps xs
      → NotIn p ps
      → (t == p) ≡ false
  tail-apart t p e (last_node {p = q} a same) (d, u) =
      let clash : some t ≡ some q = sym e ∙ same in ap (λ x. x == p) (some_injective clash) ∙ d
  tail-apart t p e (link_to a f c) (d, u) = tail-apart t p e c u

  tail-some :
      {h : ℕ → Option (Node A)} {tail : Option ℕ} {q : ℕ} {ps : List ℕ} {xs : List A}
      → Chain h tail q ps xs
      → (t : ℕ) × (tail ≡ some t)
  tail-some (last_node {p = q} a same) = (q, same)
  tail-some (link_to a f c) = tail-some c

  -- the heap behind mq_push at the address `n`, where `t` is the tail
  abbrev pushed_heap : (ℕ → Option (Node A)) → ℕ → ℕ → A → ℕ → Option (Node A)
  pushed_heap h t n a =
      let filled = set h n (some (record { message = a; next = none })) in
      set filled t (link_node (filled t) n)

  Chain-push :
      {h : ℕ → Option (Node A)} {tail : Option ℕ} {p : ℕ} {ps : List ℕ} {xs : List A} (t n : ℕ)
      (a : A)
      → tail ≡ some t
      → (t == n) ≡ false
      → Chain h tail p ps xs
      → NotIn n ps
      → Chain (pushed_heap h t n a) (some n) p (ps ++ n ∷ []) (xs ++ a ∷ [])
  Chain-push {h} t n a e d (last_node {p = p} {x} c same) (f, u) =
      let filled = set h n (some (record { message = a; next = none })) in
      let tail_cell = link_node (filled t) n in
      let here : t ≡ p = some_injective (sym e ∙ same) in
      let cell = set-other h n t (some (record { message = a; next = none })) d ∙ ap h here ∙ c in
      link_to {p = p} {q = n}
        (ap (pushed_heap h t n a) (sym here)
          ∙ set-same filled t tail_cell
          ∙ ap (λ o. link_node o n) cell)
        (differ p n f, tt)
        (last_node
          (set-other filled t n tail_cell (differ t n d)
            ∙ set-same h n (some (record { message = a; next = none })))
          refl)
  Chain-push {h} t n a e d (link_to {p = p} {q} c g r) (f, u) =
      let filled = set h n (some (record { message = a; next = none })) in
      let tail_cell = link_node (filled t) n in
      let other = differ t p (tail-apart t p e r g) in
      link_to {p = p} {q = q}
        (set-other filled t p tail_cell other
          ∙ set-other h n p (some (record { message = a; next = none })) f
          ∙ c)
        (NotIn-append p n _ g (differ p n f)) (Chain-push t n a e d r u)

  Lists-pushed :
      (q : Queue A) {xs : List A} (n : ℕ) (a : A)
      → q.heap n ≡ none
      → Lists q xs
      → let filled : Queue A = record q {
        heap = set q.heap n (some (record { message = a; next = none }));
      } in
        Lists (append_node q.tail filled n) (xs ++ a ∷ [])
  unfolding append_node
  Lists-pushed q n a fresh (empty h t) = rw t (
      filled refl (last_node (set-same q.heap n (some (record { message = a; next = none }))) refl))
  Lists-pushed q n a fresh (filled {p} h c) =
      let (t, e) = tail-some c in
      let unused = fresh-NotIn n fresh c in
      rw e (filled h (Chain-push t n a e (tail-apart t n e c unused) c unused))

  append_node-count : (o : Option ℕ) (q : Queue A) (p : ℕ) → (append_node o q p).count ≡ q.count + 1
  unfolding append_node
  append_node-count none q p = refl
  append_node-count (some t) q p = refl

  -- what a pop gives: nothing, or the first message and a queue of the others
  abbrev pub PopEnds : List A → Option (A × Queue A) → Type 0
  PopEnds [] o = o ≡ none
  PopEnds (x ∷ xs) o = (after : Queue A) × (o ≡ some (x, after)) × Refines after xs

  -- the queue without its first node
  abbrev popped : Queue A → ℕ → Option ℕ → Queue A
  popped q p next = record q {
    head = next;
    tail = if is_some next then q.tail else none;
    count = q.count - 1;
    heap = set q.heap p none;
  }

  pop_at-head :
      (q : Queue A) (p : ℕ) (x : A) (next : Option ℕ)
      → q.head ≡ some p
      → q.heap p ≡ some (record { message = x; next = next })
      → mq_try_pop q ≡ some (x, popped q p next)
  unfolding mq_try_pop pop_at take_node
  pop_at-head q p x next h c = ap (pop_at q) h ∙ ap (take_node q p) c

  Lists-PopEnds :
      (q : Queue A) (xs : List A) → q.count ≡ length xs → Lists q xs → PopEnds xs (mq_try_pop q)
  unfolding mq_try_pop pop_at
  Lists-PopEnds q xs n (empty h t) = ap (pop_at q) h
  Lists-PopEnds q xs n (filled {p} h (last_node {x} c t)) = (
    popped q p none,
    pop_at-head q p x none h c,
    record { lists = empty refl refl; count = omega arith },
  )
  Lists-PopEnds q xs n (filled {p} h (link_to {q = next} {x} c f r)) = (
    popped q p (some next),
    pop_at-head q p x (some next) h c,
    record { lists = filled refl (Chain-set p none r f); count = omega arith },
  )

  -- The queue is a list of messages. mq_push on an open queue, with an address that malloc gives and
  -- that is not in use, adds the message at the end; a closed queue refuses it and stays as it is.
  -- mq_try_pop, and mq_pop where it does not wait, give the first message and leave the others, and
  -- fail exactly where there is none. The count is the number of messages.
  pub queue_lem :
      (q : Queue A) (xs : List A) (n : ℕ) (a : A)
      → Refines q xs
      → q.heap n ≡ none
      → (q.closed ≡ false → ((mq_push q n a).0 ≡ true) × Refines (mq_push q n a).1 (xs ++ a ∷ []))
        × (q.closed ≡ true → mq_push q n a ≡ (false, q))
        × PopEnds xs (mq_try_pop q)
        × PopEnds xs (mq_pop q)
        × (mq_count q ≡ length xs)
  unfolding mq_push mq_pop mq_try_pop
  queue_lem q xs n a r fresh =
      let filled_queue : Queue A = record q {
        heap = set q.heap n (some (record { message = a; next = none }));
      } in
      let ends = Lists-PopEnds q xs r.count r.lists in
      (
        λ h.
            subst (λ (r : Bool × Queue A). (r.0 ≡ true) × Refines r.1 (xs ++ a ∷ []))
              (if-false q.closed (false, q) (true, append_node q.tail filled_queue n) h)
              (
                refl,
                record {
                  lists = Lists-pushed q n a fresh r.lists;
                  count = omega (
                    arith,
                    append_node-count q.tail filled_queue n,
                    length-append xs (a ∷ []),
                    r.count,
                  );
                },
              ),
        λ h. if-true q.closed (false, q) (true, append_node q.tail filled_queue n) h,
        ends,
        ends,
        r.count,
      )

  -- A new queue is the empty list.
  pub mq_init-Refines : Refines (mq_init {A = A}) []
  mq_init-Refines = record { lists = empty refl refl; count = refl }
