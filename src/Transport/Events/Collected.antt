-- ===== src/Transport/Events/Collected.antt =====
-- What the accumulator of c/transport.c holds behind a stream.
use bash_agent.Base.{
  Bool, Bool-cases, Bytes, List, [], ap, append-nil, append_assoc, arith, codes, false,
  if◌then◌else◌, inl, inr, length, length-append, none, refl, some, suc, sym, true, ℕ, ◌++◌, ◌+◌,
  ◌||◌, ◌∙◌, ◌∷◌, ◌≡◌,
}
use bash_agent.Transport.Events.{
  Accumulator, Event, ToolCall, accum_init, accumulate, accumulate_all, add_input, failure, or_else,
  retry, stop, text_delta, thinking_delta, tool_call, tool_call_start, tool_input_delta, usage,
}

abbrev pub is_retry : Event → Bool
is_retry retry = true
is_retry _ = false

abbrev pub has_retry : List Event → Bool
has_retry [] = false
has_retry (e ∷ es) = is_retry e || has_retry es

-- the events behind the last retry
abbrev pub since_retry : List Event → List Event
since_retry [] = []
since_retry (e ∷ es) = if has_retry es then since_retry es else (if is_retry e then es else e ∷ es)

-- what one event adds to the text
abbrev pub text_part : Event → Bytes
text_part (text_delta (some s)) = s
text_part _ = []

abbrev pub thinking_part : Event → Bytes
thinking_part (thinking_delta (some s)) = s
thinking_part _ = []

abbrev pub all_parts : (Event → Bytes) → List Event → Bytes
all_parts part [] = []
all_parts part (e ∷ es) = part e ++ all_parts part es

-- the number of tool calls that are begun
abbrev pub starts_tool : Event → ℕ
starts_tool (tool_call_start id name) = 1
starts_tool (tool_call id name input) = 1
starts_tool _ = 0

abbrev pub tool_starts : List Event → ℕ
tool_starts [] = 0
tool_starts (e ∷ es) = starts_tool e + tool_starts es

abbrev pub is_stop : Event → Bool
is_stop (stop s) = true
is_stop _ = false

abbrev pub has_stop : List Event → Bool
has_stop [] = false
has_stop (e ∷ es) = is_stop e || has_stop es

-- one event that is no retry
record Adds (acc : Accumulator) (e : Event) (after : Accumulator) : Type 0 where
  content : after.content ≡ acc.content ++ text_part e
  thinking : after.thinking ≡ acc.thinking ++ thinking_part e
  tools : length after.tools ≡ length acc.tools + starts_tool e
  stopped : after.stopped ≡ (acc.stopped || is_stop e)

length-add_input : (ts : List ToolCall) (s : Bytes) → length (add_input ts s) ≡ length ts
length-add_input [] s = refl
length-add_input (t ∷ []) s = refl
length-add_input (t ∷ u ∷ ts) s = ap suc (length-add_input (u ∷ ts) s)

or-false : (b : Bool) → b ≡ (b || false)
or-false true = refl
or-false false = refl

or-true : (b : Bool) → true ≡ (b || true)
or-true true = refl
or-true false = refl

accumulate-Adds :
    (acc : Accumulator) (e : Event) → is_retry e ≡ false → Adds acc e (accumulate acc e)
unfolding accumulate
accumulate-Adds acc (text_delta none) h = record {
  content = sym (append-nil acc.content);
  thinking = sym (append-nil acc.thinking);
  tools = omega arith;
  stopped = or-false acc.stopped;
}
accumulate-Adds acc (text_delta (some s)) h = record {
  content = refl;
  thinking = sym (append-nil acc.thinking);
  tools = omega arith;
  stopped = or-false acc.stopped;
}
accumulate-Adds acc (thinking_delta none) h = record {
  content = sym (append-nil acc.content);
  thinking = sym (append-nil acc.thinking);
  tools = omega arith;
  stopped = or-false acc.stopped;
}
accumulate-Adds acc (thinking_delta (some s)) h = record {
  content = sym (append-nil acc.content);
  thinking = refl;
  tools = omega arith;
  stopped = or-false acc.stopped;
}
accumulate-Adds acc (tool_call_start id name) h = record {
  content = sym (append-nil acc.content);
  thinking = sym (append-nil acc.thinking);
  tools = length-append acc.tools (record { id = id; name = name; input_json = [] } ∷ []);
  stopped = or-false acc.stopped;
}
accumulate-Adds acc (tool_input_delta none) h = record {
  content = sym (append-nil acc.content);
  thinking = sym (append-nil acc.thinking);
  tools = omega arith;
  stopped = or-false acc.stopped;
}
accumulate-Adds acc (tool_input_delta (some s)) h = record {
  content = sym (append-nil acc.content);
  thinking = sym (append-nil acc.thinking);
  tools = omega (arith, length-add_input acc.tools s);
  stopped = or-false acc.stopped;
}
accumulate-Adds acc (tool_call id name input) h = record {
  content = sym (append-nil acc.content);
  thinking = sym (append-nil acc.thinking);
  tools = length-append acc.tools (
      record {
        id = some (or_else id []);
        name = some (or_else name []);
        input_json = or_else input (codes "{}");
      }
      ∷ []);
  stopped = or-false acc.stopped;
}
accumulate-Adds acc (usage u) h = record {
  content = sym (append-nil acc.content);
  thinking = sym (append-nil acc.thinking);
  tools = omega arith;
  stopped = or-false acc.stopped;
}
accumulate-Adds acc (stop none) h = record {
  content = sym (append-nil acc.content);
  thinking = sym (append-nil acc.thinking);
  tools = omega arith;
  stopped = or-true acc.stopped;
}
accumulate-Adds acc (stop (some s)) h = record {
  content = sym (append-nil acc.content);
  thinking = sym (append-nil acc.thinking);
  tools = omega arith;
  stopped = or-true acc.stopped;
}
accumulate-Adds acc (failure s) h = record {
  content = sym (append-nil acc.content);
  thinking = sym (append-nil acc.thinking);
  tools = omega arith;
  stopped = or-false acc.stopped;
}
accumulate-Adds acc retry h = absurd cc

or-none : (a b : Bool) → (a || b) ≡ false → (a ≡ false) × (b ≡ false)
or-none a b h = ground arith

or-first : (a b : Bool) → (a || b) ≡ true → b ≡ false → a ≡ true
or-first a b h k = ground arith

-- several events of which none is a retry
record AddsAll (acc : Accumulator) (es : List Event) (after : Accumulator) : Type 0 where
  content : after.content ≡ acc.content ++ all_parts text_part es
  thinking : after.thinking ≡ acc.thinking ++ all_parts thinking_part es
  tools : length after.tools ≡ length acc.tools + tool_starts es
  stopped : after.stopped ≡ (acc.stopped || has_stop es)

or_assoc : (a b c : Bool) → ((a || b) || c) ≡ (a || (b || c))
or_assoc true b c = refl
or_assoc false b c = refl

AddsAll-cons :
    {acc mid after : Accumulator} (e : Event) (es : List Event)
    → Adds acc e mid
    → AddsAll mid es after
    → AddsAll acc (e ∷ es) after
AddsAll-cons {acc} e es h k = record {
  content =
      k.content
      ∙ ap (λ x. x ++ all_parts text_part es) h.content
      ∙ append_assoc acc.content (text_part e) (all_parts text_part es);
  thinking =
      k.thinking
      ∙ ap (λ x. x ++ all_parts thinking_part es) h.thinking
      ∙ append_assoc acc.thinking (thinking_part e) (all_parts thinking_part es);
  tools = omega (arith, h.tools, k.tools);
  stopped =
      k.stopped
      ∙ ap (λ x. x || has_stop es) h.stopped
      ∙ or_assoc acc.stopped (is_stop e) (has_stop es);
}

accumulate_all-AddsAll :
    (acc : Accumulator) (es : List Event)
    → has_retry es ≡ false
    → AddsAll acc es (accumulate_all acc es)
unfolding accumulate_all
accumulate_all-AddsAll acc [] h = record {
  content = sym (append-nil acc.content);
  thinking = sym (append-nil acc.thinking);
  tools = omega arith;
  stopped = or-false acc.stopped;
}
accumulate_all-AddsAll acc (e ∷ es) h =
    let (no_retry, none_later) = or-none (is_retry e) (has_retry es) h in
    AddsAll-cons e es (accumulate-Adds acc e no_retry)
      (accumulate_all-AddsAll (accumulate acc e) es none_later)

-- What an accumulator holds of a list of events.
pub record Holds (es : List Event) (acc : Accumulator) : Type 0 where
  pub content : acc.content ≡ all_parts text_part es
  pub thinking : acc.thinking ≡ all_parts thinking_part es
  pub tools : length acc.tools ≡ tool_starts es
  pub stopped : acc.stopped ≡ has_stop es

Holds-AddsAll :
    {acc after : Accumulator} (es : List Event)
    → acc.content ≡ []
    → acc.thinking ≡ []
    → acc.tools ≡ []
    → acc.stopped ≡ false
    → AddsAll acc es after
    → Holds es after
Holds-AddsAll es c t u s h = record {
  content = h.content ∙ ap (λ x. x ++ all_parts text_part es) c;
  thinking = h.thinking ∙ ap (λ x. x ++ all_parts thinking_part es) t;
  tools = omega (arith, h.tools, ap (length {A = ToolCall}) u);
  stopped = h.stopped ∙ ap (λ x. x || has_stop es) s;
}

behind_retry :
    (acc : Accumulator) (e : Event) (es : List Event)
    → is_retry e ≡ true
    → has_retry es ≡ false
    → Holds (if is_retry e then es else e ∷ es) (accumulate_all (accumulate acc e) es)
unfolding accumulate
behind_retry acc retry es h none_later =
    Holds-AddsAll es refl refl refl refl
      (accumulate_all-AddsAll (accumulate acc retry) es none_later)
behind_retry acc (text_delta s) es h none_later = absurd cc
behind_retry acc (thinking_delta s) es h none_later = absurd cc
behind_retry acc (tool_call_start id name) es h none_later = absurd cc
behind_retry acc (tool_input_delta s) es h none_later = absurd cc
behind_retry acc (tool_call id name input) es h none_later = absurd cc
behind_retry acc (usage u) es h none_later = absurd cc
behind_retry acc (stop s) es h none_later = absurd cc
behind_retry acc (failure s) es h none_later = absurd cc

since_retry-never : (es : List Event) → has_retry es ≡ false → since_retry es ≡ es
since_retry-never [] h = refl
since_retry-never (e ∷ es) h =
    let (first, later) = or-none (is_retry e) (has_retry es) h in rw (later, first) refl

accumulate_all-retry :
    (acc : Accumulator) (es : List Event)
    → has_retry es ≡ true
    → Holds (since_retry es) (accumulate_all acc es)
unfolding accumulate_all
accumulate_all-retry acc [] h = absurd cc
accumulate_all-retry acc (e ∷ es) h = elim (Bool-cases (has_retry es)) [
  | inl later ↦ rw later (accumulate_all-retry (accumulate acc e) es later)
  | inr last ↦ rw last (behind_retry acc e es (or-first (is_retry e) (has_retry es) h last) last)
]

-- Behind any stream the accumulator holds the text, the thinking and the tool calls of the events
-- since the last retry, in their order and nothing else, and it is stopped exactly if one of
-- those events is a stop.
pub accumulate_all_lem : (es : List Event) → Holds (since_retry es) (accumulate_all accum_init es)
accumulate_all_lem es = elim (Bool-cases (has_retry es)) [
  | inl later ↦ accumulate_all-retry accum_init es later
  | inr never ↦
      rw (since_retry-never es never)
        (Holds-AddsAll es refl refl refl refl (accumulate_all-AddsAll accum_init es never))
]
