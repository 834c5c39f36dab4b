-- ===== src/Transport/Events.antt =====
-- c/transport.c: the events of a stream, and the accumulator that collects them. Counts of tokens
-- that are not positive are 0 here; the code only asks whether they are positive.
pub mod Collected
use bash_agent.Base.{
  Bool, Bytes, List, Option, [], codes, false, if◌then◌else◌, ltb, none, some, true, ℕ, ◌++◌, ◌∷◌,
}

-- what an event of the type SSE_USAGE holds
pub record Usage : Type 0 where
  pub in_tokens : ℕ
  pub out_tokens : ℕ
  pub cache_read_tokens : ℕ
  pub cache_creation_tokens : ℕ
  pub start_ms : ℕ
  pub end_ms : ℕ
  pub speed_ready : Bool

-- SseEvent, with the fields that each type uses
pub data Event : Type 0 where
  text_delta : Option Bytes → Event
  thinking_delta : Option Bytes → Event
  tool_call_start : Option Bytes → Option Bytes → Event
  tool_input_delta : Option Bytes → Event
  tool_call : Option Bytes → Option Bytes → Option Bytes → Event
  usage : Usage → Event
  stop : Option Bytes → Event
  failure : Option Bytes → Event
  retry : Event

-- ToolCallAccum
pub record ToolCall : Type 0 where
  pub id : Option Bytes
  pub name : Option Bytes
  pub input_json : Bytes

-- SseAccumulator, without the capacity of the array of tool calls
pub record Accumulator : Type 0 where
  pub content : Bytes
  pub thinking : Bytes
  pub tools : List ToolCall
  pub in_tokens : ℕ
  pub out_tokens : ℕ
  pub cache_read_tokens : ℕ
  pub cache_creation_tokens : ℕ
  pub start_ms : ℕ
  pub end_ms : ℕ
  pub speed_ready : Bool
  pub stopped : Bool
  pub stop_reason : Option Bytes
  pub error : Option Bytes

-- sse_accum_init
abbrev pub accum_init : Accumulator
accum_init = record {
  content = [];
  thinking = [];
  tools = [];
  in_tokens = 0;
  out_tokens = 0;
  cache_read_tokens = 0;
  cache_creation_tokens = 0;
  start_ms = 0;
  end_ms = 0;
  speed_ready = false;
  stopped = false;
  stop_reason = none;
  error = none;
}

-- sb_append on the bytes of a buffer
abbrev pub added : Bytes → Option Bytes → Bytes
added s none = s
added s (some t) = s ++ t

-- s ? s : other
abbrev pub or_else : Option Bytes → Bytes → Bytes
or_else none other = other
or_else (some s) other = s

-- the text goes to the last tool call, if there is one
abbrev pub add_input : List ToolCall → Bytes → List ToolCall
add_input [] s = []
add_input (t ∷ []) s = record t { input_json = t.input_json ++ s } ∷ []
add_input (t ∷ u ∷ ts) s = t ∷ add_input (u ∷ ts) s

abbrev pub input_delta : List ToolCall → Option Bytes → List ToolCall
input_delta ts none = ts
input_delta ts (some s) = add_input ts s

-- if (n > 0) old = n
abbrev pub if_positive : ℕ → ℕ → ℕ
if_positive n old = if ltb 0 n then n else old

-- sse_accum_callback
unfoldable pub accumulate : Accumulator → Event → Accumulator
accumulate acc (text_delta s) = record acc { content = added acc.content s }
accumulate acc (thinking_delta s) = record acc { thinking = added acc.thinking s }
accumulate acc (tool_call_start id name) = record acc {
  tools = acc.tools ++ record { id = id; name = name; input_json = [] } ∷ [];
}
accumulate acc (tool_input_delta s) = record acc { tools = input_delta acc.tools s }
accumulate acc (tool_call id name input) = record acc {
  tools =
      acc.tools
      ++ record {
        id = some (or_else id []);
        name = some (or_else name []);
        input_json = or_else input (codes "{}");
      }
        ∷ [];
}
accumulate acc (usage u) = record acc {
  in_tokens = if_positive u.in_tokens acc.in_tokens;
  out_tokens = if_positive u.out_tokens acc.out_tokens;
  cache_read_tokens = if_positive u.cache_read_tokens acc.cache_read_tokens;
  cache_creation_tokens = if_positive u.cache_creation_tokens acc.cache_creation_tokens;
  start_ms = u.start_ms;
  end_ms = u.end_ms;
  speed_ready = u.speed_ready;
}
accumulate acc (stop none) = record acc { stopped = true }
accumulate acc (stop (some s)) = record acc { stopped = true; stop_reason = some s }
accumulate acc (failure s) = record acc { error = some (or_else s (codes "unknown error")) }
accumulate acc retry = record acc {
  content = [];
  thinking = [];
  tools = [];
  stopped = false;
  speed_ready = false;
  stop_reason = none;
  in_tokens = 0;
  out_tokens = 0;
  cache_read_tokens = 0;
  cache_creation_tokens = 0;
}

-- the calls of the callback, one after the other
unfoldable pub accumulate_all : Accumulator → List Event → Accumulator
unfolding accumulate
accumulate_all acc [] = acc
accumulate_all acc (e ∷ es) = accumulate_all (accumulate acc e) es
