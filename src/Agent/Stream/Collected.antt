-- ===== src/Agent/Stream/Collected.antt =====
-- stream_display_callback beside sse_accum_callback.
use bash_agent.Agent.Events.{Log, push_display_event}
use bash_agent.Agent.Stream.{stream_all}
use bash_agent.Base.{All, Bytes, List, Option, [], ap, codes, none, refl, some, ◌∙◌, ◌∷◌, ◌≡◌, ◌≢◌}
use bash_agent.Protocol.{DisplayMessage, display_msg_error, display_msg_text, display_msg_thinking}
use bash_agent.Transport.Events.{
  Accumulator, Event, accumulate, accumulate_all, failure, or_else, retry, stop, text_delta,
  thinking_delta, tool_call, tool_call_start, tool_input_delta, usage,
}

-- the message that an event shows
abbrev pub shown_of : Event → Option DisplayMessage
shown_of (text_delta s) = some (display_msg_text s)
shown_of (thinking_delta s) = some (display_msg_thinking s)
shown_of (failure s) = some (display_msg_error (some (or_else s (codes "unknown error"))))
shown_of _ = none

-- the messages of a stream pushed and recorded, in order
abbrev pub show_all : Log → List Event → Log
show_all log [] = log
show_all log (e ∷ es) =
    show_all (elim (shown_of e) [ none ↦ log | some m ↦ push_display_event log m ]) es

-- no connection of the stream was tried again
abbrev pub HasNoRetry : List Event → Type 0
HasNoRetry = All (λ e. e ≢ retry)

-- the error that is left: that of the last failure behind the last retry
abbrev pub last_error : Option Bytes → List Event → Option Bytes
last_error e [] = e
last_error e (failure s ∷ es) = last_error (some (or_else s (codes "unknown error"))) es
last_error e (retry ∷ es) = last_error none es
last_error e (_ ∷ es) = last_error e es

abbrev pub with_error : Option Bytes → Accumulator → Accumulator
with_error e acc = record acc { error = e }

stream_all-accumulate :
    (acc : Accumulator) (e : Option Bytes) (log : Log) (es : List Event)
    → stream_all (with_error e acc, log) es
      ≡ (with_error (last_error e es) (accumulate_all acc es), show_all log es)
unfolding stream_all accumulate_all accumulate
stream_all-accumulate acc e log [] = refl
stream_all-accumulate acc e log (text_delta s ∷ es) =
    stream_all-accumulate (accumulate acc (text_delta s)) e
      (push_display_event log (display_msg_text s)) es
stream_all-accumulate acc e log (thinking_delta s ∷ es) =
    stream_all-accumulate (accumulate acc (thinking_delta s)) e
      (push_display_event log (display_msg_thinking s)) es
stream_all-accumulate acc e log (tool_call_start id name ∷ es) =
    stream_all-accumulate (accumulate acc (tool_call_start id name)) e log es
stream_all-accumulate acc e log (tool_input_delta s ∷ es) =
    stream_all-accumulate (accumulate acc (tool_input_delta s)) e log es
stream_all-accumulate acc e log (tool_call id name input ∷ es) =
    stream_all-accumulate (accumulate acc (tool_call id name input)) e log es
stream_all-accumulate acc e log (usage u ∷ es) =
    stream_all-accumulate (accumulate acc (usage u)) e log es
stream_all-accumulate acc e log (stop none ∷ es) =
    stream_all-accumulate (accumulate acc (stop none)) e log es
stream_all-accumulate acc e log (stop (some s) ∷ es) =
    stream_all-accumulate (accumulate acc (stop (some s))) e log es
stream_all-accumulate acc e log (failure s ∷ es) =
    let message = some (or_else s (codes "unknown error")) in
    stream_all-accumulate (accumulate acc (failure s)) message
      (push_display_event log (display_msg_error message)) es
stream_all-accumulate acc e log (retry ∷ es) =
    stream_all-accumulate (accumulate acc retry) none log es

-- without a retry both keep the same error
last_error-accumulate :
    (acc : Accumulator) (es : List Event)
    → HasNoRetry es
    → last_error acc.error es ≡ (accumulate_all acc es).error
unfolding accumulate_all accumulate
last_error-accumulate acc [] h = refl
last_error-accumulate acc (text_delta s ∷ es) (n, h) =
    last_error-accumulate (accumulate acc (text_delta s)) es h
last_error-accumulate acc (thinking_delta s ∷ es) (n, h) =
    last_error-accumulate (accumulate acc (thinking_delta s)) es h
last_error-accumulate acc (tool_call_start id name ∷ es) (n, h) =
    last_error-accumulate (accumulate acc (tool_call_start id name)) es h
last_error-accumulate acc (tool_input_delta s ∷ es) (n, h) =
    last_error-accumulate (accumulate acc (tool_input_delta s)) es h
last_error-accumulate acc (tool_call id name input ∷ es) (n, h) =
    last_error-accumulate (accumulate acc (tool_call id name input)) es h
last_error-accumulate acc (usage u ∷ es) (n, h) =
    last_error-accumulate (accumulate acc (usage u)) es h
last_error-accumulate acc (stop none ∷ es) (n, h) =
    last_error-accumulate (accumulate acc (stop none)) es h
last_error-accumulate acc (stop (some s) ∷ es) (n, h) =
    last_error-accumulate (accumulate acc (stop (some s))) es h
last_error-accumulate acc (failure s ∷ es) (n, h) =
    last_error-accumulate (accumulate acc (failure s)) es h
last_error-accumulate acc (retry ∷ es) (n, h) = absurd (n refl)

-- The callback of the agent collects what sse_accum_callback collects, except for the error,
-- which is that of the last failure behind the last retry; without a retry it collects the same.
-- It pushes and records the texts, the thinking and the errors of the stream, in their order, and
-- nothing else.
pub stream_all_lem :
    (acc : Accumulator) (log : Log) (es : List Event)
    → (stream_all (acc, log) es
        ≡ (with_error (last_error acc.error es) (accumulate_all acc es), show_all log es))
      × (HasNoRetry es → stream_all (acc, log) es ≡ (accumulate_all acc es, show_all log es))
stream_all_lem acc log es =
    let collected = stream_all-accumulate acc acc.error log es in
    (
      collected,
      λ h.
          collected
          ∙ ap (λ e. (with_error e (accumulate_all acc es), show_all log es))
              (last_error-accumulate acc es h),
    )
