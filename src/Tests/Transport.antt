-- ===== src/Tests/Transport.antt =====
-- Runs of the modelled c/transport.c on concrete inputs.
use bash_agent.Base.{Bytes, List, [], arith, codes, none, refl, some, ℕ, ◌++◌, ◌<◌, ◌∷◌, ◌≡◌}
use bash_agent.Store.Conversation.{file_lines}
use bash_agent.Store.Conversation.Lines.{IsComplete, no_lines, whole_line}
use bash_agent.Transport.Claude.{claude_events}
use bash_agent.Transport.Claude.Deltas.{claude_events-delta, delta_data}
use bash_agent.Transport.Events.{Event, retry, stop, text_delta, tool_call_start}
use bash_agent.Transport.Lines.{Parsers, Stream, feed_chunks, on_line}
use bash_agent.Transport.Lines.Fed.{all_chunks, feed_chunks_lem, on_lines}

abbrev some_events : List Event
some_events =
    text_delta (some (codes "lost"))
    ∷ retry
    ∷ text_delta (some (codes "a"))
    ∷ tool_call_start (some (codes "t1")) none
    ∷ stop none
    ∷ []

claude_events-delta_example :
    claude_events (delta_data 0 (codes "say \"hi\"")) 1 2
    ≡ some (text_delta (some (codes "say \"hi\"")) ∷ [])
claude_events-delta_example = claude_events-delta 0 (codes "say \"hi\"") 1 2 (omega arith)

-- parsers that collect the data they are given
abbrev collecting : Parsers (List Bytes)
collecting = record {
  openai = λ s l. s ++ l ∷ [];
  responses = λ s e l. s ++ e ∷ l ∷ [];
  claude = λ s l. s ++ l ∷ [];
}

abbrev open_stream : Stream (List Bytes)
open_stream = record {
  line_buf = record { bytes = []; cap = 256 };
  proto = record { event = none; rest = [] };
}

abbrev two_chunks : List Bytes
two_chunks = codes "data: a\r\nda" ∷ codes "ta:  b\n" ∷ []

two_chunks-IsComplete : IsComplete (all_chunks two_chunks)
two_chunks-IsComplete =
    whole_line (codes "data: a\r") (ground arith)
      (whole_line (codes "data:  b") (ground arith) no_lines)

feed_chunks_example :
    (cap : ℕ) × (0 < cap)
    × (feed_chunks collecting (codes "claude") open_stream two_chunks
        ≡ some (record {
          line_buf = record { bytes = []; cap = cap };
          proto =
              on_lines collecting
                (codes "claude")
                open_stream.proto
                (file_lines (all_chunks two_chunks));
        }))
feed_chunks_example =
    feed_chunks_lem collecting (codes "claude") open_stream two_chunks refl (omega arith)
      two_chunks-IsComplete

lines_handled :
    (on_lines collecting
      (codes "claude")
      open_stream.proto
      (file_lines (all_chunks two_chunks))).rest
    ≡ codes "a" ∷ codes " b" ∷ []
unfolding file_lines on_line
lines_handled = refl
