-- ===== src/Transport/Lines.antt =====
-- c/transport.c: stream_cb, which cuts the body of a response into lines and passes the data of an
-- event on to the parser of the provider. The three parsers are parameters here, functions on the
-- rest of the state of the stream. The flag that cancels a stream is read once for each call.
pub mod Fed
use bash_agent.Base.{
  Bool, Bytes, List, Option, [], c_string, codes, drop, if◌then◌else◌, length, none, some,
  starts_with, str_eq, ℕ, ◌&&◌, ◌==◌, ◌∷◌,
}
use bash_agent.Tools.Files.{given}
use bash_agent.Util.Buffer.{StrBuf, sb_append_char, sb_truncate}

-- the parsers of the three protocols
pub record Parsers (S : Type 0) : Type 0 where
  pub openai : S → Bytes → S
  pub responses : S → Bytes → Bytes → S
  pub claude : S → Bytes → S

-- the fields `event` and the rest of StreamCtx
pub record Proto (S : Type 0) : Type 0 where
  pub event : Option Bytes
  pub rest : S

-- StreamCtx: a buffer with the capacity 0 has no data
pub record Stream (S : Type 0) : Type 0 where
  pub line_buf : StrBuf
  pub proto : Proto S

-- a carriage return at the end of a line is dropped
abbrev pub drop_return : Bytes → Bytes
drop_return [] = []
drop_return (c ∷ []) = if c == b'\r' then [] else c ∷ []
drop_return (c ∷ d ∷ s) = c ∷ drop_return (d ∷ s)

-- while (*data == ' ') data++
abbrev pub skip_blanks : Bytes → Bytes
skip_blanks [] = []
skip_blanks (c ∷ s) = if c == b' ' then skip_blanks s else c ∷ s

-- go on where there was no strlen(NULL)
abbrev pub and_then {ℓ} : {A B : Type ℓ} → Option A → (A → Option B) → Option B
and_then none go = none
and_then (some a) go = go a

module _ {S : Type 0} (parsers : Parsers S) (provider : Bytes) where
  -- the data of an event goes to the parser of the provider
  unfoldable pub on_data : Proto S → Bytes → Proto S
  on_data p s = record p {
    rest =
        if str_eq provider (codes "openai")
        then parsers.openai p.rest s
        else if str_eq provider (codes "responses")
        then parsers.responses p.rest (given p.event) s
        else parsers.claude p.rest s;
  }

  -- a complete line, as a C string
  unfoldable pub on_line : Proto S → Bytes → Proto S
  unfolding on_data
  on_line p bytes =
      let line = drop_return (c_string bytes) in
      if starts_with line (codes "event: ") && str_eq provider (codes "responses")
      then record p { event = some (drop 7 line) }
      else if starts_with line (codes "data: ")
      then on_data p (drop 6 line)
      else if starts_with line (codes "data:")
      then on_data p (skip_blanks (drop 5 line))
      else p

  -- one byte; `none` is strlen(NULL)
  unfoldable pub on_byte : Stream S → ℕ → Option (Stream S)
  unfolding on_line sb_append_char sb_truncate
  on_byte st c =
      let handled : Stream S = record {
        line_buf = sb_truncate st.line_buf 0;
        proto = on_line st.proto st.line_buf.bytes;
      } in
      if c == b'\n'
      then (if st.line_buf.cap == 0 then none else some handled)
      else some (record st { line_buf = sb_append_char st.line_buf c })

  -- the loop of stream_cb
  unfoldable pub feed : Stream S → Bytes → Option (Stream S)
  unfolding on_byte
  feed st [] = some st
  feed st (c ∷ s) = and_then (on_byte st c) (λ after. feed after s)

  -- stream_cb: the number of bytes that it returns, and the stream
  unfoldable pub stream_cb : Bool → Stream S → Bytes → Option (ℕ × Stream S)
  unfolding feed
  stream_cb cancelled st s =
      let fed : Option (ℕ × Stream S) = and_then (feed st s) (λ after. some (length s, after)) in
      if cancelled then some (0, st) else fed

  -- the calls of stream_cb for a body that comes in several chunks, where the request is not
  -- cancelled
  unfoldable pub feed_chunks : Stream S → List Bytes → Option (Stream S)
  unfolding feed
  feed_chunks st [] = some st
  feed_chunks st (c ∷ cs) = and_then (feed st c) (λ after. feed_chunks after cs)
