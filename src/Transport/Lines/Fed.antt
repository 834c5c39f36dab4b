-- ===== src/Transport/Lines/Fed.antt =====
-- The lines that stream_cb of c/transport.c handles do not depend on how the body is cut into
-- chunks.
use mathlib.Core.Path.{ap₂}
use bash_agent.Base.{
  Bytes, List, Option, [], ap, append-nil, append_assoc, arith, false, length, ltb, none, refl,
  some, suc, sym, true, ℕ, ◌++◌, ◌+◌, ◌<◌, ◌==◌, ◌∙◌, ◌∷◌, ◌≡◌,
}
use bash_agent.Store.Conversation.{file_lines}
use bash_agent.Store.Conversation.Lines.{
  IsComplete, IsOneLine, file_lines-line, file_lines-nil, no_lines, whole_line,
}
use bash_agent.Transport.Lines.{
  Parsers, Proto, Stream, and_then, feed, feed_chunks, on_byte, on_line,
}
use bash_agent.Util.Buffer.{StrBuf, sb_append_char, sb_init, sb_truncate}
use bash_agent.Util.Buffer.Room.{ensured_lem}

abbrev pub all_chunks : List Bytes → Bytes
all_chunks [] = []
all_chunks (c ∷ cs) = c ++ all_chunks cs

and_then_assoc {ℓ} :
    {A B C : Type ℓ} (o : Option A) (f : A → Option B) (g : B → Option C)
    → and_then (and_then o f) g ≡ and_then o (λ a. and_then (f a) g)
and_then_assoc none f g = refl
and_then_assoc (some a) f g = refl

and_then_same {ℓ} :
    {A B : Type ℓ} (o : Option A) {f g : A → Option B}
    → ((a : A) → f a ≡ g a)
    → and_then o f ≡ and_then o g
and_then_same none h = refl
and_then_same (some a) h = h a

truncated :
    (bytes : Bytes) (cap : ℕ)
    → sb_truncate (record { bytes = bytes; cap = cap }) 0 ≡ record { bytes = []; cap = cap }
unfolding sb_truncate
truncated [] cap = refl
truncated (c ∷ s) cap = let longer : ltb 0 (suc (length s)) ≡ true = ground arith in rw longer refl

cap_grows : (sb : StrBuf) (c : ℕ) → 0 < (sb_append_char sb c).cap
unfolding sb_append_char
cap_grows sb c =
    let (enough, more, size) = ensured_lem sb.cap (length sb.bytes + 1 + 1) (omega arith) in
    omega arith

bytes_grow : (sb : StrBuf) (c : ℕ) → (sb_append_char sb c).bytes ≡ sb.bytes ++ c ∷ []
unfolding sb_append_char
bytes_grow sb c = refl

module _ {S : Type 0} (parsers : Parsers S) (provider : Bytes) where
  -- the lines of a body, one after the other
  abbrev pub on_lines : Proto S → List Bytes → Proto S
  on_lines p [] = p
  on_lines p (l ∷ ls) = on_lines (on_line parsers provider p l) ls

  feed-append :
      (st : Stream S) (s t : Bytes)
      → feed parsers provider st (s ++ t)
        ≡ and_then (feed parsers provider st s) (λ after. feed parsers provider after t)
  unfolding feed
  feed-append st [] t = refl
  feed-append st (c ∷ s) t =
      and_then_same (on_byte parsers provider st c) (λ after. feed-append after s t)
      ∙ sym (
          and_then_assoc (on_byte parsers provider st c) (λ after. feed parsers provider after s)
            (λ after. feed parsers provider after t))

  feed_chunks-all_chunks :
      (st : Stream S) (cs : List Bytes)
      → feed_chunks parsers provider st cs ≡ feed parsers provider st (all_chunks cs)
  unfolding feed_chunks feed
  feed_chunks-all_chunks st [] = refl
  feed_chunks-all_chunks st (c ∷ cs) =
      and_then_same (feed parsers provider st c) (λ after. feed_chunks-all_chunks after cs)
      ∙ sym (feed-append st c (all_chunks cs))

  -- the bytes of a line are buffered
  feed-line :
      (st : Stream S) (l rest : Bytes)
      → IsOneLine l
      → 0 < st.line_buf.cap
      → (cap : ℕ) × (0 < cap)
        × (feed parsers provider st (l ++ b'\n' ∷ rest)
            ≡ feed parsers provider
                (record {
                  line_buf = record { bytes = []; cap = cap };
                  proto = on_line parsers provider st.proto (st.line_buf.bytes ++ l);
                })
                rest)
  unfolding feed on_byte
  feed-line st [] rest h p =
      let full : (st.line_buf.cap == 0) ≡ false = ground arith in
      (
        st.line_buf.cap,
        p,
        rw full (
            ap₂
              (λ b x.
                feed parsers provider
                  (record { line_buf = b; proto = on_line parsers provider st.proto x }) rest)
              (truncated st.line_buf.bytes st.line_buf.cap) (sym (append-nil st.line_buf.bytes))),
      )
  feed-line st (c ∷ l) rest (e, h) p =
      let longer : Stream S = record st { line_buf = sb_append_char st.line_buf c } in
      let (cap, positive, same) = feed-line longer l rest h (cap_grows st.line_buf c) in
      (
        cap,
        positive,
        rw e (
            same
            ∙ ap
                (λ x.
                  feed parsers provider
                    (record {
                      line_buf = record { bytes = []; cap = cap };
                      proto = on_line parsers provider st.proto x;
                    })
                    rest)
                (ap (λ x. x ++ l) (bytes_grow st.line_buf c)
                  ∙ append_assoc st.line_buf.bytes (c ∷ []) l)),
      )

  -- a stream with a buffer and a state of the protocol
  abbrev ended : ℕ → Bytes → Proto S → Stream S
  ended cap bytes p = record { line_buf = record { bytes = bytes; cap = cap }; proto = p }

  feed-lines :
      {s : Bytes}
      → IsComplete s
      → (st : Stream S) → st.line_buf.bytes ≡ []
      → 0 < st.line_buf.cap
      → (cap : ℕ) × (0 < cap)
        × (feed parsers provider st s
            ≡ some (record {
              line_buf = record { bytes = []; cap = cap };
              proto = on_lines st.proto (file_lines s);
            }))
  unfolding feed
  feed-lines no_lines st b p = (
    st.line_buf.cap,
    p,
    ap₂ (λ x ls. some (ended st.line_buf.cap x (on_lines st.proto ls))) b (sym file_lines-nil),
  )
  feed-lines (whole_line {s} l h r) st b p =
      let (cap, positive, same) = feed-line st l s h p in
      let line_st : Stream S = record {
        line_buf = record { bytes = []; cap = cap };
        proto = on_line parsers provider st.proto (st.line_buf.bytes ++ l);
      } in
      let (last, more, rest) = feed-lines r line_st refl positive in
      (
        last,
        more,
        same
            ∙ rest
            ∙ ap
                (λ x.
                  some
                    (ended last [] (on_lines (on_line parsers provider st.proto x) (file_lines s))))
                (ap (λ x. x ++ l) b)
            ∙ ap (λ ls. some (ended last [] (on_lines st.proto ls))) (sym (file_lines-line l s h)),
      )

  -- However the body of a response is cut into chunks, stream_cb handles its lines one after the
  -- other, and then waits for the next line with an empty buffer. The body consists of whole
  -- lines, and the buffer has data already, as it has behind any byte that is no line feed.
  pub feed_chunks_lem :
      (st : Stream S) (cs : List Bytes)
      → st.line_buf.bytes ≡ []
      → 0 < st.line_buf.cap
      → IsComplete (all_chunks cs)
      → (cap : ℕ) × (0 < cap)
        × (feed_chunks parsers provider st cs
            ≡ some (record {
              line_buf = record { bytes = []; cap = cap };
              proto = on_lines st.proto (file_lines (all_chunks cs));
            }))
  feed_chunks_lem st cs b p h =
      let (cap, positive, same) = feed-lines h st b p in
      (cap, positive, feed_chunks-all_chunks st cs ∙ same)

  -- A body that begins with a line feed: on the buffer of a new stream, which has no data yet,
  -- stream_cb calls strlen(NULL).
  pub feed_chunks_null :
      (p : Proto S) (s : Bytes) (cs : List Bytes)
      → feed_chunks parsers provider (record { line_buf = sb_init; proto = p }) ((b'\n' ∷ s) ∷ cs)
        ≡ none
  unfolding feed_chunks feed on_byte
  feed_chunks_null p s cs = refl
