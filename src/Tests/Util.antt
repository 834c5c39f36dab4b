-- ===== src/Tests/Util.antt =====
-- Runs of the modelled c/util.c on concrete inputs.
use bash_agent.Base.{
  Bytes, [], arith, codes, inr, length, max, refl, some, take, ◌*◌, ◌++◌, ◌+◌, ◌/◌, ◌<◌, ◌∷◌, ◌≡◌,
  ◌≤◌,
}
use bash_agent.Util.Base64.{base64_encode}
use bash_agent.Util.Base64.Decoded.{base64_decode, base64_encode_lem}
use bash_agent.Util.Buffer.{
  sb_append, sb_append_char, sb_appendf, sb_ensure, sb_ensure_wrapping, sb_init, sb_truncate,
}
use bash_agent.Util.Buffer.Room.{IsRoomy, sb_ensure_lem, strbuf_lem}
use bash_agent.Util.Utf8.{char_count, sanitize_utf8, truncate_chars}
use bash_agent.Util.Utf8.Sanitized.{IsSanitary, sanitize_utf8_lem, two}
use bash_agent.Util.Utf8.Shorten.{truncate_chars_lem, truncate_chars_splits}

-- "é" in UTF-8
abbrev accent : Bytes
accent = 0xC3 ∷ 0xA9 ∷ []

abbrev broken_text : Bytes
broken_text = 0xC3 ∷ 0x41 ∷ []

abbrev four_bytes : Bytes
four_bytes = 0 ∷ 255 ∷ 7 ∷ 9 ∷ []

accents-IsSanitary : IsSanitary (accent ++ (accent ++ accent))
accents-IsSanitary =
    two (omega arith) (omega arith)
      (two (omega arith) (omega arith) (two (omega arith) (omega arith) IsSanitary.done))

sanitize_utf8_example :
    IsSanitary (sanitize_utf8 (some broken_text))
    × (IsSanitary broken_text → sanitize_utf8 (some broken_text) ≡ broken_text)
    × (sanitize_utf8 (some (sanitize_utf8 (some broken_text))) ≡ sanitize_utf8 (some broken_text))
    × (length (sanitize_utf8 (some broken_text)) ≤ 6 * length broken_text)
sanitize_utf8_example = sanitize_utf8_lem broken_text

truncate_chars_example :
    (char_count (codes "hello") ≤ 4 → truncate_chars (codes "hello") 4 ≡ codes "hello")
    × (3 ≤ 4 → 4 < char_count (codes "hello") → char_count (truncate_chars (codes "hello") 4) ≡ 4)
truncate_chars_example = truncate_chars_lem (codes "hello") 4

five_chars : 4 < char_count (accent ++ codes "llo!")
unfolding char_count
five_chars = omega arith

truncate_chars_splits_example : ¬ IsSanitary (truncate_chars (accent ++ codes "llo!") 4)
truncate_chars_splits_example =
    truncate_chars_splits 0xC3 0xA9 (codes "llo!") (omega arith) (omega arith) five_chars

base64_encode_example :
    (base64_decode (base64_encode four_bytes) ≡ four_bytes)
    × (length (base64_encode four_bytes) ≡ (length four_bytes + 2) / 3 * 4)
base64_encode_example = base64_encode_lem four_bytes (omega arith)

sb_ensure_example :
    let need = length (codes "") + 300 + 1 in
    let cap = (sb_ensure_wrapping sb_init 300).cap in
    (need ≤ cap)
    × (0 ≤ cap)
    × (cap ≤ max (max 0 256) (2 * need))
    × (sb_ensure_wrapping sb_init 300 ≡ sb_ensure sb_init 300)
sb_ensure_example = sb_ensure_lem sb_init 300 (omega arith)

strbuf_example :
    ((sb_append sb_init (some (codes "ab"))).bytes ≡ [] ++ codes "ab")
    × IsRoomy (sb_append sb_init (some (codes "ab")))
    × ((sb_appendf sb_init (some (codes "ab"))).bytes ≡ [] ++ codes "ab")
    × IsRoomy (sb_appendf sb_init (some (codes "ab")))
    × ((sb_append_char sb_init 97).bytes ≡ [] ++ 97 ∷ [])
    × IsRoomy (sb_append_char sb_init 97)
    × ((sb_truncate sb_init 2).bytes ≡ take 2 [])
    × IsRoomy (sb_truncate sb_init 2)
strbuf_example = strbuf_lem sb_init (codes "ab") 97 2 (inr (refl, refl))
