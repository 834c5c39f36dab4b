-- ===== src/Agent/Goal/Judged.antt =====
-- agent_goal_judge: what it makes of a reply.
use bash_agent.Agent.Context.{Reply, summary_reply}
use bash_agent.Agent.Events.{Log}
use bash_agent.Agent.Goal.{
  Verdict, agent_goal_judge, crashes, goal_done, is_skipped, judge_lines, judge_reply, judged,
  next_instruction, no_verdict, norm_of, says, upper,
}
use bash_agent.Base.{
  All, Bool-cases, Bytes, List, Option, [], arith, c_string, false, inl, inr, length, none, refl,
  some, str_eq, str_eq_sound, sym, true, ℕ, ◌+◌, ◌==◌, ◌∙◌, ◌∷◌, ◌≡◌,
}
use bash_agent.Transport.Events.{Accumulator}

upper_lem : (c : ℕ) → is_skipped c ≡ false → (upper c == b'_') ≡ false
upper_lem c h = ground arith

norm_of-All : (s : Bytes) → All (λ c. (c == b'_') ≡ false) (norm_of s)
unfolding norm_of
norm_of-All [] = tt
norm_of-All (c ∷ s) = elim (Bool-cases (is_skipped c)) [
  | inl e ↦ rw e (norm_of-All s)
  | inr e ↦ rw e (upper_lem c e, norm_of-All s)
]

not_token : ¬ All (λ c. (c == b'_') ≡ false) goal_done
not_token h = let bad : true ≡ false = h.1.1.1.1.0 in cc (bad)

-- the text without blanks and punctuation marks is never the token, which has one
not_recognized : (s : Bytes) → str_eq (norm_of s) goal_done ≡ false
not_recognized s = elim (Bool-cases (str_eq (norm_of s) goal_done)) [
  | inl e ↦
      let same = str_eq_sound (norm_of s) goal_done e in
      absurd (not_token (rw same at (norm_of-All s)))
  | inr e ↦ e
]

-- only blanks and punctuation marks
abbrev pub AllSkipped : Bytes → Type 0
AllSkipped = All (λ c. is_skipped c ≡ true)

norm_of-skipped : (s : Bytes) → AllSkipped s → (length (norm_of s) == 0) ≡ true
unfolding norm_of
norm_of-skipped [] h = refl
norm_of-skipped (c ∷ s) (e, h) = rw e (norm_of-skipped s h)

skipped-norm_of : (s : Bytes) → (length (norm_of s) == 0) ≡ true → AllSkipped s
unfolding norm_of
skipped-norm_of [] h = tt
skipped-norm_of (c ∷ s) h = elim (Bool-cases (is_skipped c)) [
  | inl e ↦ (e, skipped-norm_of s (rw e at h))
  | inr e ↦
      absurd
        (let bad : length (norm_of s) + 1 ≡ 0 = ground (arith, rw e at h) in omega (arith, bad))
]

-- the verdict on a reply
pub data Judges : Option Accumulator → Verdict → Type 0 where
  unanswered : Judges none no_verdict
  blank_reply : (acc : Accumulator) → AllSkipped (c_string acc.content) → Judges (some acc) crashes
  told :
      (acc : Accumulator)
      → ¬ AllSkipped (c_string acc.content)
      → Judges (some acc) (says (c_string acc.content))

next_instruction-told : (s : Bytes) → ¬ AllSkipped s → next_instruction s ≡ s
next_instruction-told [] h = absurd (h tt)
next_instruction-told (c ∷ s) h =
    let full : (length (c ∷ s) == 0) ≡ false = ground arith in rw full refl

judge_reply-Judges :
    (log : Log) (reply : Option Accumulator) → Judges reply (judge_reply log reply).0
unfolding judge_reply judged
judge_reply-Judges log none = unanswered
judge_reply-Judges log (some acc) =
    let s = c_string acc.content in
    elim (Bool-cases (length (norm_of s) == 0)) [
      | inl e ↦ rw e (blank_reply acc (skipped-norm_of s e))
      | inr e ↦
          let other : ¬ AllSkipped s =
            λ h. absurd (let bad : true ≡ false = sym (norm_of-skipped s h) ∙ e in cc (bad)) in
          rw (e, not_recognized s, next_instruction-told s other) (told acc other)
    ]

-- agent_goal_judge never recognizes the token GOAL_DONE by the normalization of the reply, which
-- removes the `_` of the token. The verdict on a reply is its text as it is, where that has a
-- character other than blanks and punctuation marks; the program crashes on a reply of only
-- these; and there is no verdict where there is no reply or the conversation cannot be opened.
pub agent_goal_judge_lem :
    (goal : Bytes) (ask : List Bytes → Reply) (log : Log)
    → ((s : Bytes) → str_eq (norm_of s) goal_done ≡ false)
      × ((agent_goal_judge goal ask none log).0 ≡ no_verdict)
      × ((file : Bytes)
          → Judges
              (summary_reply (ask (judge_lines goal file)))
              (agent_goal_judge goal ask (some file) log).0)
unfolding agent_goal_judge
agent_goal_judge_lem goal ask log = (
  not_recognized,
  refl,
  λ file. judge_reply-Judges log (summary_reply (ask (judge_lines goal file))),
)
