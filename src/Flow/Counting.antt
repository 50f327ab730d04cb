-- ===== src/Flow/Counting.antt =====
-- Proofs about csapex_core/src/msg/output.cpp, `notifyMessageProcessed`: how often an output tells that its token
-- was processed.
use csapex.Base.{
  ℕ, suc, ◌≡◌, refl, ◌∙◌, ◌==◌, ==_refl, Bool, false, List, [], ◌∷◌, Option-cases, if◌then◌else◌,
  Bool-cases, inl, inr,
}
use csapex.Flow.Net.{Net, Signal, messages_processed, message_processed, not_initialized, emit}
use csapex.Flow.Transition.{are_all_connections}
use csapex.Flow.Acknowledge.{
  can_start_sending_messages, check_if_output_enabled, token_processed, emit_message_processed,
}

abbrev is_processed : ℕ → Signal → Bool
is_processed o (message_processed p) = o == p
is_processed o _ = false

-- How often `message_processed` of an output is among the signals.
abbrev pub count_processed : ℕ → List Signal → ℕ
count_processed o [] = 0
count_processed o (g ∷ gs) =
    let rest = count_processed o gs in if is_processed o g then suc rest else rest

abbrev SameCount : ℕ → Net → Net → Type 0
SameCount o n n' = count_processed o n'.signals ≡ count_processed o n.signals

check_if_output_enabled-SameCount :
    (o t : ℕ) (n : Net) → SameCount o n (check_if_output_enabled t n)
unfolding check_if_output_enabled
check_if_output_enabled-SameCount o t n = elim (Bool-cases (can_start_sending_messages t n)) [
  | inl e ↦ rw e refl
  | inr e ↦ rw e refl
]

token_processed-SameCount : (o t : ℕ) (n : Net) → SameCount o n (token_processed t n)
unfolding token_processed
token_processed-SameCount o t n =
    elim (Bool-cases (are_all_connections not_initialized (n.output_transition t).connections n)) [
      | inl e ↦ rw e (check_if_output_enabled-SameCount o t (emit (messages_processed t) n))
      | inr e ↦ rw e refl
    ]

pub count-emit_message_processed :
    (o : ℕ) (n : Net)
    → count_processed o (emit_message_processed o n).signals ≡ suc (count_processed o n.signals)
unfolding emit_message_processed
count-emit_message_processed o n =
    let m = emit (message_processed o) n in
    elim (Option-cases (n.output o).transition) [
      | inl e ↦ rw (emit_message_processed, e, ==_refl o) refl
      | inr (t, e) ↦
          rw (emit_message_processed, e) (token_processed-SameCount o t m ∙ rw (==_refl o) refl)
    ]
