-- ===== src/Flow/Release.antt =====
-- Proofs about csapex_core/src/msg/output.cpp, `notifyMessageProcessed`: when an output is free again.
use csapex.Base.{
  ℕ, ◌≡◌, refl, ap, ◌∙◌, Bool, true, false, not, Option, none, some, arith, if◌then◌else◌,
  Bool-cases, inl, inr,
}
use csapex.Base.Result.{ok, Ensures, Ensures-ok}
use csapex.Flow.Net.{
  Net, Output, not_initialized, read, idle, put_connection, emit, message_processed,
  messages_processed, output_enabled,
}
use csapex.Flow.Transition.{are_all_connections}
use csapex.Flow.Acknowledge.{
  can_start_sending_messages, are_all_done, check_if_output_enabled, token_processed,
  emit_message_processed, notify_processed, notify_connection_processed, notify_message_processed,
  set_token_processed, set_output_state,
}
use csapex.Flow.Acknowledged.{told, acknowledge-eq, set_state-read}

-- A condition on a net that has both branches has the conditional.
both : (P : Net → Type 0) (b : Bool) (x y : Net) → P x → P y → P (if b then x else y)
both P true x y p q = p
both P false x y p q = q

output-check_if_output_enabled : (t : ℕ) (n : Net) → (check_if_output_enabled t n).output ≡ n.output
unfolding check_if_output_enabled
output-check_if_output_enabled t n =
    both (λ m. m.output ≡ n.output) (can_start_sending_messages t n) (emit (output_enabled t) n) n
      refl refl

output-token_processed : (t : ℕ) (n : Net) → (token_processed t n).output ≡ n.output
unfolding token_processed
output-token_processed t n =
    both (λ m. m.output ≡ n.output)
      (are_all_connections not_initialized (n.output_transition t).connections n)
      (check_if_output_enabled t (emit (messages_processed t) n)) n
      (output-check_if_output_enabled t (emit (messages_processed t) n)) refl

output-transition :
    (t : Option ℕ) (g : ℕ → Net) (x : Net) (f : ℕ → Output)
    → x.output ≡ f
    → ((k : ℕ) → (g k).output ≡ f)
    → (elim t as (λ u. Net) [ none ↦ x | some k ↦ g k ]).output ≡ f
output-transition none g x f p q = p
output-transition (some k) g x f p q = q k

pub output-emit_message_processed :
    (o : ℕ) (n : Net) → (emit_message_processed o n).output ≡ n.output
unfolding emit_message_processed
output-emit_message_processed o n =
    output-transition (n.output o).transition
      (λ t. token_processed t (emit (message_processed o) n)) (emit (message_processed o) n)
      n.output refl (λ t. output-token_processed t (emit (message_processed o) n))

-- The connection `c` after its token was acknowledged, and nothing else.
abbrev pub released : ℕ → Net → Net
released c n = put_connection c (record (n.connection c) { state = not_initialized }) n

pub told_fields :
    (o : ℕ) (n : Net)
    → (((told o n).output o).processing ≡ false) × (((told o n).output o).state ≡ idle)
unfolding set_output_state
told_fields o n = ground arith

pub set_token_processed-read :
    (c : ℕ) (n : Net)
    → (n.connection c).state ≡ read
    → set_token_processed c n ≡ notify_message_processed c (released c n)
unfolding set_token_processed
set_token_processed-read c n r = rw (r, set_state-read c n r)

pub released_ends :
    (c : ℕ) (n : Net)
    → (((released c n).connection c).detached ≡ (n.connection c).detached)
      × (((released c n).connection c).from ≡ (n.connection c).from)
released_ends c n = ground arith

pub notify_message_processed-attached :
    (c o : ℕ) (m : Net)
    → (m.connection c).detached ≡ false
    → (m.connection c).from ≡ o
    → notify_message_processed c m ≡ notify_connection_processed o m
unfolding notify_message_processed
notify_message_processed-attached c o m d e = rw d (ap (λ k. notify_connection_processed k m) e)

pub notify_connection_processed-all :
    (o : ℕ) (m : Net)
    → (m.output o).processing ≡ true
    → are_all_done (m.output o).connections m ≡ true
    → notify_connection_processed o m ≡ ok (emit_message_processed o (told o m))
unfolding notify_connection_processed notify_processed
notify_connection_processed-all o m p a = rw (a, p) (acknowledge-eq o m p a)

pub notify_connection_processed-some :
    (o : ℕ) (m : Net)
    → are_all_done (m.output o).connections m ≡ false
    → notify_connection_processed o m ≡ ok m
unfolding notify_connection_processed
notify_connection_processed-some o m a = rw a

-- When the token of an attached connection was read and its output is processing, acknowledging it
-- succeeds: the output is processing still exactly if some connection of it is not done, and it turns
-- idle otherwise.
pub set_token_processed_releases :
    (c : ℕ) (n : Net)
    → (n.connection c).state ≡ read
    → (n.connection c).detached ≡ false
    → (n.output (n.connection c).from).processing ≡ true
    → let o = (n.connection c).from in
      let all_done = are_all_done (n.output o).connections (released c n) in
      Ensures
        (λ n'.
          ((n'.output o).processing ≡ not all_done)
          × ((n'.output o).state ≡ (if all_done then idle else (n.output o).state)))
        (set_token_processed c n)
set_token_processed_releases c n r d p =
    let o = (n.connection c).from in
    let m = released c n in
    let (ends_d, ends_f) = released_ends c n in
    let called =
      set_token_processed-read c n r
      ∙ notify_message_processed-attached c o m (ends_d ∙ d) ends_f in
    elim (Bool-cases (are_all_done (n.output o).connections m)) [
      | inl a ↦
          let (f, s) = told_fields o m in
          let same = output-emit_message_processed o (told o m) in
          rw (called, notify_connection_processed-all o m p a, a)
            (Ensures-ok _ (
              ap (λ (g : ℕ → Output). (g o).processing) same ∙ f,
              ap (λ (g : ℕ → Output). (g o).state) same ∙ s,
            ))
      | inr a ↦ rw (called, notify_connection_processed-some o m a, a) (Ensures-ok m (p, refl))
    ]
